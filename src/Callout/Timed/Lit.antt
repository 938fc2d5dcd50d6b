-- ===== src/Callout/Timed/Lit.antt =====
-- What kmod/framework_callout.c makes the panel show, second by second.
use framework_kmod.Base.{
  Bool, true, false, Bool-cases, List, Returns, Returns-map, Returns-then, [], ap, if◌then◌else◌,
  inl, inr, leb, ltb, none, refl, some, subst, sym, ℕ, ◌+◌, ◌*◌, ◌-◌, ◌<◌, ◌^◌, ◌∙◌, ◌∷◌, ◌≡◌,
}
use framework_kmod.Kernel.{Kernel, InputApi}
use framework_kmod.Power.{PowerType, bat, pwr, ivl}
use framework_kmod.Screen.{ScreenConfig, ScreenData, Screen}
use framework_kmod.Backlight.Panel.{Shows}
use framework_kmod.Display.{backlight_of}
use framework_kmod.Callout.{CalloutSys, dim, high}
use framework_kmod.Callout.Wanted.{in_use, wanted}
use framework_kmod.Callout.Timed.{
  Clocked, Event, input, launch, run, run_thread, second, sleep_on, step, to_clock, woken,
}
use framework_kmod.Callout.Timed.Seconds.{proper}
use framework_kmod.Callout.Timed.Steady.{IsSteady, KeepsTime, before_set, now}
use framework_kmod.Callout.Timed.Wired.{Wired, woken_lem}
use framework_kmod.Callout.Timed.Reports.{on_input_set, reported}
use framework_kmod.Callout.Timed.Begin.{
  IsNew, at_after, at_end, last_after, last_at_end, armed, armed-Wired, launch_lem, passed,
  passed-Wired,
}
use framework_kmod.Callout.Timed.Level.{IsProper, launch-IsProper, step-IsProper}
use framework_kmod.Callout.Timed.Shown.{Works, both, set_shown}

in_use_eq : (m : PowerType) (s t : Screen) → s.settings ≡ t.settings → in_use m s ≡ in_use m t
in_use_eq bat s t e = ap (λ d. some d.battery) e
in_use_eq pwr s t e = ap (λ d. some d.power) e
in_use_eq ivl s t e = refl

level_if :
    (b : Bool) (c : ScreenConfig)
    → wanted (if b then dim else high) (some c)
      ≡ (if b then c.brightness_low else c.brightness_high)
level_if true c = refl
level_if false c = refl

-- Input without a key.
abbrev pub Keyless : Event → Type 0
Keyless second = Unit {0}
Keyless (input keycode) = keycode ≡ none

abbrev pub AllKeyless : List Event → Type 0
AllKeyless [] = Unit {0}
AllKeyless (e ∷ es) = Keyless e × AllKeyless es

module _ {E : Type 0} (k : Kernel E) (m : PowerType) (shown : ℕ → ℕ → E → Type 0) (dev : ℕ)
    (settings : ScreenData) where
  -- The levels are these, and the panel shows the current one.
  pub record IsLit (c : Clocked E) : Type 0 where
    pub same : c.sys.display.screen.settings ≡ settings
    pub shows :
        Shows k shown dev
          (wanted c.sys.callout.current_level (in_use m c.sys.display.screen))
          (backlight_of c.sys.display)

module _ {E : Type 0} (k : Kernel E) (i : InputApi E) {hz : ℕ} {pass : E → E} {m : PowerType}
    (st : IsSteady k hz pass m) (keeps : KeepsTime k hz) {shown : ℕ → ℕ → E → Type 0}
    (works : Works k pass shown) (dev : ℕ) (settings : ScreenData) where
  woken-IsLit :
      (limit : ℕ) (s : CalloutSys E)
      → Wired m limit s
      → s.callout.active ≡ true
      → 0 < limit
      → s.display.backlight.sc ≡ some dev
      → s.display.screen.settings ≡ settings
      → Returns (λ _ c. IsLit k m shown dev settings c) (to_clock k i hz pass (woken k i s))
  unfolding to_clock
  woken-IsLit limit s w a h c e =
      let (error, t, set, run) = woken_lem k i st s limit w a h in
      rw run (record {
        same = e;
        shows =
            set_shown k works dev _ error (backlight_of (before_set k st limit s).display) t c set;
      })

  sleep-IsLit :
      (limit at last wait : ℕ) (c : Clocked E)
      → 0 < limit
      → IsProper k hz m limit at last c
      → IsLit k m shown dev settings c
      → Returns
          (λ _ d. IsLit k m shown dev settings d)
          (sleep_on k i hz pass (some wait) (record c { sys = passed k i st c.sys }))
  unfolding sleep_on
  sleep-IsLit limit at last wait c h p l = elim (Bool-cases (ltb wait (hz + hz))) [
    | inl over ↦ rw over (
        woken-IsLit limit (passed k i st c.sys) (passed-Wired k i st limit c.sys p.wired) p.running
          h l.shows.0 l.same)
    | inr on ↦ rw on (record { same = l.same; shows = (l.shows.0, works.still dev _ _ l.shows.1) })
  ]

  step-IsLit :
      (limit at last : ℕ) (e : Event) (c : Clocked E)
      → 0 < limit
      → IsProper k hz m limit at last c
      → IsLit k m shown dev settings c
      → Keyless e
      → Returns (λ _ d. IsLit k m shown dev settings d) (step k i hz pass e c)
  unfolding step
  step-IsLit limit at last second c h p l q =
      subst
        (λ left.
          Returns (λ _ d. IsLit k m shown dev settings d)
            (sleep_on k i hz pass left (record c { sys = passed k i st c.sys })))
        (sym p.slept.asleep) (sleep-IsLit limit at last p.slept.wait c h p l)
  step-IsLit limit at last (input none) c h p l q =
      let (error, t, set, run) = on_input_set k st none limit c.sys p.wired in
      rw run (record {
        same = l.same;
        shows =
            set_shown k works dev _ error (backlight_of (reported k st none c.sys).display) t
              l.shows.0 set;
      })
  step-IsLit limit at last (input (some key)) c h p l q = cc

  abbrev Good : ℕ → ℕ → ℕ → Clocked E → Type 0
  Good limit at last c = IsProper k hz m limit at last c × IsLit k m shown dev settings c

  run-Good :
      (limit at last : ℕ) (es : List Event) (c : Clocked E)
      → 0 < limit
      → (limit < 2 ^ 32) × (limit * hz + hz < 2147483648)
      → AllKeyless es
      → Good limit at last c
      → Returns (λ _ d. Good limit (at_end es at) (last_at_end es at last) d) (run k i hz pass es c)
  unfolding run
  run-Good limit at last [] c h b q g = g
  run-Good limit at last (e ∷ es) c h b (q, qs) (p, l) =
      Returns-then (λ _ d. Good limit (at_after e at) (last_after e at last) d)
        (λ _ d. Good limit (at_end (e ∷ es) at) (last_at_end (e ∷ es) at last) d)
        (step k i hz pass e c) (λ _. run k i hz pass es)
        (λ _ d. run-Good limit (at_after e at) (last_after e at last) es d h b qs)
        (both _ _ (step k i hz pass e c) (step-IsProper k i st keeps limit at last e c h b p)
          (step-IsLit limit at last e c h p l q))

  launch-Good :
      (limit : ℕ) (s : CalloutSys E)
      → 0 < limit
      → (limit < 2 ^ 32) × (limit * hz + hz < 2147483648)
      → IsNew k m limit s
      → s.display.backlight.sc ≡ some dev
      → s.display.screen.settings ≡ settings
      → Returns
          (λ _ d. Good limit (now k s) s.evdev.last_input d)
          (to_clock k i hz pass (launch k i s))
  launch-Good limit s h b n c e = both _ _ _ (launch-IsProper k i st keeps limit s h b n) (
      rw (launch_lem k i st s n.evdev_free)
        (woken-IsLit limit (armed k i st s) (armed-Wired k i st limit s n) n.active h c e))

  run_thread-Good :
      (limit : ℕ) (es : List Event) (s : CalloutSys E)
      → 0 < limit
      → (limit < 2 ^ 32) × (limit * hz + hz < 2147483648)
      → AllKeyless es
      → IsNew k m limit s
      → s.display.backlight.sc ≡ some dev
      → s.display.screen.settings ≡ settings
      → Returns
          (λ _ d. Good limit (at_end es (now k s)) (last_at_end es (now k s) s.evdev.last_input) d)
          (run_thread k i hz pass es s)
  unfolding run_thread
  run_thread-Good limit es s h b q n c e =
      Returns-then (λ _ d. Good limit (now k s) s.evdev.last_input d)
        (λ _ d. Good limit (at_end es (now k s)) (last_at_end es (now k s) s.evdev.last_input) d)
        (to_clock k i hz pass (launch k i s)) (λ _. run k i hz pass es)
        (λ _ d. run-Good limit (now k s) s.evdev.last_input es d h b q)
        (launch-Good limit s h b n c e)

module _ {E : Type 0} (k : Kernel E) (i : InputApi E) {hz : ℕ} {pass : E → E} {m : PowerType}
    (st : IsSteady k hz pass m) (keeps : KeepsTime k hz) where
  -- On a machine as `IsSteady` says, with a backlight device that works and reports without keys:
  -- after any run of seconds and reports from the start of the thread, the panel shows
  -- `brightness_low` of the configuration in use if the last report is at least its timeout ago,
  -- and else its `brightness_high`.
  pub run_thread-Shows :
      {shown : ℕ → ℕ → E → Type 0} (dev : ℕ) (c : ScreenConfig) (es : List Event) (s : CalloutSys E)
      → Works k pass shown
      → in_use m s.display.screen ≡ some c
      → 0 < c.timeout_secs
      → c.timeout_secs < 2 ^ 32
      → c.timeout_secs * hz + hz < 2147483648
      → IsNew k m c.timeout_secs s
      → s.display.backlight.sc ≡ some dev
      → AllKeyless es
      → let idle = at_end es (now k s) - last_at_end es (now k s) s.evdev.last_input in
        Returns
          (λ _ d.
            Shows k shown dev
              (if leb c.timeout_secs idle then c.brightness_low else c.brightness_high)
              (backlight_of d.sys.display))
          (run_thread k i hz pass es s)
  run_thread-Shows {shown} dev c es s works u h b fits n sc q =
      let at = at_end es (now k s) in
      let last = last_at_end es (now k s) s.evdev.last_input in
      let settings = s.display.screen.settings in
      Returns-map (λ _ d. Good k i st keeps works dev settings c.timeout_secs at last d) _
        (run_thread k i hz pass es s)
        (λ _ d g.
          let (p, l) = g in
          let config = in_use_eq m d.sys.display.screen s.display.screen l.same ∙ u in
          subst (λ b. Shows k shown dev b (backlight_of d.sys.display))
            (ap (λ x. wanted x (in_use m d.sys.display.screen)) p.slept.level_proper
              ∙ ap (wanted (proper c.timeout_secs at last)) config
              ∙ level_if (leb c.timeout_secs (at - last)) c)
            l.shows)
        (run_thread-Good k i st keeps works dev settings c.timeout_secs es s h (b, fits) q n sc
          refl)
