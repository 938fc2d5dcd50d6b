-- ===== src/Callout/Timed/Level.antt =====
-- The level of the callout system of kmod/framework_callout.c, second by second.
use framework_kmod.Base.{
  Bool-cases, List, Outcome, Returns, Returns-then, Returns-map, if◌then◌else◌, leb, [], arith, inl,
  inr, ltb, refl, some, subst, sym, true, ℕ, ◌+◌, ◌*◌, ◌-◌, ◌<◌, ◌∙◌, ◌∷◌, ◌≡◌, ◌^◌, ap,
}
use framework_kmod.Kernel.{Kernel, InputApi}
use framework_kmod.Power.{PowerType}
use framework_kmod.Display.{backlight_of, put_backlight}
use framework_kmod.Callout.{CalloutSys, dim, high, next_seconds}
use framework_kmod.Callout.Rounds.{idle, next_seconds_bounds}
use framework_kmod.Callout.Wanted.{queried}
use framework_kmod.Callout.Timed.{
  Clocked, Event, second, input, run, step, sleep_on, to_clock, woken, launch, run_thread,
}
use framework_kmod.Callout.Timed.Seconds.{
  Ready, Slept, input-Slept, round-Slept, second-Ready, second-Slept,
}
use framework_kmod.Callout.Timed.Steady.{
  IsSteady, KeepsTime, sec2tick-KeepsTime, now, before_set, query_time, set-Kept,
}
use framework_kmod.Callout.Timed.Wired.{
  Wired, asleep-Wired, backlight-IsReady, display-Wired, woken_lem,
}
use framework_kmod.Callout.Timed.Begin.{
  at_after, last_after, at_end, last_at_end, IsNew, passed, passed-Wired, armed, launch_lem,
  armed-Wired,
}
use framework_kmod.Callout.Timed.Reports.{on_input_set, reported, reported_time, reported-Wired}

module _ {E : Type 0} (k : Kernel E) (hz : ℕ) (m : PowerType) (limit : ℕ) where
  -- At the uptime `at`, with the last report at `last`: the system is at work, the thread asleep, and
  -- the level as it should be.
  pub record IsProper (at last : ℕ) (c : Clocked E) : Type 0 where
    pub wired : Wired m limit c.sys
    pub running : c.sys.callout.active ≡ true
    pub clock : now k c.sys ≡ at
    pub report : c.sys.evdev.last_input ≡ last
    pub slept : Slept hz limit at last c.sys.callout.current_level c.left

module _ {E : Type 0} (k : Kernel E) (i : InputApi E) {hz : ℕ} {pass : E → E} {m : PowerType}
    (st : IsSteady k hz pass m) (keeps : KeepsTime k hz) where
  -- The thread is woken up when it should be.
  woken-IsProper :
      (limit : ℕ) (s : CalloutSys E)
      → Wired m limit s
      → s.callout.active ≡ true
      → 0 < limit
      → limit * hz + hz < 2147483648
      → Ready limit (now k s) s.evdev.last_input s.callout.current_level
      → Returns
          (λ _ c. IsProper k hz m limit (now k s) s.evdev.last_input c)
          (to_clock k i hz pass (woken k i s))
  unfolding to_clock
  woken-IsProper limit s w a h fits r =
      let (error, t, set, run) = woken_lem k i st s limit w a h in
      let back = backlight_of (before_set k st limit s).display in
      let time : k.time_uptime t.env ≡ now k s =
        (set-Kept k st _ error back t set).0
        ∙ query_time k st (queried k s).display
        ∙ query_time k st s.display in
      let (above, below) =
        sec2tick-KeepsTime k hz (next_seconds (idle k s) limit) limit keeps
          (next_seconds_bounds (idle k s) limit h).1 fits in
      rw run (record {
        wired = asleep-Wired k i st s limit t w;
        running = a;
        clock = time;
        report = refl;
        slept =
            round-Slept hz limit (now k s) s.evdev.last_input _ s.callout.current_level h r above
              below;
      })

  abbrev pub KeptProper : ℕ → ℕ → ℕ → Outcome (Clocked E) (Unit {0}) → Type 0
  KeptProper limit at last o = Returns (λ _ c. IsProper k hz m limit at last c) o

  over_lem :
      (limit at last : ℕ) (c : Clocked E)
      → 0 < limit
      → (limit < 2 ^ 32) × (limit * hz + hz < 2147483648)
      → IsProper k hz m limit at last c
      → KeptProper limit (at + 1) last (to_clock k i hz pass (woken k i (passed k i st c.sys)))
  over_lem limit at last c h b p =
      let time : now k (passed k i st c.sys) ≡ at + 1 =
        st.passes c.sys.display.env ∙ ap (λ n. n + 1) p.clock in
      let next = to_clock k i hz pass (woken k i (passed k i st c.sys)) in
      let level = c.sys.callout.current_level in
      let ready : Ready limit (at + 1) last level = second-Ready p.slept b.0 in
      subst (λ l. KeptProper limit (at + 1) l next) p.report
        (subst (λ n. KeptProper limit n c.sys.evdev.last_input next) time
          (woken-IsProper limit (passed k i st c.sys) (passed-Wired k i st limit c.sys p.wired)
            p.running h b.1
            (subst (λ n. Ready limit n c.sys.evdev.last_input level) (sym time)
              (subst (λ l. Ready limit (at + 1) l level) (sym p.report) ready))))

  sleep_lem :
      (limit at last : ℕ) (c : Clocked E)
      → 0 < limit
      → (limit < 2 ^ 32) × (limit * hz + hz < 2147483648)
      → (p : IsProper k hz m limit at last c)
      → KeptProper limit
          (at + 1)
          last
          (sleep_on k i hz pass (some p.slept.wait) (record c { sys = passed k i st c.sys }))
  unfolding sleep_on
  sleep_lem limit at last c h b p = elim (Bool-cases (ltb p.slept.wait (hz + hz))) [
    | inl over ↦ rw over (over_lem limit at last c h b p)
    | inr on ↦ rw on (record {
      wired = passed-Wired k i st limit c.sys p.wired;
      running = p.running;
      clock = st.passes c.sys.display.env ∙ ap (λ n. n + 1) p.clock;
      report = p.report;
      slept = second-Slept p.slept on;
    })
  ]

  pub step-IsProper :
      (limit at last : ℕ) (e : Event) (c : Clocked E)
      → 0 < limit
      → (limit < 2 ^ 32) × (limit * hz + hz < 2147483648)
      → IsProper k hz m limit at last c
      → KeptProper limit (at_after e at) (last_after e at last) (step k i hz pass e c)
  unfolding step
  step-IsProper limit at last second c h b p =
      subst
        (λ left.
          KeptProper limit (at + 1) last
            (sleep_on k i hz pass left (record c { sys = passed k i st c.sys })))
        (sym p.slept.asleep) (sleep_lem limit at last c h b p)
  step-IsProper limit at last (input keycode) c h b p =
      let u = reported k st keycode c.sys in
      let (error, t, set, run) = on_input_set k st keycode limit c.sys p.wired in
      let ready = reported-Wired k st keycode limit c.sys p.wired in
      rw run (record {
        wired =
            display-Wired m limit (put_backlight t u.display) u ready
              (backlight-IsReady k st t u.display ready.can_run.display_ready) ready.limited;
        running = p.running;
        clock =
            (set-Kept k st _ error (backlight_of u.display) t set).0
            ∙ reported_time k st keycode c.sys
            ∙ p.clock;
        report = p.clock;
        slept = input-Slept p.slept;
      })

  pub run-IsProper :
      (limit at last : ℕ) (es : List Event) (c : Clocked E)
      → 0 < limit
      → (limit < 2 ^ 32) × (limit * hz + hz < 2147483648)
      → IsProper k hz m limit at last c
      → KeptProper limit (at_end es at) (last_at_end es at last) (run k i hz pass es c)
  unfolding run
  run-IsProper limit at last [] c h b p = p
  run-IsProper limit at last (e ∷ es) c h b p =
      Returns-then (λ _ d. IsProper k hz m limit (at_after e at) (last_after e at last) d)
        (λ _ d. IsProper k hz m limit (at_end (e ∷ es) at) (last_at_end (e ∷ es) at last) d)
        (step k i hz pass e c) (λ _. run k i hz pass es)
        (λ _ d q. run-IsProper limit (at_after e at) (last_after e at last) es d h b q)
        (step-IsProper limit at last e c h b p)

  pub launch-IsProper :
      (limit : ℕ) (s : CalloutSys E)
      → 0 < limit
      → (limit < 2 ^ 32) × (limit * hz + hz < 2147483648)
      → IsNew k m limit s
      → KeptProper limit (now k s) s.evdev.last_input (to_clock k i hz pass (launch k i s))
  launch-IsProper limit s h b n = rw (launch_lem k i st s n.evdev_free) (
      woken-IsProper limit (armed k i st s) (armed-Wired k i st limit s n) n.active h b.1 (record {
        past = n.past;
        is_word = b.0;
        dimmed = λ e. ground (arith, n.lit);
        lit = λ e. n.recent;
      }))

  run_thread-IsProper :
      (limit : ℕ) (es : List Event) (s : CalloutSys E)
      → 0 < limit
      → (limit < 2 ^ 32) × (limit * hz + hz < 2147483648)
      → IsNew k m limit s
      → KeptProper limit
          (at_end es (now k s))
          (last_at_end es (now k s) s.evdev.last_input)
          (run_thread k i hz pass es s)
  unfolding run_thread
  run_thread-IsProper limit es s h b n =
      Returns-then (λ _ d. IsProper k hz m limit (now k s) s.evdev.last_input d)
        (λ _ d.
          IsProper k hz m limit (at_end es (now k s)) (last_at_end es (now k s) s.evdev.last_input)
            d)
        (to_clock k i hz pass (launch k i s)) (λ _. run k i hz pass es)
        (λ _ d. run-IsProper limit (now k s) s.evdev.last_input es d h b)
        (launch-IsProper limit s h b n)

  -- From the start of the thread of a system as `IsNew` says, on a machine as `IsSteady` says (one
  -- source of power, and a clock that no call of the driver moves), with a timeout from 1 to 2 ^ 32
  -- - 1 of which the ticks, and those of a second more, fit an int, and a `tvtohz` that is right up
  -- to less than a second for such times (`KeepsTime`): after any run of seconds that pass and
  -- reports of input devices, with or without a key, no call has faulted, the mutexes are free,
  -- input is accepted, the thread is in its loop, and the clock and the time of the last report are
  -- those of the events. The level is DIM exactly if that time is at least the timeout ago, so it
  -- is dimmed neither early nor late.
  pub run_thread-proper :
      (limit : ℕ) (es : List Event) (s : CalloutSys E)
      → 0 < limit
      → (limit < 2 ^ 32) × (limit * hz + hz < 2147483648)
      → IsNew k m limit s
      → let at = at_end es (now k s) in
        let last = last_at_end es (now k s) s.evdev.last_input in
        Returns
          (λ _ c.
            (c.sys.callout.current_level ≡ (if leb limit (at - last) then dim else high))
            × (now k c.sys ≡ at)
            × (c.sys.evdev.last_input ≡ last)
            × (c.sys.callout.active ≡ true)
            × Wired m limit c.sys)
          (run_thread k i hz pass es s)
  run_thread-proper limit es s h b n =
      Returns-map
        (λ _ d.
          IsProper k hz m limit (at_end es (now k s)) (last_at_end es (now k s) s.evdev.last_input)
            d)
        _ (run_thread k i hz pass es s)
        (λ _ c p. (p.slept.level_proper, p.clock, p.report, p.running, p.wired))
        (run_thread-IsProper limit es s h b n)
