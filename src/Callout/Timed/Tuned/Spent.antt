-- ===== src/Callout/Timed/Tuned/Spent.antt =====
-- A timeout of 0 in kmod/framework_callout.c: the thread ends, and nothing dims the panel any more.
use framework_kmod.Base.{
  Bool, true, Bool-cases, List, Option, Returns, Returns-then, Returns-map, arith, false, inl, inr,
  ltb, none, refl, some, subst, suc, sym, zero, ℕ, ◌*◌, ◌+◌, ◌⊎◌, ◌≤◌, ◌-◌, ◌<◌, ◌≡◌, ◌∙◌,
}
use native.Mathlib.Nat.{suc-mul}
use framework_kmod.Kernel.{Kernel, InputApi}
use framework_kmod.Power.{PowerType}
use framework_kmod.Callout.{BrightMode, CalloutSys}
use framework_kmod.Callout.Wanted.{in_use, timeout}
use framework_kmod.Callout.Timed.{Clocked, second, sleep_on, step, to_clock}
use framework_kmod.Callout.Timed.Steady.{IsSteady}
use framework_kmod.Callout.Timed.Wired.{Wired}
use framework_kmod.Callout.Timed.Begin.{passed, passed-Wired}
use framework_kmod.Callout.Timed.Shown.{Works, both}
use framework_kmod.Callout.Timed.Tuned.{Change, changes}
use framework_kmod.Callout.Timed.Tuned.Up.{Goes, IsQuiet, IsUp, gives_up, goes_active}
use framework_kmod.Callout.Timed.Tuned.Kept.{second-IsUp}
use framework_kmod.Callout.Timed.Tuned.Over.{Ended, Leaves, over_lem, relit, seconds}

shorter :
    (n hz wait : ℕ) → hz + hz ≤ wait → wait < suc n * hz + hz → (wait - hz < n * hz + hz) × (0 < n)
shorter zero hz wait m h = absurd (omega arith)
shorter (suc n) hz wait m h = omega (arith, suc-mul (suc n) hz)

inactive : (b : Bool) (left : Option ℕ) → left ≡ none → Goes b left → b ≡ false
inactive true none e g = elim g [ ]
inactive false none e g = refl
inactive b (some wait) e g = cc

module _ {E : Type 0} (k : Kernel E) (i : InputApi E) {hz : ℕ} {pass : E → E} {m : PowerType}
    (st : IsSteady k hz pass m) {shown : ℕ → ℕ → E → Type 0} (works : Works k pass shown)
    (quiet : IsQuiet k i shown) (dev : ℕ) where
  -- The thread sleeps, and will find no timeout.
  pub record Doomed (wait : ℕ) (l : BrightMode) (c : Clocked E) : Type 0 where
    pub up : IsUp k m shown dev c
    pub asleep : c.left ≡ some wait
    pub no_timeout : timeout (in_use m c.sys.display.screen) ≡ 0
    pub level : c.sys.callout.current_level ≡ l

  abbrev Sleeps : ℕ → BrightMode → Clocked E → Type 0
  Sleeps wait l d =
      (hz + hz ≤ wait)
      × (d.left ≡ some (wait - hz))
      × (timeout (in_use m d.sys.display.screen) ≡ 0)
      × (d.sys.callout.current_level ≡ l)

  slept_second :
      (wait limit : ℕ) (l : BrightMode) (s : CalloutSys E)
      → Wired m limit s
      → Goes s.callout.active (some wait)
      → timeout (in_use m s.display.screen) ≡ 0
      → s.callout.current_level ≡ l
      → Returns
          (λ _ d. Leaves k i st works quiet dev l d ⊎ Sleeps wait l d)
          (sleep_on k i hz pass (some wait) (record { sys = s; left = some wait }))
  unfolding sleep_on to_clock
  slept_second wait limit l s w g t e = elim (Bool-cases (ltb wait (hz + hz))) [
    | inl over ↦
        let w' = subst (λ n. Wired m n s) (sym w.limited ∙ t) w in
        rw (over, gives_up k i st works quiet s w' (goes_active s.callout.active wait g))
          (inl (refl, e))
    | inr on ↦ rw on (inr (ground arith, refl, t, e))
  ]

  Doomed-second :
      (wait : ℕ) (l : BrightMode) (c : Clocked E)
      → Doomed wait l c
      → Returns
          (λ _ d. Ended k m shown dev l d ⊎ ((hz + hz ≤ wait) × Doomed (wait - hz) l d))
          (step k i hz pass second c)
  unfolding step
  Doomed-second wait l c d =
      Returns-map _ _ (step k i hz pass second c)
        (λ _ t g. elim (g.1) [
          | inl o ↦ inl (record { up = g.0; over = o.0; level = o.1 })
          | inr o ↦ inr (o.0, record { up = g.0; asleep = o.1; no_timeout = o.2; level = o.3 })
        ])
        (both _ _ (step k i hz pass second c) (second-IsUp k i st works quiet dev c d.up) (
          subst
            (λ left.
              Goes c.sys.callout.active left
              → Returns (λ _ t. Leaves k i st works quiet dev l t ⊎ Sleeps wait l t)
                  (sleep_on k i hz pass left (record { sys = passed k i st c.sys; left = left })))
            (sym d.asleep)
            (λ g.
              slept_second wait d.up.limit l (passed k i st c.sys)
                (passed-Wired k i st d.up.limit c.sys d.up.wired) g d.no_timeout d.level)
            d.up.goes))

  Doomed-seconds :
      (n wait : ℕ) (cs : List Change) (l : BrightMode) (c : Clocked E)
      → Doomed wait l c
      → wait < n * hz + hz
      → 0 < n
      → Returns (λ _ d. Ended k m shown dev (relit cs l) d) (changes k i hz pass (seconds n cs) c)
  unfolding changes
  Doomed-seconds zero wait cs l c d h p = absurd (omega arith)
  Doomed-seconds (suc n) wait cs l c d h p =
      Returns-then (λ _ t. Ended k m shown dev l t ⊎ ((hz + hz ≤ wait) × Doomed (wait - hz) l t)) _
        (step k i hz pass second c) (λ _. changes k i hz pass (seconds n cs))
        (λ _ t g. elim g [
          | inl e ↦ over_lem k i st works quiet dev n cs l t e
          | inr (more, e) ↦
              let x = shorter n hz wait more h in Doomed-seconds n (wait - hz) cs l t e x.0 x.1
        ])
        (Doomed-second wait l c d)

  -- The thread sleeps with `wait` ticks left, in a system at work (`IsUp`), on a machine as
  -- `IsSteady` says, with a backlight that works, and that no query of ACPI, wake-up or start of a
  -- thread makes show another level, and the timeout of the configuration in use is 0. After `n`
  -- seconds, at least one and enough for these ticks to end, and after any further seconds, reports
  -- and writes, also of another timeout: the thread has ended, `active` is cleared, and the level
  -- is HIGH if a report has come since the seconds, and else what it was. So nothing dims the panel
  -- any more.
  pub no_timeout-ends :
      (n wait : ℕ) (cs : List Change) (c : Clocked E)
      → IsUp k m shown dev c
      → c.left ≡ some wait
      → timeout (in_use m c.sys.display.screen) ≡ 0
      → wait < n * hz + hz
      → 0 < n
      → Returns
          (λ _ d.
            (d.left ≡ none)
            × (d.sys.callout.active ≡ false)
            × (d.sys.callout.current_level ≡ relit cs c.sys.callout.current_level))
          (changes k i hz pass (seconds n cs) c)
  no_timeout-ends n wait cs c u a t h p =
      Returns-map (λ _ d. Ended k m shown dev (relit cs c.sys.callout.current_level) d) _
        (changes k i hz pass (seconds n cs) c)
        (λ _ d e. (e.over, inactive d.sys.callout.active d.left e.over e.up.goes, e.level))
        (Doomed-seconds n wait cs c.sys.callout.current_level c
          (record { up = u; asleep = a; no_timeout = t; level = refl }) h p)
