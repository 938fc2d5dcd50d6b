-- ===== src/Callout/Timed/Tuned/Capped.antt =====
-- kmod/framework_callout.c from `framework_callout_init` on, whatever is written to the sysctls of
-- kmod/framework_sysctl.c.
use framework_kmod.Base.{
  List, Returns, Returns-then, Returns-map, [], free, refl, some, sym, subst, ℕ, ◌≡◌, ◌≤◌, ◌∙◌,
}
use framework_kmod.Kernel.{Kernel, InputApi}
use framework_kmod.Power.{PowerType}
use framework_kmod.Backlight.Panel.{Shows}
use framework_kmod.Display.{IsReady, backlight_of}
use framework_kmod.Callout.Setup.{CalloutHandle, behind}
use framework_kmod.Callout.Timed.{launch, run, run_thread, to_clock}
use framework_kmod.Callout.Timed.Steady.{IsSteady, query_time, set-Kept}
use framework_kmod.Callout.Timed.Begin.{armed, armed-Wired, launch_lem}
use framework_kmod.Callout.Timed.Shown.{Works, set_shown}
use framework_kmod.Callout.Timed.New.{
  IsSetUp, before, first, init_lem, made, made-IsNew, run_init, run_init_lem,
}
use framework_kmod.Callout.Timed.Tuned.{Change, changes_from_init}
use framework_kmod.Callout.Timed.Tuned.Up.{IsQuiet, IsUp, Shows-same, woken-IsUp}
use framework_kmod.Callout.Timed.Tuned.Kept.{changes-IsUp}

module _ {E : Type 0} (k : Kernel E) (i : InputApi E) {hz : ℕ} {pass : E → E} {m : PowerType}
    (st : IsSteady k hz pass m) {shown : ℕ → ℕ → E → Type 0} (works : Works k pass shown)
    (quiet : IsQuiet k i shown) where
  start-IsUp :
      (dev limit : ℕ) (h : CalloutHandle E)
      → ((e : E) → k.time_uptime (i.kthread_add e).env ≡ k.time_uptime e)
      → IsSetUp k m limit h
      → h.display.backlight.sc ≡ some dev
      → Returns (λ _ c. IsUp k m shown dev c) (run_init k i hz pass [] h)
  unfolding run_thread run
  start-IsUp dev limit h at_add u sc =
      let (b, error, t, capped, set, made_run) = init_lem k i st h u.display_ready in
      let s = behind (first k i st) (made k i st h t) in
      let clock =
        at_add t.env
        ∙ (set-Kept k st b error (before k i st h) t set).0
        ∙ query_time k st h.display in
      let lit = set_shown k works dev b error (before k i st h) t sc set in
      let up =
        woken-IsUp k i st works quiet dev b limit (armed k i st s)
          (armed-Wired k i st limit s (made-IsNew k i st limit h t clock u)) refl
          (Shows-same k i st works quiet dev b t (backlight_of s.display) refl
            (quiet.at_start dev b t.env) lit)
          capped in
      subst (λ o. Returns (λ _ c. IsUp k m shown dev c) o)
        (sym (run_init_lem k i st [] h t made_run))
        (Returns-then (λ _ c. IsUp k m shown dev c) _ (to_clock k i hz pass (launch k i s)) _
          (λ _ c v. v) (rw (launch_lem k i st s u.evdev_free) up))

  -- From `framework_callout_init` on, on a machine as `IsSteady` says, with a display that is
  -- ready, the evdev connector at work, a backlight that shows a level that was set, or that it
  -- reports, without error (`Works`), and that no query of ACPI, wake-up or start of a thread makes
  -- show another, a clock that the start of a thread does not move, and any timeout, 0 included:
  -- after any history of seconds, reports of input with or without a key, and writes through the
  -- sysctls to the levels and timeouts of both configurations, no call has faulted, the mutexes are
  -- free, all four levels are at most 100, and so is the level that the panel shows.
  pub changes-capped :
      (dev limit : ℕ) (cs : List Change) (h : CalloutHandle E)
      → ((e : E) → k.time_uptime (i.kthread_add e).env ≡ k.time_uptime e)
      → IsSetUp k m limit h
      → h.display.backlight.sc ≡ some dev
      → Returns
          (λ _ c.
            (c.sys.callout.lock ≡ free)
            × (c.sys.callout.rwlock ≡ free)
            × (c.sys.evdev.lock ≡ free)
            × IsReady c.sys.display
            × (b : ℕ) × (b ≤ 100)
            × Shows k shown dev b (backlight_of c.sys.display))
          (changes_from_init k i hz pass cs h)
  unfolding changes_from_init
  changes-capped dev limit cs h at_add u sc =
      Returns-map (λ _ c. IsUp k m shown dev c) _ (changes_from_init k i hz pass cs h)
        (λ _ c v. (
          v.wired.unlocked, v.wired.can_run.rw_free, v.wired.evdev_free,
          v.wired.can_run.display_ready, v.brightness, v.capped, v.shows,
        ))
        (Returns-then (λ _ c. IsUp k m shown dev c) _ (run_init k i hz pass [] h) _
          (λ _ c. changes-IsUp k i st works quiet dev cs c) (start-IsUp dev limit h at_add u sc))
