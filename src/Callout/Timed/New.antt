-- ===== src/Callout/Timed/New.antt =====
-- From `framework_callout_init` on: the callout system that it makes, and its thread.
use framework_kmod.Base.{
  Outcome, Returns, List, Slot, ap, fault, free, freed, if◌then◌else◌, leb, live, null,
  null_pointer, ok, refl, some, sym, subst, true, use_after_free, ℕ, ◌-◌, ◌*◌, ◌+◌, ◌<◌, ◌^◌, ◌∙◌,
  ◌≡◌, ◌≤◌,
}
use framework_kmod.Kernel.{Kernel, InputApi}
use framework_kmod.Power.{PowerType}
use framework_kmod.Screen.{ScreenConfig, power_config}
use framework_kmod.Backlight.Panel.{Shows, setbrightness_returns}
use framework_kmod.Display.{IsReady, backlight_of, put_backlight}
use framework_kmod.Utils.Lookup.{after_query, mode_now}
use framework_kmod.Backlight.{BacklightSys, setbrightness}
use framework_kmod.Keyhandler.{KeyHandler}
use framework_kmod.Keyhandler as Keyhandler
use framework_kmod.Callout.{Callout, high}
use framework_kmod.Callout.Setup.{CalloutHandle, behind, init, new_callout}
use framework_kmod.Callout.Wanted.{
  CanRun, config_now, getbrightnessfor-wanted, in_use, timeout, wanted, wanted_capped,
}
use framework_kmod.Callout.Timed.{Clocked, Event, run_thread}
use framework_kmod.Callout.Timed.Steady.{IsSteady, KeepsTime, query_time, set-Kept}
use framework_kmod.Callout.Timed.Wired.{backlight-IsReady, queried-IsReady}
use framework_kmod.Callout.Timed.Begin.{IsNew, at_end, last_at_end}
use framework_kmod.Callout.Timed.Shown.{Works}
use framework_kmod.Callout.Timed.Lit.{AllKeyless, run_thread-Shows}

module _ {E : Type 0} (k : Kernel E) (i : InputApi E) (hz : ℕ) (pass : E → E) where
  -- The new thread runs on the structure that the pointer stands for.
  run_at : Slot Callout → List Event → CalloutHandle E → Outcome (Clocked E) (Unit {0})
  run_at null es h = fault null_pointer
  run_at freed es h = fault use_after_free
  run_at (live c) es h = run_thread k i hz pass es (behind c h)

  run_made : List Event → Outcome (CalloutHandle E) (Unit {0}) → Outcome (Clocked E) (Unit {0})
  unfolding run_at
  run_made es (ok _ h) = run_at h.callout es h
  run_made es (fault f) = fault f

  -- `framework_callout_init`, and then these events.
  unfoldable pub run_init : List Event → CalloutHandle E → Outcome (Clocked E) (Unit {0})
  unfolding run_made
  run_init es h = run_made es (init k i (some power_config) (Keyhandler.init (some power_config)) h)

module _ {E : Type 0} (k : Kernel E) (m : PowerType) where
  -- What `framework_callout_init` finds: a display that is ready, and the evdev connector at work.
  pub record IsSetUp (limit : ℕ) (h : CalloutHandle E) : Type 0 where
    pub display_ready : IsReady h.display
    pub evdev_free : h.evdev.lock ≡ free
    pub evdev_on : h.evdev.active ≡ true
    pub limited : timeout (in_use m h.display.screen) ≡ limit
    pub past : h.evdev.last_input ≤ k.time_uptime h.display.env
    pub recent : k.time_uptime h.display.env - h.evdev.last_input < 2 ^ 32

module _ {E : Type 0} (k : Kernel E) (i : InputApi E) {hz : ℕ} {pass : E → E} {m : PowerType}
    (st : IsSteady k hz pass m) where
  abbrev pub kh : Slot KeyHandler
  kh = Keyhandler.init (some power_config)

  abbrev pub first : Callout
  first = new_callout (some power_config) kh

  -- The panel is set, and the thread is added.
  abbrev pub made : CalloutHandle E → BacklightSys E → CalloutHandle E
  made h t = record {
    callout = live first;
    drop = h.drop;
    evdev = h.evdev;
    display = record (put_backlight t (after_query k h.display)) {
      env = (i.kthread_add t.env).env;
    };
  }

  abbrev pub before : CalloutHandle E → BacklightSys E
  before h = backlight_of (after_query k h.display)

  pub init_lem :
      (h : CalloutHandle E)
      → IsReady h.display
      → (b : ℕ) × (error : ℕ) × (t : BacklightSys E) × (b ≤ 100)
        × (setbrightness k b (before h) ≡ ok error t)
        × (init k i (some power_config) kh h ≡ ok tt (made h t))
  unfolding init
  init_lem h r =
      let s = behind first h in
      let can : CanRun s = record { rw_free = refl; has_config = refl; display_ready = r } in
      let b = wanted high (config_now k s) in
      let (error, t, set) = setbrightness_returns k b (before h) in
      (
        b,
        error,
        t,
        wanted_capped (mode_now k h.display) high h.display.screen r.screen_ready,
        set,
        rw (getbrightnessfor-wanted k s can st.acpi, set) refl,
      )

  pub made-IsNew :
      (limit : ℕ) (h : CalloutHandle E) (t : BacklightSys E)
      → k.time_uptime (made h t).display.env ≡ k.time_uptime h.display.env
      → IsSetUp k m limit h
      → IsNew k m limit (behind first (made h t))
  made-IsNew limit h t clock u =
      let ready = backlight-IsReady k st t _ (queried-IsReady k st h.display u.display_ready) in
      record {
        can_run = record {
          rw_free = refl;
          has_config = refl;
          display_ready = record {
            power_free = ready.power_free;
            screen_ready = ready.screen_ready;
          };
        };
        unlocked = refl;
        active = refl;
        handler = refl;
        evdev_free = u.evdev_free;
        evdev_on = u.evdev_on;
        limited = u.limited;
        lit = refl;
        past = subst (λ n. h.evdev.last_input ≤ n) (sym clock) u.past;
        recent = subst (λ n. n - h.evdev.last_input < 2 ^ 32) (sym clock) u.recent;
      }

  pub run_init_lem :
      (es : List Event) (h : CalloutHandle E) (t : BacklightSys E)
      → init k i (some power_config) kh h ≡ ok tt (made h t)
      → run_init k i hz pass es h ≡ run_thread k i hz pass es (behind first (made h t))
  unfolding run_init
  run_init_lem es h t e = ap (run_made k i hz pass es) e

  -- From `framework_callout_init` on, on a machine as `IsSteady` says, with a display that is
  -- ready, the evdev connector at work, a backlight that shows a level that was set, or that it
  -- reports, without error (`Works`), and a timeout from 1 to 2 ^ 32 - 1 of which the ticks, and
  -- those of a second more, fit an int, with a `tvtohz` that is right up to less than a second for
  -- such times (`KeepsTime`): whatever seconds pass and whatever reports without a key come once
  -- the thread runs, the panel shows `brightness_low` of the configuration in use if the last
  -- report is at least its timeout ago, and else its `brightness_high`.
  pub run_init-Shows :
      {shown : ℕ → ℕ → E → Type 0} (dev : ℕ) (c : ScreenConfig) (es : List Event)
      (h : CalloutHandle E)
      → Works k pass shown
      → KeepsTime k hz
      → ((e : E) → k.time_uptime (i.kthread_add e).env ≡ k.time_uptime e)
      → in_use m h.display.screen ≡ some c
      → 0 < c.timeout_secs
      → c.timeout_secs < 2 ^ 32
      → c.timeout_secs * hz + hz < 2147483648
      → IsSetUp k m c.timeout_secs h
      → h.display.backlight.sc ≡ some dev
      → AllKeyless es
      → let start = k.time_uptime h.display.env in
        let idle = at_end es start - last_at_end es start h.evdev.last_input in
        Returns
          (λ _ d.
            Shows k shown dev
              (if leb c.timeout_secs idle then c.brightness_low else c.brightness_high)
              (backlight_of d.sys.display))
          (run_init k i hz pass es h)
  run_init-Shows {shown} dev c es h works keeps at_add conf pos word fits u sc q =
      let (b, error, t, capped, set, run) = init_lem h u.display_ready in
      let (time, device) = set-Kept k st b error (before h) t set in
      let clock = at_add t.env ∙ time ∙ query_time k st h.display in
      let s = behind first (made h t) in
      let shows = λ (n : ℕ) (o : Outcome (Clocked E) (Unit {0})).
        Returns
          (λ _ d.
            Shows k shown dev
              (if leb c.timeout_secs (at_end es n - last_at_end es n h.evdev.last_input)
                then c.brightness_low
                else c.brightness_high)
              (backlight_of d.sys.display))
          o in
      subst (shows (k.time_uptime h.display.env)) (sym (run_init_lem es h t run)) (
        subst (λ n. shows n (run_thread k i hz pass es s)) clock
          (run_thread-Shows k i st keeps dev c es s works conf pos word fits
            (made-IsNew c.timeout_secs h t clock u) (device ∙ sc) q))
