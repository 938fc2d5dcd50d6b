-- ===== src/Callout/Timed/Begin.antt =====
-- The callout system of kmod/framework_callout.c when its thread begins, and when a second has passed.
use framework_kmod.Base.{
  List, [], false, free, refl, some, true, ℕ, ◌+◌, ◌-◌, ◌<◌, ◌∷◌, ◌≡◌, ◌^◌, ◌≤◌,
}
use framework_kmod.Kernel.{Kernel, InputApi}
use framework_kmod.Power.{PowerType}
use framework_kmod.Keyhandler.{init}
use framework_kmod.Screen.{power_config}
use framework_kmod.Evdev.{callout_inputintr, setintrfunc}
use framework_kmod.Callout.{CalloutSys, high, put_display}
use framework_kmod.Callout.Wanted.{CanRun, in_use, timeout}
use framework_kmod.Callout.Timed.{Event, second, input, woken, launch}
use framework_kmod.Callout.Timed.Steady.{IsSteady, now}
use framework_kmod.Callout.Timed.Wired.{Wired, display-Wired}

-- The uptime and the time of the last report after an event.
abbrev pub at_after : Event → ℕ → ℕ
at_after second at = at + 1
at_after (input keycode) at = at

abbrev pub last_after : Event → ℕ → ℕ → ℕ
last_after second at last = last
last_after (input keycode) at last = at

abbrev pub at_end : List Event → ℕ → ℕ
at_end [] at = at
at_end (e ∷ es) at = at_end es (at_after e at)

abbrev pub last_at_end : List Event → ℕ → ℕ → ℕ
last_at_end [] at last = last
last_at_end (e ∷ es) at last = last_at_end es (at_after e at) (last_after e at last)

module _ {E : Type 0} (k : Kernel E) (m : PowerType) where
  -- The system after `framework_callout_init`, before the thread begins.
  pub record IsNew (limit : ℕ) (s : CalloutSys E) : Type 0 where
    pub can_run : CanRun s
    pub unlocked : s.callout.lock ≡ free
    pub active : s.callout.active ≡ true
    pub handler : s.callout.keyhandler ≡ init (some power_config)
    pub evdev_free : s.evdev.lock ≡ free
    pub evdev_on : s.evdev.active ≡ true
    pub limited : timeout (in_use m s.display.screen) ≡ limit
    pub lit : s.callout.current_level ≡ high
    pub past : s.evdev.last_input ≤ now k s
    pub recent : now k s - s.evdev.last_input < 2 ^ 32

module _ {E : Type 0} (k : Kernel E) (i : InputApi E) {hz : ℕ} {pass : E → E} {m : PowerType}
    (st : IsSteady k hz pass m) where
  abbrev pub passed : CalloutSys E → CalloutSys E
  passed s = put_display (record (s.display) { env = pass s.display.env }) s

  pub passed-Wired : (limit : ℕ) (s : CalloutSys E) → Wired m limit s → Wired m limit (passed s)
  passed-Wired limit s w =
      let r = w.can_run.display_ready in
      display-Wired m limit _ s w
        (record { power_free = r.power_free; screen_ready = r.screen_ready }) w.limited

  abbrev pub armed : CalloutSys E → CalloutSys E
  armed s = record s { evdev = record (s.evdev) { cbfunc = some callout_inputintr }; drop = false }

  pub launch_lem : (s : CalloutSys E) → s.evdev.lock ≡ free → launch k i s ≡ woken k i (armed s)
  unfolding launch setintrfunc
  launch_lem s f = simp f refl

  pub armed-Wired : (limit : ℕ) (s : CalloutSys E) → IsNew k m limit s → Wired m limit (armed s)
  armed-Wired limit s n = record {
    can_run = record {
      rw_free = n.can_run.rw_free;
      has_config = n.can_run.has_config;
      display_ready = n.can_run.display_ready;
    };
    unlocked = n.unlocked;
    handler = n.handler;
    evdev_free = n.evdev_free;
    evdev_on = n.evdev_on;
    wired = refl;
    accepts = refl;
    limited = n.limited;
  }
