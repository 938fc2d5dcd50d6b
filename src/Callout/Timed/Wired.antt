-- ===== src/Callout/Timed/Wired.antt =====
-- What stays as it is while the callout system runs: the locks, the pointers, and the timeout.
use framework_kmod.Base.{
  Bool, and_then, ◌>>=◌, ap, branch, false, free, held, none, ok, refl, some, sym, true, ℕ, ◌<◌,
  ◌≡◌, ◌∙◌,
}
use framework_kmod.Kernel.{Kernel, InputApi}
use framework_kmod.Power.{PowerType}
use framework_kmod.Power.Modes.{after_free}
use framework_kmod.Screen.{power_config}
use framework_kmod.Backlight.{BacklightSys, setbrightness}
use framework_kmod.Display.{Display, IsReady, backlight_of, power_of, put_backlight}
use framework_kmod.Keyhandler.{init}
use framework_kmod.Utils.Lookup.{mode_now, after_query}
use framework_kmod.Evdev.{callout_inputintr}
use framework_kmod.Callout.{
  sec2tick, BrightMode, CalloutSys, put_display, put_level, put_lock, next_seconds, round,
}
use framework_kmod.Callout.Wanted.{CanRun, wanted, timeout, in_use}
use framework_kmod.Callout.Rounds.{InLoop, idle, next_level}
use framework_kmod.Callout.Timed.{to_sleep, woken}
use framework_kmod.Callout.Timed.Steady.{IsSteady, before_set, scheduled, round_steady}

module _ {E : Type 0} (m : PowerType) (limit : ℕ) where
  -- The mutexes are free, input is accepted, and the timeout of the source of power `m` is `limit`.
  pub record Wired (s : CalloutSys E) : Type 0 where
    pub can_run : CanRun s
    pub unlocked : s.callout.lock ≡ free
    pub handler : s.callout.keyhandler ≡ init (some power_config)
    pub evdev_free : s.evdev.lock ≡ free
    pub evdev_on : s.evdev.active ≡ true
    pub wired : s.evdev.cbfunc ≡ some callout_inputintr
    pub accepts : s.drop ≡ false
    pub limited : timeout (in_use m s.display.screen) ≡ limit

  -- The same with another level, another time of the last input, and other displays with the same
  -- timeout.
  pub relevel-Wired : (l : BrightMode) (s : CalloutSys E) → Wired s → Wired (put_level l s)
  relevel-Wired l s w = record {
    can_run = record {
      rw_free = w.can_run.rw_free;
      has_config = w.can_run.has_config;
      display_ready = w.can_run.display_ready;
    };
    unlocked = w.unlocked;
    handler = w.handler;
    evdev_free = w.evdev_free;
    evdev_on = w.evdev_on;
    wired = w.wired;
    accepts = w.accepts;
    limited = w.limited;
  }

  pub display-Wired :
      (d : Display E) (s : CalloutSys E)
      → Wired s
      → IsReady d
      → timeout (in_use m d.screen) ≡ limit
      → Wired (put_display d s)
  display-Wired d s w r t = record {
    can_run = record {
      rw_free = w.can_run.rw_free;
      has_config = w.can_run.has_config;
      display_ready = r;
    };
    unlocked = w.unlocked;
    handler = w.handler;
    evdev_free = w.evdev_free;
    evdev_on = w.evdev_on;
    wired = w.wired;
    accepts = w.accepts;
    limited = t;
  }

module _ {E : Type 0} (k : Kernel E) {hz : ℕ} {pass : E → E} {m : PowerType}
    (st : IsSteady k hz pass m) where
  pub queried-IsReady : (d : Display E) → IsReady d → IsReady (after_query k d)
  queried-IsReady d r = record {
    power_free =
        after_free k (mode_now k d) (power_of d) (λ z. st.known (sym (st.source d.env) ∙ z));
    screen_ready = r.screen_ready;
  }

  pub backlight-IsReady :
      (t : BacklightSys E) (d : Display E) → IsReady d → IsReady (put_backlight t d)
  backlight-IsReady t d r = record { power_free = r.power_free; screen_ready = r.screen_ready }

module _ {E : Type 0} (k : Kernel E) (i : InputApi E) {hz : ℕ} {pass : E → E} {m : PowerType}
    (st : IsSteady k hz pass m) where
  pub locked-InLoop : (limit : ℕ) (s : CalloutSys E) → Wired m limit s → InLoop (put_lock held s)
  locked-InLoop limit s w = record {
    can_run = record {
      rw_free = w.can_run.rw_free;
      has_config = w.can_run.has_config;
      display_ready = w.can_run.display_ready;
    };
    locked = refl;
    evdev_free = w.evdev_free;
  }

  -- What a round leaves once the thread sleeps again.
  abbrev pub asleep : ℕ → CalloutSys E → BacklightSys E → CalloutSys E
  asleep limit s t =
      put_lock free
        (scheduled k st (sec2tick k (next_seconds (idle k s) limit)) (before_set k st limit s) t)

  woken_run :
      (s u : CalloutSys E) (wait : ℕ)
      → s.callout.lock ≡ free
      → s.callout.active ≡ true
      → round k (put_lock held s) ≡ ok (some wait) u
      → u.callout.lock ≡ held
      → woken k i s ≡ ok (some wait) (put_lock free u)
  unfolding woken
  woken_run s u wait f a e h =
      let rest =
        λ (b : Bool). branch b (round k >>= to_sleep k i) (to_sleep k i none) (put_lock held s) in
      let locked : woken k i s ≡ rest s.callout.active = simp f refl in
      let asleep : to_sleep k i (some wait) u ≡ ok (some wait) (put_lock free u) = simp h refl in
      locked ∙ ap rest a ∙ ap (λ o. and_then o (to_sleep k i)) e ∙ asleep

  pub woken_lem :
      (s : CalloutSys E) (limit : ℕ)
      → Wired m limit s
      → s.callout.active ≡ true
      → 0 < limit
      → let b = wanted (next_level k limit s) (in_use m s.display.screen) in
        (r : ℕ) × (t : BacklightSys E) × (setbrightness k b
            (backlight_of (before_set k st limit s).display)
          ≡ ok r t)
        × (woken k i s ≡ ok (some (sec2tick k (next_seconds (idle k s) limit))) (asleep limit s t))
  unfolding woken
  woken_lem s limit w a h =
      let (r, t, set, run) =
        round_steady k st (put_lock held s) limit (locked-InLoop limit s w) w.limited h in
      (r, t, set, woken_run s _ _ w.unlocked a run refl)

  pub asleep-Wired :
      (s : CalloutSys E) (limit : ℕ) (t : BacklightSys E)
      → Wired m limit s
      → Wired m limit (asleep limit s t)
  asleep-Wired s limit t w = record {
    can_run = record {
      rw_free = w.can_run.rw_free;
      has_config = w.can_run.has_config;
      display_ready =
          backlight-IsReady k st t _
            (queried-IsReady k st _ (queried-IsReady k st s.display w.can_run.display_ready));
    };
    unlocked = refl;
    handler = w.handler;
    evdev_free = w.evdev_free;
    evdev_on = w.evdev_on;
    wired = w.wired;
    accepts = w.accepts;
    limited = w.limited;
  }
