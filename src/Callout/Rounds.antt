-- ===== src/Callout/Rounds.antt =====
-- One round of the thread, `framework_callout_thread`, up to its `msleep`.
use framework_kmod.Base.{
  Action, Bool, Mutex, Option, arith, false, free, held, if◌then◌else◌, leb, none, ok, refl, true,
  ℕ, ◌+◌, ◌<◌, ◌==◌, ◌>>=◌, ◌≡◌, ◌≢◌, ◌≤◌, ◌⊎◌,
}
use framework_kmod.Kernel.{Kernel}
use framework_kmod.Power.{ivl}
use framework_kmod.Power.Modes.{IsAcpi, after_free}
use framework_kmod.Backlight.{setbrightness}
use framework_kmod.Display.{power_of, on_backlight}
use framework_kmod.Evdev.{getlastinput_lem}
use framework_kmod.Utils.Lookup.{mode_now}
use framework_kmod.Callout.{
  BrightMode, dim, CalloutSys, put_level, put_lock, put_callout, on_display, elapsed, next_seconds,
  dim_if, watch, give_up, round, schedule,
}
use framework_kmod.Callout.Wanted.{
  set_level_lem, wanted, timeout, config_now, queried, CanRun, getbrightnessfor-wanted,
  getcurrenttimeout-timeout,
}

nonzero : (n : ℕ) → 0 < n → (n == 0) ≡ false
nonzero n h = ground arith

-- The wait that ends a round: at least a second and at most the timeout; and unless the timeout is
-- over, just the time until it is.
pub next_seconds_bounds :
    (seconds limit : ℕ)
    → 0 < limit
    → (0 < next_seconds seconds limit)
      × (next_seconds seconds limit ≤ limit)
      × ((limit ≤ seconds) ⊎ (seconds + next_seconds seconds limit ≡ limit))
next_seconds_bounds seconds limit h = ground arith

module _ {E : Type 0} where
  -- In the loop: the thread holds its mutex.
  pub record InLoop (s : CalloutSys E) : Type 0 where
    pub can_run : CanRun s
    pub locked : s.callout.lock ≡ held
    pub evdev_free : s.evdev.lock ≡ free

  unlocked-CanRun : (l : Mutex) (s : CalloutSys E) → CanRun s → CanRun (put_lock l s)
  unlocked-CanRun l s c = record {
    rw_free = c.rw_free;
    has_config = c.has_config;
    display_ready = c.display_ready;
  }

  pub dim_if_lem :
      (b : Bool) (s : CalloutSys E)
      → s.callout.rwlock ≡ free
      → dim_if b s ≡ ok tt (put_level (if b then dim else s.callout.current_level) s)
  unfolding dim_if
  dim_if_lem true s f = set_level_lem dim s f
  dim_if_lem false s f = refl

  pub leveled-CanRun : (m : BrightMode) (s : CalloutSys E) → CanRun s → CanRun (put_level m s)
  leveled-CanRun m s c = record {
    rw_free = c.rw_free;
    has_config = c.has_config;
    display_ready = c.display_ready;
  }

module _ {E : Type 0} (k : Kernel E) where
  -- Where the timeout of the configuration in use is 0, or ACPI's answer leaves the configuration
  -- open, the round clears `active` and leaves the loop, and nothing is set on the panel.
  pub round_gives_up :
      (s : CalloutSys E)
      → InLoop s
      → IsAcpi k
      → timeout (config_now k s) ≡ 0
      → round k s ≡ ok none (put_callout (record (s.callout) { active = false }) (queried k s))
  unfolding round give_up
  round_gives_up s i a z = simp (
    i.locked,
    getcurrenttimeout-timeout k (put_lock free s) (unlocked-CanRun free s i.can_run) a,
    z,
  )

  -- The seconds since the last input, at the thread's reading of the clock.
  abbrev pub idle : CalloutSys E → ℕ
  idle s = elapsed (k.time_uptime s.display.env) s.evdev.last_input

  -- The level that the thread goes on with: DIM once the timeout is over, else the level as it was.
  abbrev pub next_level : ℕ → CalloutSys E → BrightMode
  next_level limit s = if leb limit (idle s) then dim else s.callout.current_level

  -- The panel is set, and then the next wait is scheduled.
  abbrev pub finished : ℕ → ℕ → ℕ → Action (CalloutSys E) (Option ℕ)
  finished b seconds limit =
      on_display (on_backlight (setbrightness k b)) >>= λ _. schedule k seconds limit

  watch_lem :
      (limit : ℕ) (s : CalloutSys E)
      → InLoop s
      → IsAcpi k
      → watch k limit s
        ≡ finished
            (wanted (next_level limit s) (config_now k s))
            (idle s)
            limit
            (put_lock free (queried k (put_level (next_level limit s) s)))
  unfolding watch
  watch_lem limit s i a = simp (
    i.locked,
    getlastinput_lem s.evdev i.evdev_free,
    dim_if_lem (leb limit (idle s)) (put_lock held s) i.can_run.rw_free,
    getbrightnessfor-wanted k (put_lock free (put_level (next_level limit s) s))
        (unlocked-CanRun free _ (leveled-CanRun (next_level limit s) s i.can_run)) a,
  )

  queried-InLoop :
      (s : CalloutSys E)
      → InLoop s
      → mode_now k s.display ≢ ivl
      → InLoop (put_lock held (queried k s))
  queried-InLoop s i m = record {
    can_run = record {
      rw_free = i.can_run.rw_free;
      has_config = i.can_run.has_config;
      display_ready = record {
        power_free = after_free k (mode_now k s.display) (power_of s.display) m;
        screen_ready = i.can_run.display_ready.screen_ready;
      };
    };
    locked = refl;
    evdev_free = i.evdev_free;
  }

  -- A round of a ready driver whose ACPI tells the source of power, with a timeout above 0: the level
  -- goes to DIM just where the time since the last input has reached the timeout, and is kept
  -- otherwise. The panel is set to the brightness of that level in the configuration that a second
  -- query of ACPI puts in use, and the wait is scheduled.
  pub round-finished :
      (s : CalloutSys E) (limit : ℕ)
      → InLoop s
      → IsAcpi k
      → mode_now k s.display ≢ ivl
      → timeout (config_now k s) ≡ limit
      → 0 < limit
      → let t = queried k s in
        round k s
        ≡ finished
            (wanted (next_level limit t) (config_now k t))
            (idle t)
            limit
            (put_lock free (queried k (put_level (next_level limit t) t)))
  unfolding round
  round-finished s limit i a m e h =
      simp
        (
          i.locked,
          getcurrenttimeout-timeout k (put_lock free s) (unlocked-CanRun free s i.can_run) a,
          e,
          nonzero limit h,
        )
        (watch_lem limit (put_lock held (queried k s)) (queried-InLoop s i m) a)
