-- ===== src/Examples/Tuning.antt =====
-- The sysctls written while the callout system runs.
use framework_kmod.Base.{List, Returns, [], arith, free, false, none, refl, some, ℕ, ◌≡◌, ◌≤◌, ◌∷◌}
use framework_kmod.Power.{bat}
use framework_kmod.Screen.{Screen, screen_battery}
use framework_kmod.Backlight.Panel.{Shows}
use framework_kmod.Display.{IsReady, backlight_of}
use framework_kmod.Evdev.{callout_inputintr}
use framework_kmod.Callout.Timed.{Clocked, input, second}
use framework_kmod.Callout.Timed.Tuned.{Change, changes, changes_from_init, happens, write}
use framework_kmod.Callout.Timed.Tuned.Up.{IsQuiet, IsUp}
use framework_kmod.Callout.Timed.Tuned.Capped.{changes-capped}
use framework_kmod.Callout.Timed.Tuned.Over.{relit, seconds}
use framework_kmod.Callout.Timed.Tuned.Spent.{no_timeout-ends}
use framework_kmod.Sysctl.{brightness_high, timeout_secs}
use framework_kmod.Bench.{Lit, Bench, running, screen}
use framework_kmod.Examples.Whole.{input as devices}
use framework_kmod.Examples.Seconds.{
  later, steady, steady-IsSteady, steady-Works, unstarted, unstarted-IsSetUp,
}

steady-IsQuiet : IsQuiet steady devices Lit
steady-IsQuiet = record {
  at_query = λ dev b e h. h;
  at_wakeup = λ dev b e h. h;
  at_start = λ dev b e h. h;
}

-- A level of 200 is refused, one of 70 is taken, and a key adds 10 to it.
abbrev brighter : List Change
brighter =
    write brightness_high screen_battery (λ old. (0, 200))
    ∷ happens second
    ∷ write brightness_high screen_battery (λ old. (0, 70))
    ∷ happens (input (some 225))
    ∷ []

changes-capped_example :
    Returns
      (λ _ c.
        (c.sys.callout.lock ≡ free)
        × (c.sys.callout.rwlock ≡ free)
        × (c.sys.evdev.lock ≡ free)
        × IsReady c.sys.display
        × (b : ℕ) × (b ≤ 100)
        × Shows steady Lit 9 b (backlight_of c.sys.display))
      (changes_from_init steady devices 100 later brighter unstarted)
changes-capped_example =
    changes-capped steady devices steady-IsSteady steady-Works steady-IsQuiet 9 10 brighter
      unstarted (λ e. refl) unstarted-IsSetUp refl

-- The thread sleeps, and the timeout of the battery was set to 0 meanwhile.
abbrev untimed : Screen
untimed = record screen {
  settings = record (screen.settings) {
    battery = record (screen.settings.battery) { timeout_secs = 0 };
  };
}

abbrev dozing : Clocked Bench
dozing = record {
  sys = record (running free []) {
    evdev = record ((running free []).evdev) { cbfunc = some callout_inputintr };
    display = record ((running free []).display) { screen = untimed };
  };
  left = some 250;
}

dozing-IsUp : IsUp steady bat Lit 9 dozing
dozing-IsUp = record {
  limit = 0;
  wired = record {
    can_run = record {
      rw_free = refl;
      has_config = refl;
      display_ready = record { power_free = refl; screen_ready = ground arith };
    };
    unlocked = refl;
    handler = refl;
    evdev_free = refl;
    evdev_on = refl;
    wired = refl;
    accepts = refl;
    limited = refl;
  };
  goes = tt;
  brightness = 40;
  shows = (refl, refl);
  capped = omega arith;
}

-- The timeout is set back to 10 after three seconds, to no effect.
abbrev restored : List Change
restored = write timeout_secs screen_battery (λ old. (0, 10)) ∷ happens second ∷ []

no_timeout-ends_example :
    Returns
      (λ _ d.
        (d.left ≡ none)
        × (d.sys.callout.active ≡ false)
        × (d.sys.callout.current_level ≡ relit restored dozing.sys.callout.current_level))
      (changes steady devices 100 later (seconds 3 restored) dozing)
no_timeout-ends_example =
    no_timeout-ends steady devices steady-IsSteady steady-Works steady-IsQuiet 9 3 250 restored
      dozing dozing-IsUp refl refl (omega arith) (omega arith)
