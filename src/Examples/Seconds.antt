-- ===== src/Examples/Seconds.antt =====
-- The callout system second by second on a machine that stays on its battery.
use framework_kmod.Base.{
  List, Returns, [], arith, free, if◌then◌else◌, leb, none, null, refl, some, true, ◌+◌, ◌-◌, ◌∷◌,
  ◌≡◌,
}
use framework_kmod.Kernel.{Kernel}
use framework_kmod.Power.{bat}
use framework_kmod.Backlight.Panel.{Shows}
use framework_kmod.Display.{backlight_of}
use framework_kmod.Callout.{dim, high}
use framework_kmod.Callout.Timed.{Event, input, run_thread, second}
use framework_kmod.Callout.Timed.Steady.{IsSteady, now}
use framework_kmod.Callout.Timed.Wired.{Wired}
use framework_kmod.Callout.Timed.Begin.{IsNew, at_end, last_at_end}
use framework_kmod.Callout.Timed.Level.{run_thread-proper}
use framework_kmod.Callout.Timed.Steady.{KeepsTime}
use framework_kmod.Callout.Timed.Shown.{Works}
use framework_kmod.Callout.Setup.{CalloutHandle}
use framework_kmod.Callout.Timed.New.{IsSetUp, run_init, run_init-Shows}
use framework_kmod.Bench.{
  Lit, Bench, bench, display, display-IsReady, running, running-CanRun, screen,
}
use framework_kmod.Examples.Whole.{input as devices}

-- ACPI reports a battery that discharges, always.
abbrev pub steady : Kernel Bench
steady = record bench { get_battinfo = λ old e. record { error = 0; value = 1; env = e } }

abbrev pub later : Bench → Bench
later e = record e { uptime = e.uptime + 1 }

pub steady-IsSteady : IsSteady steady 100 later bat
steady-IsSteady = record {
  acpi = omega arith;
  known = λ e. cc;
  source = λ e. refl;
  passes = λ e. refl;
  at_query = λ e. refl;
  at_read = λ dev p e. refl;
  at_write = λ dev b e. refl;
}

-- The conversion stops at the largest int.
steady-KeepsTime : KeepsTime steady 100
steady-KeepsTime = record { ticks = λ n h. ground arith }

pub steady-Works : Works steady later Lit
steady-Works = record {
  panel = record { written = λ dev b e h. refl; reported = λ dev p e h. refl };
  reads = λ dev p e. refl;
  writes = λ dev b e. refl;
  still = λ dev b e h. h;
}

pub running-IsNew : IsNew steady bat 10 (running free [])
running-IsNew = record {
  can_run = running-CanRun free [];
  unlocked = refl;
  active = refl;
  handler = refl;
  evdev_free = refl;
  evdev_on = refl;
  limited = refl;
  lit = refl;
  past = omega arith;
  recent = omega arith;
}

abbrev with_key : List Event
with_key = input (some 225) ∷ second ∷ second ∷ []

abbrev without_key : List Event
without_key = input none ∷ second ∷ second ∷ []

run_thread-proper_example :
    Returns
      (λ _ c.
        (c.sys.callout.current_level
          ≡ (if leb 10 (at_end with_key 60 - last_at_end with_key 60 45) then dim else high))
        × (now steady c.sys ≡ at_end with_key 60)
        × (c.sys.evdev.last_input ≡ last_at_end with_key 60 45)
        × (c.sys.callout.active ≡ true)
        × Wired bat 10 c.sys)
      (run_thread steady devices 100 later with_key (running free []))
run_thread-proper_example =
    run_thread-proper steady devices steady-IsSteady steady-KeepsTime 10 with_key (running free [])
      (omega arith) (omega arith, omega arith) running-IsNew

abbrev pub unstarted : CalloutHandle Bench
unstarted = record {
  callout = null;
  drop = true;
  evdev = (running free []).evdev;
  display = display [];
}

pub unstarted-IsSetUp : IsSetUp steady bat 10 unstarted
unstarted-IsSetUp = record {
  display_ready = display-IsReady [];
  evdev_free = refl;
  evdev_on = refl;
  limited = refl;
  past = omega arith;
  recent = omega arith;
}

run_init-Shows_example :
    Returns
      (λ _ c.
        Shows steady Lit 9
          (if leb 10 (at_end without_key 60 - last_at_end without_key 60 45) then 3 else 40)
          (backlight_of c.sys.display))
      (run_init steady devices 100 later without_key unstarted)
run_init-Shows_example =
    run_init-Shows steady devices steady-IsSteady 9 (screen.settings.battery) without_key unstarted
      steady-Works steady-KeepsTime (λ e. refl) refl (omega arith) (omega arith) (omega arith)
      unstarted-IsSetUp refl (refl, (tt, (tt, tt)))
