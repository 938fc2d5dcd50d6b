-- ===== src/Bench.antt =====
-- A kernel to run the driver on, and states of the driver for the examples.
use framework_kmod.Base.{
  min, ◌+◌, ◌≡◌, List, Mutex, [], arith, codes, false, free, none, refl, some, true, ℕ, ◌*◌, ◌∷◌,
}
use framework_kmod.Kernel.{Kernel, Cdev}
use framework_kmod.Power.{Power, bat, PowerSys}
use framework_kmod.Power.Modes.{IsAcpi}
use framework_kmod.Screen.{
  Screen, ScreenConfig, screen_power, screen_battery, power_config, all_funcs,
}
use framework_kmod.Screen.Bounds as Bounds
use framework_kmod.Backlight.{Backlight, BacklightSys}
use framework_kmod.Display.{Display, IsReady}
use framework_kmod.Callout.{CalloutSys, high}
use framework_kmod.Callout.Wanted.{CanRun}
use framework_kmod.Keyhandler.{init}

-- The battery states to come (the last one stays), the level that the panel shows, and the time.
pub record Bench : Type 0 where
  pub reports : List ℕ
  pub panel : ℕ
  pub uptime : ℕ

abbrev now : List ℕ → ℕ
now [] = 0
now (r ∷ rs) = r

abbrev later : List ℕ → List ℕ
later [] = []
later (r ∷ []) = r ∷ []
later (r ∷ q ∷ rs) = q ∷ rs

abbrev pub devices : List Cdev
devices =
    record { si_name = codes "acpi"; si_drv1 = some 7 }
    ∷ record { si_name = codes "input/event0"; si_drv1 = some 20 }
    ∷ record { si_name = codes "input/event1"; si_drv1 = some 21 }
    ∷ record { si_name = codes "backlight/backlight0"; si_drv1 = some 9 }
    ∷ []

abbrev pub bench : Kernel Bench
bench = record {
  stat_discharg = 1;
  stat_charging = 2;
  stat_critical = 4;
  get_battinfo = λ old e. record {
    error = 0;
    value = now e.reports;
    env = record e { reports = later e.reports };
  };
  batt_get_info = λ dev e. record { error = 0; value = codes "Framework"; env = e };
  cdevp_list = λ e. devices;
  devclass_find = λ name e. some 3;
  devclass_get_device = λ dc unit e. some 4;
  backlight_get_status = λ dev old e. record { error = 0; value = e.panel; env = e };
  backlight_update_status =
      λ dev b e. record { error = 0; value = tt; env = record e { panel = b } };
  time_uptime = λ e. e.uptime;
  tick = λ e. 100 * e.uptime;
  tvtohz = λ s. min 2147483647 (100 * s + 1);
}

-- The same, with a panel that cannot be read.
abbrev pub blind : Kernel Bench
blind = record bench {
  backlight_get_status = λ dev old e. record { error = 5; value = old; env = e };
}

pub bench-IsAcpi : IsAcpi bench
bench-IsAcpi = omega arith

-- The panel shows this level.
abbrev pub Lit : ℕ → ℕ → Bench → Type 0
Lit dev b e = e.panel ≡ b

abbrev settings : ℕ → ℕ → ScreenConfig
settings l h = record {
  brightness_low = l;
  brightness_high = h;
  timeout_secs = 10;
  increment_level = 10;
  parent = some power_config;
}

abbrev pub screen : Screen
screen = record {
  config = record {
    power = some screen_power;
    battery = some screen_battery;
    lock = free;
    funcs = all_funcs;
  };
  settings = record { power = settings 30 100; battery = settings 3 40 };
}

pub screen-IsReady : Bounds.IsReady screen
screen-IsReady = ground arith

abbrev pub power : Power
power = record {
  power_state = bat;
  sc = some 7;
  batt_dev = some 4;
  model = codes "Framewo";
  battinfo = 1;
  lock = free;
  last_update = 0;
}

abbrev pub env : List ℕ → Bench
env reports = record { reports = reports; panel = 40; uptime = 60 }

abbrev pub power_sys : List ℕ → PowerSys Bench
power_sys reports = record { power = power; env = env reports }

abbrev pub backlight : Backlight
backlight = record { sc = some 9; brightness = 40; cached_brightness = 40 }

abbrev pub backlight_sys : BacklightSys Bench
backlight_sys = record { backlight = backlight; env = env [] }

abbrev pub display : List ℕ → Display Bench
display reports = record {
  power = power;
  screen = screen;
  backlight = backlight;
  env = env reports;
}

pub display-IsReady : (reports : List ℕ) → IsReady (display reports)
display-IsReady reports = record { power_free = refl; screen_ready = screen-IsReady }

-- The last input was 15 seconds ago.
abbrev pub running : Mutex → List ℕ → CalloutSys Bench
running l reports = record {
  callout = record {
    power_config = some power_config;
    current_level = high;
    expect_next_callout = 0;
    active = true;
    lock = l;
    rwlock = free;
    keyhandler = init (some power_config);
  };
  drop = false;
  evdev = record {
    bindings = [];
    last_input = 45;
    cbfunc = none;
    active = true;
    lock = free;
    state = 1;
  };
  display = display reports;
}

pub running-CanRun : (l : Mutex) (reports : List ℕ) → CanRun (running l reports)
running-CanRun l reports = record {
  rw_free = refl;
  has_config = refl;
  display_ready = display-IsReady reports;
}
