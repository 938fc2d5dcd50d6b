-- ===== src/Display.antt =====
-- The structures that decide what the panel shows: `framework_power`, the brightness levels,
-- `framework_backlight`, and the kernel. An action on one of them is an action on all.
use framework_kmod.Base.{Action, free, zoom, ◌≡◌}
use framework_kmod.Power.{Power, PowerSys}
use framework_kmod.Screen.{Screen}
use framework_kmod.Screen.Bounds as Bounds
use framework_kmod.Backlight.{Backlight, BacklightSys}

pub record Display (E : Type 0) : Type 0 where
  pub power : Power
  pub screen : Screen
  pub backlight : Backlight
  pub env : E

module _ {E : Type 0} where
  abbrev pub power_of : Display E → PowerSys E
  power_of d = record { power = d.power; env = d.env }

  abbrev pub put_power : PowerSys E → Display E → Display E
  put_power s d = record d { power = s.power; env = s.env }

  abbrev pub backlight_of : Display E → BacklightSys E
  backlight_of d = record { backlight = d.backlight; env = d.env }

  abbrev pub put_backlight : BacklightSys E → Display E → Display E
  put_backlight s d = record d { backlight = s.backlight; env = s.env }

  abbrev pub put_screen : Screen → Display E → Display E
  put_screen s d = record d { screen = s }

  module _ {A : Type 0} where
    abbrev pub on_power : Action (PowerSys E) A → Action (Display E) A
    on_power = zoom power_of put_power

    abbrev pub on_backlight : Action (BacklightSys E) A → Action (Display E) A
    on_backlight = zoom backlight_of put_backlight

    abbrev pub on_screen : Action Screen A → Action (Display E) A
    on_screen = zoom (λ d. d.screen) put_screen

  -- After `framework_screen_init` and `framework_pwr_init`, and between two calls.
  pub record IsReady (d : Display E) : Type 0 where
    pub power_free : d.power.lock ≡ free
    pub screen_ready : Bounds.IsReady d.screen
