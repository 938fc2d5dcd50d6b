-- ===== src/Callout/Wanted.antt =====
-- The brightness that the callout system wants, `framework_callout_getbrightnessfor`, and its timeout.
use framework_kmod.Base.{Option, arith, free, if_zero, none, ◌≤◌, ok, pure, refl, some, ℕ, ◌≡◌}
use framework_kmod.Kernel.{Kernel}
use framework_kmod.Power.{PowerType, bat, pwr, ivl}
use framework_kmod.Power.Modes.{IsAcpi, getpowermode-mode_of}
use framework_kmod.Screen.{Screen, ScreenConfig, power_config}
use framework_kmod.Screen as Screen
use framework_kmod.Screen.Bounds as Bounds
use framework_kmod.Display.{IsReady, power_of}
use framework_kmod.Utils.Lookup.{
  mode_now, after_query, config_of, verdict, getscreenconfig-config_of,
}
use framework_kmod.Callout.{
  BrightMode, dim, high, CalloutSys, set_level, put_level, put_display, level_brightness,
  getbrightnessfor, timeout_for, getcurrenttimeout,
}

-- The configuration that a mode puts in use.
abbrev pub in_use : PowerType → Screen → Option ScreenConfig
in_use bat s = some s.settings.battery
in_use pwr s = some s.settings.power
in_use ivl s = none

abbrev pub level_of : BrightMode → ScreenConfig → ℕ
level_of dim c = c.brightness_low
level_of high c = c.brightness_high

-- Full brightness where the source of power is not known.
abbrev pub wanted : BrightMode → Option ScreenConfig → ℕ
wanted m none = 100
wanted m (some c) = level_of m c

pub wanted_capped :
    (m : PowerType) (l : BrightMode) (s : Screen) → Bounds.IsReady s → wanted l (in_use m s) ≤ 100
wanted_capped bat dim s r = r.battery_scaled.low_capped
wanted_capped bat high s r = r.battery_scaled.high_capped
wanted_capped pwr dim s r = r.power_scaled.low_capped
wanted_capped pwr high s r = r.power_scaled.high_capped
wanted_capped ivl l s r = omega arith

-- No timeout there.
abbrev pub timeout : Option ScreenConfig → ℕ
timeout none = 0
timeout (some c) = c.timeout_secs

module _ {E : Type 0} where
  pub set_level_lem :
      (m : BrightMode) (s : CalloutSys E)
      → s.callout.rwlock ≡ free
      → set_level m s ≡ ok tt (put_level m s)
  unfolding set_level
  set_level_lem m s f = ground arith

  -- The callout structure and the display, between two calls.
  pub record CanRun (s : CalloutSys E) : Type 0 where
    pub rw_free : s.callout.rwlock ≡ free
    pub has_config : s.callout.power_config ≡ some power_config
    pub display_ready : IsReady s.display

module _ {E : Type 0} (k : Kernel E) where
  abbrev pub queried : CalloutSys E → CalloutSys E
  queried s = put_display (after_query k s.display) s

  abbrev pub config_now : CalloutSys E → Option ScreenConfig
  config_now s = in_use (mode_now k s.display) s.display.screen

  level_lem :
      (m : PowerType) (s : CalloutSys E)
      → s.callout.rwlock ≡ free
      → Bounds.IsReady s.display.screen
      → if_zero (verdict m) (level_brightness (config_of m)) (pure 100) s
        ≡ ok (wanted s.callout.current_level (in_use m s.display.screen)) s
  unfolding level_brightness Screen.get
  level_lem bat s f r = ground arith
  level_lem pwr s f r = ground arith
  level_lem ivl s f r = refl

  timeout_lem :
      (m : PowerType) (s : CalloutSys E)
      → s.callout.power_config ≡ some power_config
      → Bounds.IsReady s.display.screen
      → timeout_for k m s ≡ ok (timeout (in_use m s.display.screen)) s
  unfolding timeout_for Screen.get
  timeout_lem bat s p r = ground arith
  timeout_lem pwr s p r = ground arith
  timeout_lem ivl s p r = refl

  -- One query of ACPI, and the level of the current mode in the configuration in use, or 100.
  pub getbrightnessfor-wanted :
      (s : CalloutSys E)
      → CanRun s
      → IsAcpi k
      → getbrightnessfor k s ≡ ok (wanted s.callout.current_level (config_now s)) (queried s)
  unfolding getbrightnessfor
  getbrightnessfor-wanted s c a =
      simp (c.has_config, getscreenconfig-config_of k s.display c.display_ready a)
        (level_lem (mode_now k s.display) (queried s) c.rw_free c.display_ready.screen_ready)

  pub getcurrenttimeout-timeout :
      (s : CalloutSys E)
      → CanRun s
      → IsAcpi k
      → getcurrenttimeout k s ≡ ok (timeout (config_now s)) (queried s)
  unfolding getcurrenttimeout
  getcurrenttimeout-timeout s c a =
      rw (getpowermode-mode_of k (power_of s.display) c.display_ready.power_free a)
        (timeout_lem (mode_now k s.display) (queried s) c.has_config c.display_ready.screen_ready)
