-- ===== src/Utils/Lookup.antt =====
-- Which of the two configurations `framework_util_getscreenconfig` finds.
use framework_kmod.Base.{Option, minus_one, none, ok, pos, refl, some, ℤ, ◌≡◌}
use framework_kmod.Kernel.{Kernel}
use framework_kmod.Power.{PowerType, bat, pwr, ivl}
use framework_kmod.Power.Modes.{IsAcpi, mode_of, reported, after, getpowermode-mode_of}
use framework_kmod.Screen.{ScreenPtr, screen_power, screen_battery, power_config}
use framework_kmod.Display.{Display, IsReady, power_of, put_power}
use framework_kmod.Utils.{chosen, getscreenconfig}

-- The configuration of a mode.
abbrev pub config_of : PowerType → Option ScreenPtr
config_of bat = some screen_battery
config_of pwr = some screen_power
config_of ivl = none

abbrev pub verdict : PowerType → ℤ
verdict ivl = minus_one
verdict m = pos 0

module _ {E : Type 0} (k : Kernel E) where
  -- The mode that ACPI reports now, and what the query leaves.
  abbrev pub mode_now : Display E → PowerType
  mode_now d = mode_of k (reported k (power_of d))

  abbrev pub after_query : Display E → Display E
  after_query d = put_power (after k (mode_now d) (power_of d)) d

  chosen_lem :
      (m : PowerType) (d : Display E)
      → d.screen.config.power ≡ some screen_power
      → d.screen.config.battery ≡ some screen_battery
      → chosen none m d ≡ ok (verdict m, config_of m) d
  unfolding chosen
  chosen_lem bat d p b = rw b
  chosen_lem pwr d p b = rw p
  chosen_lem ivl d p b = refl

  -- Called when the driver is ready, with a NULL `*screen_config`, as everywhere in the driver: on
  -- battery it returns 0 and finds the battery's configuration, on mains power that of mains power. If
  -- ACPI's answer says neither it returns -1 and finds none. It changes nothing but what the query
  -- changes.
  pub getscreenconfig-config_of :
      (d : Display E)
      → IsReady d
      → IsAcpi k
      → getscreenconfig k (some power_config) none d
        ≡ ok (verdict (mode_now d), config_of (mode_now d)) (after_query d)
  unfolding getscreenconfig
  getscreenconfig-config_of d r a =
      rw (getpowermode-mode_of k (power_of d) r.power_free a)
        (chosen_lem (mode_now d) _ r.screen_ready.on_power r.screen_ready.on_battery)
