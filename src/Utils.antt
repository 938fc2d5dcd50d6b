-- ===== src/Utils.antt =====
-- kmod/framework_utils.c: `framework_util_getscreenconfig`. The two searches of the device list are
-- in `Cdevs`; the printing macros are left out.
pub mod Lookup
use framework_kmod.Base.{
  Action, Option, deref, gets, minus_one, none, pos, pure, some, ℤ, ◌>>=◌, ◌>>◌,
}
use framework_kmod.Kernel.{Kernel}
use framework_kmod.Power.{PowerType, bat, pwr, ivl, getpowermode}
use framework_kmod.Screen.{ScreenPtr, ConfigPtr}
use framework_kmod.Display.{Display, on_power}

-- `if (NULL == *screen_config) return -1; return 0;`
abbrev checked : Option ScreenPtr → ℤ × Option ScreenPtr
checked none = (minus_one, none)
checked (some p) = (pos 0, some p)

module _ {E : Type 0} where
  -- The `switch`, on `*screen_config` as it was.
  chosen : Option ScreenPtr → PowerType → Action (Display E) (ℤ × Option ScreenPtr)
  chosen sc bat = gets (λ d. checked d.screen.config.battery)
  chosen sc pwr = gets (λ d. checked d.screen.config.power)
  chosen sc ivl = pure (minus_one, sc)

  -- The result, and what `*screen_config` holds after the call. A NULL `power_config` and NULL entries
  -- of its table are only reported; the table is then read through the pointer.
  unfoldable pub getscreenconfig :
      Kernel E → Option ConfigPtr → Option ScreenPtr → Action (Display E) (ℤ × Option ScreenPtr)
  unfolding chosen
  getscreenconfig k power_config sc = do
    deref power_config
    mode ← on_power (getpowermode k)
    chosen sc mode
