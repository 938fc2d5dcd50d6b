-- ===== src/Sysctl.antt =====
-- kmod/framework_sysctl.c: the handlers behind `hw.framework`. The functions are
-- `framework_sysctl_…`; `sysctl_handle_32` belongs to the kernel, and a request is given as what that
-- call does with it: from the value that it is handed, an error and the value that it leaves.
-- Creating the tree of nodes stands in a module of its own.
pub mod Tree
pub mod Limits
pub mod Dimming
use framework_kmod.Base.{
  Action, List, Mutex, Option, Slot, branch, codes, deref, gets, if◌then◌else◌, ltb, modify,
  mtx_lock, mtx_unlock, not, pure, u8, unless_null, ℕ, ◌&&◌, ◌==◌, ◌>>◌, ◌>>=◌,
}
use framework_kmod.Kernel.{Kernel}
use framework_kmod.Screen.{Screen, ScreenPtr, Getter, Setter, Funcs, config_parent}
use framework_kmod.Screen as Screen
use framework_kmod.Display.{Display, on_power, on_backlight}
use framework_kmod.Power.{PowerType, bat, pwr, ivl, getpowermode}
use framework_kmod.Backlight as Backlight
use framework_kmod.State.{DimState}
use framework_kmod.State as State

-- `sysctl_handle_32(oidp, &value, 0, req)`
abbrev pub Request : Type 0
Request = ℕ → ℕ × ℕ

-- A variable of `FRAMEWORK_SYSCTL_SCREENCONF_HANDLER`, with its `max_value`.
pub data Variable : Type 0 where
  brightness_low brightness_high timeout_secs : Variable

abbrev pub max_value : Variable → ℕ
max_value brightness_low = 100
max_value brightness_high = 100
max_value timeout_secs = 0

abbrev getter_of : Variable → Funcs → Option Getter
getter_of brightness_low f = f.get_brightness_low
getter_of brightness_high f = f.get_brightness_high
getter_of timeout_secs f = f.get_timeout_secs

abbrev setter_of : Variable → Funcs → Option Setter
setter_of brightness_low f = f.set_brightness_low
setter_of brightness_high f = f.set_brightness_high
setter_of timeout_secs f = f.set_timeout_secs

-- The call through the table.
assign : Variable → Option ScreenPtr → ℕ → Action Screen (Unit {0})
assign v screen_config value = do
  setter ← (λ s. deref (setter_of v s.config.funcs) s)
  Screen.set setter screen_config value

-- `framework_sysctl_screen_config_…`; `arg1` is the configuration.
unfoldable pub screen_config : Variable → Option ScreenPtr → Request → Action Screen ℕ
unfolding assign
screen_config v arg1 req = do
  config ← config_parent arg1
  deref config
  getter ← (λ s. deref (getter_of v s.config.funcs) s)
  orig_value ← Screen.get getter arg1
  let error = (req orig_value).0
  let value = (req orig_value).1
  branch (value == orig_value) (pure error) (
      branch (not (max_value v == 0) && ltb (max_value v) value) (pure error)
        (assign v arg1 value >> pure error))

-- `framework_sysctl_dimblock`
unfoldable pub dimblock : Request → Action (Slot DimState) ℕ
dimblock req = do
  counter ← State.getdimcount
  let error = (req counter).0
  let value = (req counter).1
  branch (value == counter) (pure error)
      (branch (ltb 0 value) (State.incdimcount >> pure error) (State.decdimcount >> pure error))

-- `struct framework_sysctl_t`, as far as `debug` goes.
pub record Sysctl : Type 0 where
  pub lock : Mutex
  pub debug : ℕ  -- uint8_t

abbrev lock : Action Sysctl (Unit {0})
lock = mtx_lock (λ s. s.lock) (λ m s. record s { lock = m })

abbrev unlock : Action Sysctl (Unit {0})
unlock = mtx_unlock (λ s. s.lock) (λ m s. record s { lock = m })

-- `framework_sysctl_debuglevel`; the slot is what `sysctl_cache` points to.
unfoldable pub debuglevel : Action (Slot Sysctl) ℕ
debuglevel = unless_null 2 (do lock; result ← gets (λ s. s.debug); unlock; pure result)

-- `framework_sysctl_debug`
unfoldable pub debug : Request → Action Sysctl ℕ
debug req = do
  lock
  value ← gets (λ s. s.debug)
  unlock
  let error = (req value).0
  let value' = if ltb 255 (req value).1 then 255 else (req value).1
  now ← gets (λ s. s.debug)
  branch (value' == now) (pure error)
      (do lock; modify (λ s. record s { debug = u8 value' }); unlock; pure error)

module _ {E : Type 0} (k : Kernel E) where
  -- `framework_sysctl_screen_brightness`
  unfoldable pub screen_brightness : Request → Action (Display E) ℕ
  screen_brightness req = do value ← on_backlight (Backlight.getbrightness k); pure (req value).0

  abbrev pub source_name : PowerType → List ℕ
  source_name bat = codes "BAT"
  source_name pwr = codes "PWR"
  source_name ivl = codes "INVALID"

  -- `framework_sysctl_power_source`; `sysctl_handle_string` is given as `Request` is.
  unfoldable pub power_source : (List ℕ → ℕ) → Action (Display E) ℕ
  power_source req = do pwr_type ← on_power (getpowermode k); pure (req (source_name pwr_type))
