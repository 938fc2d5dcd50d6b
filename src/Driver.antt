-- ===== src/Driver.antt =====
-- kmod/framework.c: loading and unloading the module. All structures of the driver are side by side in
-- one state; a call of a part is an action on its own. The callout structure and the two
-- configurations are named by their pointers, so that `framework_data.power_config` is the screen
-- configuration of `display`.
pub mod Loaded
pub mod Loading
pub mod Unloading
pub mod Cycle
use framework_kmod.Base.{
  Action, Bool, List, Slot, [], branch, false, gets, if◌then◌else◌, modify, negsuc, none, null, pos,
  pure, some, true, unset, zoom, ℕ, ℤ, ◌-◌, ◌==◌, ◌>>◌, ◌^◌, ◌||◌, ◌>>=◌,
}
use framework_kmod.Kernel.{Kernel, InputApi, eopnotsupp}
use framework_kmod.State.{DimState}
use framework_kmod.State as State
use framework_kmod.Screen.{Screen, power_config}
use framework_kmod.Screen as Screen
use framework_kmod.Power as Power
use framework_kmod.Backlight as Backlight
use framework_kmod.Display.{Display, on_power, on_screen, on_backlight}
use framework_kmod.Keyhandler.{KeyHandler}
use framework_kmod.Keyhandler as Keyhandler
use framework_kmod.Sysctl.{Sysctl}
use framework_kmod.Sysctl.Tree.{SysctlData, Entry}
use framework_kmod.Sysctl.Tree as Tree
use framework_kmod.Evdev.{Evdev}
use framework_kmod.Evdev.Bindings.{EvdevSys}
use framework_kmod.Evdev.Bindings as Bindings
use framework_kmod.Evthread.{Others}
use framework_kmod.Callout.{Callout, CalloutSys}
use framework_kmod.Callout.Setup.{CalloutHandle}
use framework_kmod.Callout.Setup as Setup

-- `framework_data` with `sysctl_cache`, and the structures of the other parts.
pub record Driver (E : Type 0) : Type 0 where
  pub sysctl : SysctlData
  pub callout : Slot Callout
  pub state : Slot DimState
  pub keyhandler : Slot KeyHandler
  pub status : ℕ
  pub display : Display E
  pub evdev : Evdev
  pub drop : Bool

module _ {E A : Type 0} where
  abbrev pub on_state : Action (Slot DimState) A → Action (Driver E) A
  on_state = zoom (λ d. d.state) (λ s d. record d { state = s })

  abbrev pub on_keyhandler : Action (Slot KeyHandler) A → Action (Driver E) A
  on_keyhandler = zoom (λ d. d.keyhandler) (λ s d. record d { keyhandler = s })

  abbrev pub on_sysctl : Action SysctlData A → Action (Driver E) A
  on_sysctl = zoom (λ d. d.sysctl) (λ s d. record d { sysctl = s })

  abbrev pub on_display : Action (Display E) A → Action (Driver E) A
  on_display = zoom (λ d. d.display) (λ s d. record d { display = s })

  abbrev pub on_evdev : Action (EvdevSys E) A → Action (Driver E) A
  on_evdev =
      zoom (λ d. record { evdev = d.evdev; env = d.display.env })
        (λ s d. record d { evdev = s.evdev; display = record (d.display) { env = s.env } })

  abbrev pub on_callout : Action (CalloutHandle E) A → Action (Driver E) A
  on_callout =
      zoom
        (λ d. record { callout = d.callout; drop = d.drop; evdev = d.evdev; display = d.display })
        (λ s d. record d {
          callout = s.callout;
          drop = s.drop;
          evdev = s.evdev;
          display = s.display;
        })

-- `bzero(&framework_data, …)`
abbrev pub cleared : {E : Type 0} → Driver E → Driver E
cleared d = record d {
  sysctl = record {
    framework_sysctl_ctx = [];
    power_config = none;
    state = false;
    sysctl = record { lock = unset; debug = 0 };
    sysctl_cache = d.sysctl.sysctl_cache;
  };
  callout = null;
  state = null;
  keyhandler = null;
  status = 0;
  display = record (d.display) {
    screen = record (d.display.screen) { config = Screen.zeroed.config };
  };
}

-- An `int` result, 0 or an error number, as a natural number; the screen functions return 0.
abbrev pub int_result : ℤ → ℕ
int_result (pos n) = n
int_result (negsuc n) = 2 ^ 32 - 1 - n

-- What stands outside the module: the kernel, `sysctl_ctx_free`, and what the threads do while
-- the module waits for them.
pub record Outside (E : Type 0) : Type 0 where
  pub kernel : Kernel E
  pub input : InputApi E
  pub sysctl_ctx_free : List Entry → ℕ × List Entry
  pub listener : Others E
  pub thread : Action (CalloutSys E) (Unit {0})

module _ {E : Type 0} (o : Outside E) where
  -- The cases of the `switch (undo)`, each of which falls through to the next.
  undo_screen : Action (Driver E) (Unit {0})
  undo_screen = on_display (on_screen Screen.destroy) >> pure tt

  undo_power : Action (Driver E) (Unit {0})
  unfolding undo_screen
  undo_power = on_display (on_power Power.destroy) >> undo_screen

  undo_keyhandler : Action (Driver E) (Unit {0})
  unfolding undo_power
  undo_keyhandler = on_keyhandler Keyhandler.destroy >> undo_power

  undo_backlight : Action (Driver E) (Unit {0})
  unfolding undo_keyhandler
  undo_backlight = on_display (on_backlight Backlight.destroy) >> undo_keyhandler

  undo_sysctl : Action (Driver E) (Unit {0})
  unfolding undo_backlight
  undo_sysctl = on_sysctl (Tree.destroy o.sysctl_ctx_free) >> undo_backlight

  undo_evdev : Action (Driver E) (Unit {0})
  unfolding undo_sysctl
  undo_evdev = on_evdev (Bindings.destroy o.input o.listener) >> undo_sysctl

  -- The default prints only. A value of 7 does not occur.
  undo_from : ℕ → Action (Driver E) (Unit {0})
  unfolding undo_evdev
  undo_from n =
      if n == 1
      then undo_screen
      else if n == 2
      then undo_power
      else if n == 3
      then undo_keyhandler
      else if n == 4
      then undo_backlight
      else if n == 5
      then undo_sysctl
      else if n == 6 || n == 7
      then undo_evdev
      else pure tt

  -- `framework_errorexit`
  errorexit : ℕ → ℕ → Action (Driver E) ℕ
  unfolding undo_from
  errorexit undo error = do
    undo_from undo
    on_state State.destroy
    modify (λ d. record d { status = 2 })
    pure error

  -- The steps of `framework_init`, the last one first; each goes on to the next, or to the error exit
  -- with the number of steps that are done.
  start_callout : Action (Driver E) ℕ
  start_callout = do
    keyhandler ← gets (λ d. d.keyhandler)
    on_callout (Setup.init o.kernel o.input (some power_config) keyhandler)
    modify (λ d. record d { status = 1 })
    pure 0

  start_evdev : Action (Driver E) ℕ
  unfolding errorexit start_callout
  start_evdev = do
    error ← on_evdev (Bindings.init o.kernel o.input)
    branch (error == 0) start_callout (errorexit 5 error)

  start_sysctl : Action (Driver E) ℕ
  unfolding errorexit start_evdev
  start_sysctl = do
    screen ← gets (λ d. d.display.screen)
    error ← on_sysctl (Tree.init (some power_config) true screen)
    branch (error == 0) start_evdev (errorexit 4 error)

  start_backlight : Action (Driver E) ℕ
  unfolding errorexit start_sysctl
  start_backlight = do
    error ← on_display (on_backlight (Backlight.init o.kernel))
    branch (error == 0) start_sysctl (errorexit 3 error)

  -- `framework_keyhandler_init` never returns null.
  start_keyhandler : Action (Driver E) ℕ
  unfolding start_backlight
  start_keyhandler = do
    modify (λ d. record d { keyhandler = Keyhandler.init (some power_config) })
    start_backlight

  start_power : Action (Driver E) ℕ
  unfolding errorexit start_keyhandler
  start_power = do
    error ← on_display (on_power (Power.init o.kernel))
    branch (error == 0) start_keyhandler (errorexit 1 error)

  unfoldable pub init : Action (Driver E) ℕ
  unfolding errorexit start_power
  init = do
    modify cleared
    modify (λ d. record d { state = State.init })
    error ← on_display (on_screen Screen.init)
    branch (int_result error == 0) start_power (errorexit 0 (int_result error))

  -- The calls of `framework_destroy` behind its test.
  teardown : Action (Driver E) ℕ
  teardown = do
    on_callout (Setup.destroy o.input o.thread)
    on_evdev (Bindings.destroy o.input o.listener)
    on_sysctl (Tree.destroy o.sysctl_ctx_free)
    on_display (on_backlight Backlight.destroy)
    on_keyhandler Keyhandler.destroy
    on_display (on_power Power.destroy)
    on_display (on_screen Screen.destroy)
    on_state State.destroy
    pure 0

  unfoldable pub destroy : Action (Driver E) ℕ
  unfolding teardown
  destroy = do status ← gets (λ d. d.status); branch (status == 1) teardown (pure 0)

-- `MOD_LOAD`, `MOD_UNLOAD`, or another event.
pub data ModEvent : Type 0 where
  mod_load mod_unload mod_other : ModEvent

unfoldable pub modevent : {E : Type 0} → Outside E → ModEvent → Action (Driver E) ℕ
unfolding init destroy
modevent o mod_load = init o
modevent o mod_unload = destroy o
modevent o mod_other = pure eopnotsupp
