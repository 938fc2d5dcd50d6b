-- ===== src/Callout.antt =====
-- kmod/framework_callout.c: the thread that dims the panel, and the interrupt on input. The functions
-- are `framework_callout_…`. The read-write lock is a `Mutex` here: the code takes it only for one
-- access, and never again while it holds it.
pub mod Wanted
pub mod Input
pub mod Wakeup
pub mod Rounds
pub mod Setup
pub mod Stopping
pub mod Timed
use framework_kmod.Base.{
  Action, Bool, Mutex, Option, Slot, branch, deref, false, gets, if_zero, if◌then◌else◌, leb, ltb,
  modify, mtx_lock, mtx_unlock, none, null, pure, some, suc, true, u32, zero, zoom, ℕ, ◌+◌, ◌-◌,
  ◌==◌, ◌>>◌, ◌>>=◌,
}
use framework_kmod.Kernel.{Kernel, InputApi}
use framework_kmod.Power.{PowerType, bat, pwr, ivl, getpowermode}
use framework_kmod.Screen.{ScreenPtr, ConfigPtr, Getter, Funcs}
use framework_kmod.Screen as Screen
use framework_kmod.Backlight as Backlight
use framework_kmod.Display.{Display, on_power, on_screen, on_backlight}
use framework_kmod.Utils.{getscreenconfig}
use framework_kmod.Keyhandler.{KeyHandler, handlekey}
use framework_kmod.Evdev.{Evdev, callout_inputintr, getlastinput, setintrfunc}

-- `enum framework_callout_brightmode_t`
pub data BrightMode : Type 0 where
  dim high : BrightMode

-- `struct framework_callout_t`
pub record Callout : Type 0 where
  pub power_config : Option ConfigPtr
  pub current_level : BrightMode
  pub expect_next_callout : ℕ  -- int, as its bit pattern
  pub active : Bool
  pub lock : Mutex
  pub rwlock : Mutex
  pub keyhandler : Slot KeyHandler

-- What the functions read and write: `*co`, `framework_callout_drop`, and the parts below.
pub record CalloutSys (E : Type 0) : Type 0 where
  pub callout : Callout
  pub drop : Bool
  pub evdev : Evdev
  pub display : Display E

abbrev getter_for : BrightMode → Funcs → Option Getter
getter_for dim f = f.get_brightness_low
getter_for high f = f.get_brightness_high

-- The seconds since the last input, which is not taken to lie in the future.
abbrev pub elapsed : ℕ → ℕ → ℕ
elapsed uptime last_input = u32 (uptime - (if ltb uptime last_input then uptime else last_input))

abbrev pub next_seconds : ℕ → ℕ → ℕ
next_seconds elapsed_time current_timeout =
    if ltb elapsed_time current_timeout then current_timeout - elapsed_time else current_timeout

module _ {E : Type 0} where
  abbrev pub put_callout : Callout → CalloutSys E → CalloutSys E
  put_callout c s = record s { callout = c }

  abbrev pub put_display : Display E → CalloutSys E → CalloutSys E
  put_display d s = record s { display = d }

  module _ {A : Type 0} where
    abbrev pub on_display : Action (Display E) A → Action (CalloutSys E) A
    on_display = zoom (λ s. s.display) put_display

    abbrev pub on_evdev : Action Evdev A → Action (CalloutSys E) A
    on_evdev = zoom (λ s. s.evdev) (λ e s. record s { evdev = e })

  abbrev pub put_lock : Mutex → CalloutSys E → CalloutSys E
  put_lock m s = put_callout (record (s.callout) { lock = m }) s

  abbrev pub put_rwlock : Mutex → CalloutSys E → CalloutSys E
  put_rwlock m s = put_callout (record (s.callout) { rwlock = m }) s

  abbrev lock : Action (CalloutSys E) (Unit {0})
  lock = mtx_lock (λ s. s.callout.lock) put_lock

  abbrev unlock : Action (CalloutSys E) (Unit {0})
  unlock = mtx_unlock (λ s. s.callout.lock) put_lock

  abbrev rw_lock : Action (CalloutSys E) (Unit {0})
  rw_lock = mtx_lock (λ s. s.callout.rwlock) put_rwlock

  abbrev rw_unlock : Action (CalloutSys E) (Unit {0})
  rw_unlock = mtx_unlock (λ s. s.callout.rwlock) put_rwlock

  abbrev pub put_level : BrightMode → CalloutSys E → CalloutSys E
  put_level m s = put_callout (record (s.callout) { current_level = m }) s

  pub set_level : BrightMode → Action (CalloutSys E) (Unit {0})
  set_level m = do rw_lock; modify (put_level m); rw_unlock

  -- `if (elapsed_time >= current_timeout)`
  pub dim_if : Bool → Action (CalloutSys E) (Unit {0})
  dim_if over = branch over (set_level dim) (pure tt)

  -- The `switch` on the level, with the call through the table.
  level_brightness : Option ScreenPtr → Action (CalloutSys E) ℕ
  level_brightness screen_config = do
    rw_lock
    getter ← (λ s. deref (getter_for s.callout.current_level s.display.screen.config.funcs) s)
    brightness ← on_display (on_screen (Screen.get getter screen_config))
    rw_unlock
    pure brightness

module _ {E : Type 0} (k : Kernel E) where
  unfoldable pub getbrightnessfor : Action (CalloutSys E) ℕ
  unfolding level_brightness
  getbrightnessfor = do
    power_config ← gets (λ s. s.callout.power_config)
    (error, screen_config) ← on_display (getscreenconfig k power_config none)
    if_zero error (level_brightness screen_config) (pure 100)

  -- After the `switch`.
  timeout_of : Option ScreenPtr → Action (CalloutSys E) ℕ
  timeout_of screen_config = do
    getter ← gets (λ s. s.display.screen.config.funcs.get_timeout_secs)
    elim getter [ none ↦ pure 0 | some g ↦ on_display (on_screen (Screen.get g screen_config)) ]

  timeout_for : PowerType → Action (CalloutSys E) ℕ
  unfolding timeout_of
  timeout_for bat = do
    power_config ← gets (λ s. s.callout.power_config)
    deref power_config
    screen_config ← gets (λ s. s.display.screen.config.battery)
    timeout_of screen_config
  timeout_for pwr = do
    power_config ← gets (λ s. s.callout.power_config)
    deref power_config
    screen_config ← gets (λ s. s.display.screen.config.power)
    timeout_of screen_config
  timeout_for ivl = pure 0

  unfoldable pub getcurrenttimeout : Action (CalloutSys E) ℕ
  unfolding timeout_for
  getcurrenttimeout = do state ← on_display (on_power (getpowermode k)); timeout_for state

  -- `if (keycode && co->keyhandler)`
  forward : Option ℕ → Slot KeyHandler → Action (CalloutSys E) (Unit {0})
  forward none kh = pure tt
  forward (some keycode) null = pure tt
  forward (some keycode) kh = on_display (handlekey k kh keycode) >> pure tt

  pub accept : Option ℕ → Action (CalloutSys E) (Unit {0})
  accept keycode = do
    set_level high
    brightness ← getbrightnessfor
    kh ← gets (λ s. s.callout.keyhandler)
    forward keycode kh
    on_display (on_backlight (Backlight.setbrightness k brightness))
    pure tt

  unfoldable pub inputintr : Option ℕ → Action (CalloutSys E) (Unit {0})
  unfolding accept set_level forward
  inputintr keycode = do drop ← gets (λ s. s.drop); branch drop (pure tt) (accept keycode)

  -- The int of `tvtohz` becomes a `uint32_t`.
  abbrev pub sec2tick : ℕ → ℕ
  sec2tick seconds = u32 (k.tvtohz seconds)

  -- The end of a round: the next wait.
  unfoldable pub schedule : ℕ → ℕ → Action (CalloutSys E) (Option ℕ)
  schedule elapsed_time current_timeout = do
    lock
    next_wait ← gets (λ s. sec2tick (next_seconds elapsed_time current_timeout))
    modify (λ s.
        put_callout
          (record (s.callout) { expect_next_callout = u32 (k.tick s.display.env + next_wait) }) s)
    pure (some next_wait)

  unfoldable pub watch : ℕ → Action (CalloutSys E) (Option ℕ)
  watch current_timeout = do
    unlock
    last_input ← on_evdev getlastinput
    lock
    elapsed_time ← gets (λ s. elapsed (k.time_uptime s.display.env) last_input)
    dim_if (leb current_timeout elapsed_time)
    unlock
    brightness ← getbrightnessfor
    on_display (on_backlight (Backlight.setbrightness k brightness))
    schedule elapsed_time current_timeout

  unfoldable pub give_up : Action (CalloutSys E) (Option ℕ)
  give_up = do modify (λ s. put_callout (record (s.callout) { active = false }) s); pure none

  -- The body of the `while` of `framework_callout_thread`, up to its `msleep`, whose duration is the
  -- result; `none` is the `break`.
  unfoldable pub round : Action (CalloutSys E) (Option ℕ)
  unfolding watch give_up set_level dim_if schedule
  round = do
    unlock
    current_timeout ← getcurrenttimeout
    lock
    branch (current_timeout == 0) give_up (watch current_timeout)

  -- What happens while the thread sleeps, with the mutex free: others run.
  abbrev pub Sleep : Type 0
  Sleep = ℕ → Action (CalloutSys E) (Unit {0})

  -- The `while`; true if it ends within the fuel.
  rounds : ℕ → Sleep → Action (CalloutSys E) Bool
  rounds ℕ.zero msleep = pure false
  rounds (suc fuel) msleep = do
    active ← gets (λ s. s.callout.active)
    branch active
        (do
          next_wait ← round
          elim next_wait [
            | none ↦ pure true
            | some w ↦ do unlock; msleep w; lock; rounds fuel msleep
          ])
        (pure true)

module _ {E : Type 0} (i : InputApi E) where
  -- After the `while`.
  unfoldable pub finish : Action (CalloutSys E) (Unit {0})
  finish = do
    unlock
    modify (λ s. put_display (record (s.display) { env = i.wakeup s.display.env }) s)

module _ {E : Type 0} (k : Kernel E) (i : InputApi E) where
  unfoldable pub thread : ℕ → Sleep k → Action (CalloutSys E) Bool
  unfolding rounds finish
  thread fuel msleep = do
    on_evdev (setintrfunc (some callout_inputintr))
    modify (λ s. record s { drop = false })
    lock
    ended ← rounds k fuel msleep
    branch ended (finish i >> pure true) (pure false)
