-- ===== src/Screen.antt =====
-- kmod/framework_screen.c and framework_screen.h: the two sets of brightness levels, and the table
-- of functions through which the other parts use them.
-- A pointer to one of the two sets is an `Option ScreenPtr`, the address of a function that the table
-- may hold is a constructor, and the only `framework_screen_power_config_t` is the one in
-- `framework_data`.
pub mod Levels
pub mod Bounds
use framework_kmod.Base.{
  ℕ, ◌+◌, Option, none, some, u32, ℤ, pos, to_u32, neg, is_neg, minus_one, Action, pure, gets,
  modify, deref, ◌>>◌, Mutex, unset, mtx_init, mtx_lock, mtx_unlock, mtx_destroy, if◌then◌else◌,
  ◌==◌, ltb, ◌>>=◌,
}

-- `&framework_screen_data.power`, `&framework_screen_data.battery`
pub data ScreenPtr : Type 0 where
  screen_power screen_battery : ScreenPtr

-- `&framework_data.power_config`
pub data ConfigPtr : Type 0 where
  power_config : ConfigPtr

-- `struct framework_screen_config_t`
pub record ScreenConfig : Type 0 where
  pub brightness_low : ℕ  -- uint32_t
  pub brightness_high : ℕ  -- uint32_t
  pub timeout_secs : ℕ  -- uint32_t
  pub increment_level : ℕ  -- uint8_t
  pub parent : Option ConfigPtr

-- `struct framework_screen_data_t`
pub record ScreenData : Type 0 where
  pub power : ScreenConfig
  pub battery : ScreenConfig

pub data Getter : Type 0 where
  getbrightness_low getbrightness_high gettimeout_secs getincrement_level : Getter

pub data Setter : Type 0 where
  setbrightness_low setbrightness_high settimeout_secs : Setter

pub data Changer : Type 0 where
  config_changebrightness : Changer

-- `struct framework_screen_power_config_funcs_t`
pub record Funcs : Type 0 where
  pub get_brightness_low : Option Getter
  pub get_brightness_high : Option Getter
  pub get_timeout_secs : Option Getter
  pub get_increment_level : Option Getter
  pub set_brightness_low : Option Setter
  pub set_brightness_high : Option Setter
  pub set_timeout_secs : Option Setter
  pub change_rel_brightness : Option Changer

-- `struct framework_screen_power_config_t`
pub record PowerConfig : Type 0 where
  pub power : Option ScreenPtr
  pub battery : Option ScreenPtr
  pub lock : Mutex
  pub funcs : Funcs

-- `framework_data.power_config` and `framework_screen_data`
pub record Screen : Type 0 where
  pub config : PowerConfig
  pub settings : ScreenData

abbrev pub put_lock : Mutex → Screen → Screen
put_lock m s = record s { config = record (s.config) { lock = m } }

abbrev lock : Action Screen (Unit {0})
lock = mtx_lock (λ s. s.config.lock) put_lock

abbrev unlock : Action Screen (Unit {0})
unlock = mtx_unlock (λ s. s.config.lock) put_lock

abbrev pub at : ScreenPtr → ScreenData → ScreenConfig
at screen_power d = d.power
at screen_battery d = d.battery

abbrev pub put_at : ScreenPtr → ScreenConfig → ScreenData → ScreenData
put_at screen_power c d = record d { power = c }
put_at screen_battery c d = record d { battery = c }

abbrev pub field : Getter → ScreenConfig → ℕ
field getbrightness_low c = c.brightness_low
field getbrightness_high c = c.brightness_high
field gettimeout_secs c = c.timeout_secs
field getincrement_level c = c.increment_level

abbrev pub put_field : Setter → ℕ → ScreenConfig → ScreenConfig
put_field setbrightness_low v c = record c { brightness_low = v }
put_field setbrightness_high v c = record c { brightness_high = v }
put_field settimeout_secs v c = record c { timeout_secs = v }

abbrev pub store_at : ScreenPtr → (ScreenConfig → ScreenConfig) → Screen → Screen
store_at p f s = record s { settings = put_at p (f (at p s.settings)) s.settings }

-- `FRAMEWORK_SCREEN_GETTER`
unfoldable pub get : Getter → Option ScreenPtr → Action Screen ℕ
get g screen_config = do
  lock
  p ← deref screen_config
  result ← gets (λ s. field g (at p s.settings))
  unlock
  pure result

-- `FRAMEWORK_SCREEN_SETTER`
unfoldable pub set : Setter → Option ScreenPtr → ℕ → Action Screen (Unit {0})
set f screen_config new_value = do
  lock
  p ← deref screen_config
  modify (store_at p (put_field f new_value))
  unlock

-- `framework_screen_config_parent`
unfoldable pub config_parent : Option ScreenPtr → Action Screen (Option ConfigPtr)
config_parent screen_config = do p ← deref screen_config; gets (λ s. (at p s.settings).parent)

-- One `FRAMEWORK_SCREEN_LOCK(config); screen_config->brightness_high = …; …UNLOCK(config);`
store_high : ScreenPtr → (ℕ → ℕ) → Action Screen (Unit {0})
store_high p f = do
  lock
  modify (store_at p (λ c. record c { brightness_high = f c.brightness_high }))
  unlock

-- The branch `relative < 0`.
reduce : ScreenPtr → ℤ → ℕ → Action Screen ℤ
unfolding store_high
reduce p relative brightness =
    if brightness == 0
    then pure minus_one
    else if ltb brightness (to_u32 (neg relative))
    then (store_high p (λ h. 0) >> pure minus_one)
    else (store_high p (λ h. u32 (h + to_u32 relative)) >> pure (pos 0))

-- The other branch.
increase : ScreenPtr → ℤ → ℕ → Action Screen ℤ
unfolding store_high
increase p relative brightness =
    if brightness == 100
    then pure minus_one
    else if ltb 100 (u32 (brightness + to_u32 relative))
    then (store_high p (λ h. 100) >> pure minus_one)
    else (store_high p (λ h. u32 (h + to_u32 relative)) >> pure (pos 0))

-- `framework_screen_config_changebrightness`
unfoldable pub changebrightness : Option ScreenPtr → ℤ → Action Screen ℤ
unfolding reduce increase
changebrightness screen_config relative = do
  lock
  p ← deref screen_config
  brightness ← gets (λ s. (at p s.settings).brightness_high)
  unlock
  if is_neg relative then reduce p relative brightness else increase p relative brightness

-- The table after `framework_screen_init`.
abbrev pub all_funcs : Funcs
all_funcs = record {
  get_brightness_low = some getbrightness_low;
  get_brightness_high = some getbrightness_high;
  get_timeout_secs = some gettimeout_secs;
  get_increment_level = some getincrement_level;
  set_brightness_low = some setbrightness_low;
  set_brightness_high = some setbrightness_high;
  set_timeout_secs = some settimeout_secs;
  change_rel_brightness = some config_changebrightness;
}

abbrev set_defaults : ℕ → ℕ → ScreenConfig → ScreenConfig
set_defaults low high c = record c {
  timeout_secs = 10;
  brightness_low = low;
  brightness_high = high;
  increment_level = 10;
}

-- `framework_screen_init`
unfoldable pub init : Action Screen ℤ
init = do
  modify (store_at screen_power (set_defaults 30 100))
  modify (store_at screen_battery (set_defaults 3 40))
  modify (λ s. record s { config = record (s.config) { funcs = all_funcs } })
  mtx_init (λ s. s.config.lock) put_lock
  lock
  modify (λ s. record s {
    config = record (s.config) { power = some screen_power; battery = some screen_battery };
  })
  modify (store_at screen_power (λ c. record c { parent = some power_config }))
  modify (store_at screen_battery (λ c. record c { parent = some power_config }))
  unlock
  pure (pos 0)

-- `framework_screen_destroy`
unfoldable pub destroy : Action Screen ℤ
destroy = mtx_destroy (λ s. s.config.lock) put_lock >> pure (pos 0)

abbrev no_funcs : Funcs
no_funcs = record {
  get_brightness_low = none;
  get_brightness_high = none;
  get_timeout_secs = none;
  get_increment_level = none;
  set_brightness_low = none;
  set_brightness_high = none;
  set_timeout_secs = none;
  change_rel_brightness = none;
}

abbrev zeroed_config : ScreenConfig
zeroed_config = record {
  brightness_low = 0;
  brightness_high = 0;
  timeout_secs = 0;
  increment_level = 0;
  parent = none;
}

-- The two structures as the loader and `bzero` leave them.
abbrev pub zeroed : Screen
zeroed = record {
  config = record { power = none; battery = none; lock = unset; funcs = no_funcs };
  settings = record { power = zeroed_config; battery = zeroed_config };
}
