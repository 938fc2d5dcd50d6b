-- ===== src/Screen/Bounds.antt =====
-- What holds of the two structures from `framework_screen_init` on.
use framework_kmod.Base.{ℕ, ◌≤◌, ◌≡◌, refl, some, ℤ, pos, negsuc, ok, free, arith}
use framework_kmod.Screen.{
  Screen, ScreenPtr, screen_power, screen_battery, power_config, ScreenConfig, at, store_at, field,
  put_field, all_funcs, Getter, Setter, setbrightness_low, setbrightness_high, settimeout_secs, get,
  set, init,
}
use framework_kmod.Screen.Levels.{level, with_high}

-- Levels on the scale from 0 to 100, and the way back to the parent.
pub record IsScaled (c : ScreenConfig) : Type 0 where
  pub low_capped : c.brightness_low ≤ 100
  pub high_capped : c.brightness_high ≤ 100
  pub step_small : c.increment_level ≤ 255
  pub back : c.parent ≡ some power_config

pub record IsReady (s : Screen) : Type 0 where
  pub unlocked : s.config.lock ≡ free
  pub on_power : s.config.power ≡ some screen_power
  pub on_battery : s.config.battery ≡ some screen_battery
  pub table : s.config.funcs ≡ all_funcs
  pub power_scaled : IsScaled s.settings.power
  pub battery_scaled : IsScaled s.settings.battery

-- Whatever stood in the structures before, `framework_screen_init` returns 0 and makes them ready.
pub init-IsReady : (s : Screen) → (t : Screen) × (init s ≡ ok (pos 0) t) × IsReady t
unfolding init
init-IsReady s = (_, refl, ground arith)

-- A read through the table: the field, with nothing changed.
pub get_lem :
    (g : Getter) (p : ScreenPtr) (s : Screen)
    → s.config.lock ≡ free
    → get g (some p) s ≡ ok (field g (at p s.settings)) s
unfolding get
get_lem g p s f = ground arith

pub set_lem :
    (g : Setter) (p : ScreenPtr) (v : ℕ) (s : Screen)
    → s.config.lock ≡ free
    → set g (some p) v s ≡ ok tt (store_at p (put_field g v) s)
unfolding set
set_lem g screen_power v s f = ground arith
set_lem g screen_battery v s f = ground arith

abbrev pub Allowed : Setter → ℕ → Type 0
Allowed settimeout_secs v = Unit {0}
Allowed _ v = v ≤ 100

pub store-IsReady :
    (g : Setter) (p : ScreenPtr) (v : ℕ) (s : Screen)
    → Allowed g v
    → IsReady s
    → IsReady (store_at p (put_field g v) s)
store-IsReady setbrightness_low screen_power v s a r = ground arith
store-IsReady setbrightness_low screen_battery v s a r = ground arith
store-IsReady setbrightness_high screen_power v s a r = ground arith
store-IsReady setbrightness_high screen_battery v s a r = ground arith
store-IsReady settimeout_secs screen_power v s a r = ground arith
store-IsReady settimeout_secs screen_battery v s a r = ground arith

pub high_capped_at :
    (p : ScreenPtr) (s : Screen) → IsReady s → (at p s.settings).brightness_high ≤ 100
high_capped_at screen_power s r = r.power_scaled.high_capped
high_capped_at screen_battery s r = r.battery_scaled.high_capped

-- The level that a step leaves keeps the structures ready.
pub level-IsReady :
    (p : ScreenPtr) (i : ℤ) (s : Screen)
    → IsReady s
    → IsReady (with_high p (level (at p s.settings).brightness_high i) s)
level-IsReady screen_power (pos k) s r = ground arith
level-IsReady screen_battery (pos k) s r = ground arith
level-IsReady screen_power (negsuc k) s r = ground arith
level-IsReady screen_battery (negsuc k) s r = ground arith
