-- ===== src/Keyhandler/Keys.antt =====
-- What a key does to the brightness levels.
use framework_kmod.Base.{
  Bool, IsInt32, Option, arith, false, held, if_zero, minus_one, neg, none, ok, pos, pure, refl,
  some, suc, true, ℕ, ℤ, ◌≡◌, ◌≢◌, ◌≤◌,
}
use framework_kmod.Kernel.{Kernel}
use framework_kmod.Screen.{
  Screen, ScreenPtr, screen_power, screen_battery, power_config, at, getincrement_level,
}
use framework_kmod.Screen.Levels.{level, with_high, changebrightness-level}
use framework_kmod.Screen.Bounds.{get_lem, high_capped_at, level-IsReady}
use framework_kmod.Screen.Bounds as Bounds
use framework_kmod.Display.{Display, IsReady, power_of, put_screen}
use framework_kmod.Utils.Lookup.{
  mode_now, after_query, config_of, verdict, getscreenconfig-config_of,
}
use framework_kmod.Power.{PowerType, bat, pwr, ivl}
use framework_kmod.Power.Modes.{IsAcpi, after_free, after_held}
use framework_kmod.Keyhandler.{
  KeyHandler, step, changebrightness, handlekey, init, HandlerFunc, brightness_up, brightness_down,
  call,
}

-- The step of a key, from the `increment_level`.
abbrev pub signed : Bool → ℕ → ℤ
signed true n = pos n
signed false n = neg (pos n)

-- `brightness_high` of one configuration after a step by its `increment_level`.
abbrev pub stepped : Bool → ScreenPtr → Screen → Screen
stepped up p s =
    with_high p
      (level (at p s.settings).brightness_high (signed up (at p s.settings).increment_level)) s

small : (p : ScreenPtr) (s : Screen) → Bounds.IsReady s → (at p s.settings).increment_level ≤ 255
small screen_power s r = r.power_scaled.step_small
small screen_battery s r = r.battery_scaled.step_small

signed-IsInt32 : (up : Bool) (n : ℕ) → n ≤ 255 → IsInt32 (signed up n)
signed-IsInt32 true n h = omega arith
signed-IsInt32 false ℕ.zero h = omega arith
signed-IsInt32 false (suc n) h = omega arith

-- One configuration after a key, if there is one.
abbrev pub config_screen : Bool → Option ScreenPtr → Screen → Screen
config_screen up none s = s
config_screen up (some p) s = stepped up p s

abbrev is_up : HandlerFunc → Bool
is_up brightness_up = true
is_up brightness_down = false

module _ {E : Type 0} (k : Kernel E) where
  step_lem :
      (p : ScreenPtr) (up : Bool) (d : Display E)
      → Bounds.IsReady d.screen
      → step k (some p) up d ≡ ok tt (put_screen (stepped up p d.screen) d)
  unfolding step
  step_lem p true d r = simp (
    r.table,
    get_lem getincrement_level p d.screen r.unlocked,
    changebrightness-level p (signed true (at p d.screen.settings).increment_level) d.screen
        r.unlocked
        (signed-IsInt32 true (at p d.screen.settings).increment_level (small p d.screen r))
        (high_capped_at p d.screen r),
  )
  step_lem p false d r = simp (
    r.table,
    get_lem getincrement_level p d.screen r.unlocked,
    changebrightness-level p (signed false (at p d.screen.settings).increment_level) d.screen
        r.unlocked
        (signed-IsInt32 false (at p d.screen.settings).increment_level (small p d.screen r))
        (high_capped_at p d.screen r),
  )

  -- What a key does: it steps the configuration that is in use, if ACPI tells which.
  abbrev pub pressed : Bool → Display E → Display E
  pressed up d = put_screen (config_screen up (config_of (mode_now k d)) d.screen) (after_query k d)

  abbrev ready : KeyHandler
  ready = record { flags = 1; power_config = some power_config }

  found_lem :
      (m : PowerType) (up : Bool) (d : Display E)
      → Bounds.IsReady d.screen
      → if_zero (verdict m) (step k (config_of m) up) (pure tt) d
        ≡ ok tt (put_screen (config_screen up (config_of m) d.screen) d)
  found_lem bat up d r = step_lem screen_battery up d r
  found_lem pwr up d r = step_lem screen_power up d r
  found_lem ivl up d r = refl

  changebrightness-pressed :
      (up : Bool) (d : Display E)
      → IsReady d
      → IsAcpi k
      → changebrightness k ready up d ≡ ok tt (pressed up d)
  unfolding changebrightness
  changebrightness-pressed up d r a =
      rw (getscreenconfig-config_of k d r a)
        (found_lem (mode_now k d) up (after_query k d) r.screen_ready)

  key_lem :
      (e : HandlerFunc) (d : Display E)
      → IsReady d
      → IsAcpi k
      → call k e ready d ≡ ok tt (pressed (is_up e) d)
  unfolding call
  key_lem brightness_up d r a = changebrightness-pressed true d r a
  key_lem brightness_down d r a = changebrightness-pressed false d r a

  -- When the driver is ready, key 225 steps `brightness_high` of the configuration in use up by its
  -- `increment_level`, cut off at 100, key 224 steps it down, cut off at 0, and both return 0, also
  -- where ACPI's answer leaves the configuration open and no level changes. Any other key returns -1,
  -- asks ACPI nothing and changes nothing.
  pub handlekey-pressed :
      (key : ℕ) (d : Display E)
      → IsReady d
      → IsAcpi k
      → let r = handlekey k (init (some power_config)) key d in
        (key ≡ 225 → r ≡ ok (pos 0) (pressed true d))
        × (key ≡ 224 → r ≡ ok (pos 0) (pressed false d))
        × (key ≢ 225 → key ≢ 224 → r ≡ ok minus_one d)
  unfolding handlekey init
  handlekey-pressed key d r a = (
    λ e. rw e (rw (key_lem brightness_up d r a)),
    λ e. rw e (rw (key_lem brightness_down d r a)),
    λ n m. ground arith,
  )

  at_config-IsReady :
      (m : PowerType) (up : Bool) (s : Screen)
      → Bounds.IsReady s
      → Bounds.IsReady (config_screen up (config_of m) s)
  at_config-IsReady bat up s r = level-IsReady screen_battery _ s r
  at_config-IsReady pwr up s r = level-IsReady screen_power _ s r
  at_config-IsReady ivl up s r = r

  -- A key keeps the driver ready, with both levels of both configurations at most 100, unless ACPI's
  -- answer leaves the configuration open; then the mutex of the power structure is left locked.
  pub pressed-IsReady :
      (up : Bool) (d : Display E)
      → IsReady d
      → ((mode_now k d ≢ ivl → IsReady (pressed up d))
          × (mode_now k d ≡ ivl → (pressed up d).power.lock ≡ held))
  pressed-IsReady up d r = (
    λ known. record {
      power_free = after_free k (mode_now k d) (power_of d) known;
      screen_ready = at_config-IsReady (mode_now k d) up d.screen r.screen_ready;
    },
    after_held k (mode_now k d) (power_of d),
  )
