-- ===== src/Screen/Levels.antt =====
-- `framework_screen_config_changebrightness` against the sum of the level and the step over the
-- integers.
use framework_kmod.Base.{
  ℕ, suc, ◌+◌, ◌-◌, ◌≤◌, ◌≡◌, Bool, ◌&&◌, not, some, ℤ, pos, negsuc, IsInt32, ◌>>◌, minus_one, ok,
  free, arith, ◌==◌, leb, if◌then◌else◌,
}
use framework_kmod.Screen.{
  Screen, ScreenPtr, screen_power, screen_battery, at, store_at, changebrightness,
}

-- `h + i`, cut off at 0 and at 100.
abbrev pub level : ℕ → ℤ → ℕ
level h (pos k) = if leb (h + k) 100 then h + k else 100
level h (negsuc k) = h - suc k

-- Whether `h + i` lies between 0 and 100, and the level is not at the stop in the direction of `i`.
abbrev pub is_reached : ℕ → ℤ → Bool
is_reached h (pos k) = leb (h + k) 100 && not (h == 100)
is_reached h (negsuc k) = leb (suc k) h

abbrev pub with_high : ScreenPtr → ℕ → Screen → Screen
with_high p v = store_at p (λ c. record c { brightness_high = v })

-- For a level up to 100 and any `int` step, the call sets `brightness_high` to the sum, cut off at 0
-- and at 100. It changes nothing else, leaves the mutex free, and returns 0 just where the sum was in
-- range and the level not already at the stop.
pub changebrightness-level :
    (p : ScreenPtr) (i : ℤ) (s : Screen)
    → s.config.lock ≡ free
    → IsInt32 i
    → (at p s.settings).brightness_high ≤ 100
    → changebrightness (some p) i s
      ≡ ok
          (if is_reached (at p s.settings).brightness_high i then pos 0 else minus_one)
          (with_high p (level (at p s.settings).brightness_high i) s)
unfolding changebrightness
changebrightness-level screen_power (pos k) s f r b = ground arith
changebrightness-level screen_power (negsuc k) s f r b = ground arith
changebrightness-level screen_battery (pos k) s f r b = ground arith
changebrightness-level screen_battery (negsuc k) s f r b = ground arith

-- A step up that stays in range and the same step down leave everything as it was, and the second
-- call returns 0.
up_down :
    (p : ScreenPtr) (k : ℕ) (s : Screen)
    → s.config.lock ≡ free
    → (at p s.settings).brightness_high + suc k ≤ 100
    → (changebrightness (some p) (pos (suc k)) >> changebrightness (some p) (negsuc k)) s
      ≡ ok (pos 0) s
unfolding changebrightness
up_down screen_power k s f b = ground arith
up_down screen_battery k s f b = ground arith
