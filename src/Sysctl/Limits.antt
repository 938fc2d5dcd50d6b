-- ===== src/Sysctl/Limits.antt =====
-- What a write to a brightness or timeout variable does, and what holds of the levels after any
-- history of writes and keys.
use framework_kmod.Base.{
  Action, Bool, Bool-cases, IsInt32, List, Returns, [], arith, if◌then◌else◌, inl, inr, leb, ok,
  pure, some, true, ℕ, ℤ, ◌>>◌, ◌∷◌, ◌≡◌,
}
use framework_kmod.Screen.{
  Screen, ScreenPtr, screen_power, screen_battery, at, field, put_field, store_at, Getter, Setter,
  getbrightness_low, getbrightness_high, gettimeout_secs, setbrightness_low, setbrightness_high,
  settimeout_secs, changebrightness, config_parent, init,
}
use framework_kmod.Screen as Screen
use framework_kmod.Screen.Levels.{changebrightness-level}
use framework_kmod.Screen.Bounds.{
  IsReady, store-IsReady, high_capped_at, level-IsReady, Allowed, init-IsReady,
}
use framework_kmod.Sysctl.{
  Request, Variable, brightness_low, brightness_high, timeout_secs, screen_config,
}

abbrev pub read_of : Variable → Getter
read_of brightness_low = getbrightness_low
read_of brightness_high = getbrightness_high
read_of timeout_secs = gettimeout_secs

abbrev pub write_of : Variable → Setter
write_of brightness_low = setbrightness_low
write_of brightness_high = setbrightness_high
write_of timeout_secs = settimeout_secs

-- The values that a variable may take.
abbrev pub is_allowed : Variable → ℕ → Bool
is_allowed brightness_low v = leb v 100
is_allowed brightness_high v = leb v 100
is_allowed timeout_secs v = true

abbrev pub value_at : Variable → ScreenPtr → Screen → ℕ
value_at v p s = field (read_of v) (at p s.settings)

-- When the levels are ready, the handler returns the error of the request. It stores the value that
-- the request left, if it is at most 100 or if the variable is the timeout; else it changes nothing.
-- It touches no other variable, and leaves the mutex free.
pub screen_config-store :
    (v : Variable) (p : ScreenPtr) (req : Request) (s : Screen)
    → IsReady s
    → screen_config v (some p) req s
      ≡ ok (req (value_at v p s)).0 (
          if is_allowed v (req (value_at v p s)).1
          then store_at p (put_field (write_of v) (req (value_at v p s)).1) s
          else s)
unfolding screen_config Screen.get Screen.set config_parent
screen_config-store brightness_low screen_power req s r = ground arith
screen_config-store brightness_low screen_battery req s r = ground arith
screen_config-store brightness_high screen_power req s r = ground arith
screen_config-store brightness_high screen_battery req s r = ground arith
screen_config-store timeout_secs screen_power req s r = ground arith
screen_config-store timeout_secs screen_battery req s r = ground arith

pub stored-IsReady :
    (v : Variable) (p : ScreenPtr) (n : ℕ) (s : Screen)
    → IsReady s
    → IsReady (if is_allowed v n then store_at p (put_field (write_of v) n) s else s)
stored-IsReady v p n s r = elim (Bool-cases (is_allowed v n)) [
  | inl yes_allowed ↦ rw yes_allowed (store-IsReady (write_of v) p n s (allowed v n yes_allowed) r)
  | inr refused ↦ rw refused r
]
  where
    allowed : (v : Variable) (n : ℕ) → is_allowed v n ≡ true → Allowed (write_of v) n
    allowed brightness_low n h = ground arith
    allowed brightness_high n h = ground arith
    allowed timeout_secs n h = tt

-- What may happen to the levels: a write through a sysctl, or a step by a key.
pub data Event : Type 0 where
  write : Variable → ScreenPtr → Request → Event
  step : ScreenPtr → (i : ℤ) → IsInt32 i → Event

handle : Event → Action Screen (Unit {0})
handle (write v p req) = screen_config v (some p) req >> pure tt
handle (step p i h) = changebrightness (some p) i >> pure tt

unfoldable pub handle_all : List Event → Action Screen (Unit {0})
unfolding handle
handle_all [] = pure tt
handle_all (e ∷ es) = handle e >> handle_all es

handle-IsReady :
    (e : Event) (s : Screen) → IsReady s → (t : Screen) × (handle e s ≡ ok tt t) × IsReady t
unfolding handle
handle-IsReady (write v p req) s r =
    (_, rw (screen_config-store v p req s r), stored-IsReady v p (req (value_at v p s)).1 s r)
handle-IsReady (step p i h) s r = (
  _,
  rw (changebrightness-level p i s r.unlocked h (high_capped_at p s r)),
  level-IsReady p i s r,
)

handle_all-IsReady :
    (es : List Event) (s : Screen) → IsReady s → Returns (λ _ t. IsReady t) (handle_all es s)
unfolding handle_all
handle_all-IsReady [] s r = r
handle_all-IsReady (e ∷ es) s r =
    let (t, run, ready) = handle-IsReady e s r in rw run (handle_all-IsReady es t ready)

-- From `framework_screen_init` on, whatever the structures held before, and after any history of
-- writes through the sysctls and of steps by any `int`, no call has faulted, the mutex is free, the
-- pointers and the table are as they were set up, and all levels are at most 100.
pub history-IsReady :
    (es : List Event) (s : Screen) → Returns (λ _ t. IsReady t) ((init >> handle_all es) s)
history-IsReady es s =
    let (t, run, ready) = init-IsReady s in rw run (handle_all-IsReady es t ready)
