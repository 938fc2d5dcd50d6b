-- ===== src/Base/Words.antt =====
-- Machine integers: `uint8_t` and `uint32_t` as numbers with the wrap written out, and `int`.
use Prim.Native.Nat.{ℕ, suc, ◌-◌, ◌%◌, ◌<◌}
use mathlib.Core.Bool.{Bool, true, false}

-- `negsuc n` is -(n + 1).
pub data ℤ : Type 0 where
  pos : ℕ → ℤ
  negsuc : ℕ → ℤ

abbrev pub u8 : ℕ → ℕ
u8 n = n % 256

abbrev pub u16 : ℕ → ℕ
u16 n = n % 65536

abbrev pub u32 : ℕ → ℕ
u32 n = n % 4294967296

-- `(uint32_t) i`, for an `int`.
abbrev pub to_u32 : ℤ → ℕ
to_u32 (pos n) = n % 4294967296
to_u32 (negsuc n) = 4294967295 - n % 4294967296

-- `-i`.
abbrev pub neg : ℤ → ℤ
neg (pos n) = elim n [ ℕ.zero ↦ pos 0 | ℕ.suc k ↦ negsuc k ]
neg (negsuc n) = pos (suc n)

abbrev pub is_neg : ℤ → Bool
is_neg (pos n) = false
is_neg (negsuc n) = true

-- The values of an `int`.
abbrev pub IsInt32 : ℤ → Type 0
IsInt32 (pos n) = n < 2147483648
IsInt32 (negsuc n) = n < 2147483648

abbrev pub minus_one : ℤ
minus_one = negsuc 0
