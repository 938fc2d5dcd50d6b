-- ===== src/Sysctl/Dimming.antt =====
-- What a write to `hw.framework.screen.dimblock` does to the counter, against what the manual says.
use framework_kmod.Base.{
  Slot, arith, at_slot, free, if◌then◌else◌, live, min, ok, suc, u32, ℕ, ◌+◌, ◌-◌, ◌<◌, ◌==◌, ◌>>◌,
  ◌≢◌, ◌≡◌,
}
use framework_kmod.State.{DimState, getdimcount, incdimcount, decdimcount}
use framework_kmod.Sysctl.{Request, dimblock, debug, debuglevel}

abbrev at : ℕ → Slot DimState
at c = live (record { lock = free; flags = 1; block_dim_count = c })

-- The counter after the value `v` was left by a request.
abbrev pub counted : ℕ → ℕ → ℕ
counted v c = if v == c then c else if v == 0 then c - 1 else u32 (c + 1)

-- The handler returns the error of the request. A value that is the counter itself changes nothing;
-- any other value counts up by one, wrapping at 2 ^ 32, if it is positive, and down by one if it is
-- 0. The value itself is not stored.
dimblock-counted :
    (req : Request) (c : ℕ) → dimblock req (at c) ≡ ok (req c).0 (at (counted (req c).1 c))
unfolding dimblock getdimcount incdimcount decdimcount
dimblock-counted req c = ground arith

-- The manual promises that any value above 0 counts up. A value from 1 up to 2 ^ 32 - 1 does so at
-- every counter below 2 ^ 32 - 1 but one: at the counter that is the value itself the write is
-- lost.
pub dimblock_lost :
    (v : ℕ)
    → 0 < v
    → v < 4294967296
    → (dimblock (λ old. (0, v)) (at v) ≡ ok 0 (at v))
      × ((c : ℕ) → c ≢ v → c < 4294967295 → dimblock (λ old. (0, v)) (at c) ≡ ok 0 (at (suc c)))
dimblock_lost v h l = (
  ground (arith, dimblock-counted (λ old. (0, v)) v),
  λ c n w. ground (arith, dimblock-counted (λ old. (0, v)) c),
)

-- A debug level that was written is what the printing macros then read, cut off at 255, and a
-- request that leaves the level alone changes nothing.
debug-debuglevel :
    (req : Request) (d : ℕ)
    → d < 256
    → (at_slot (debug req) >> debuglevel) (live (record { lock = free; debug = d }))
      ≡ ok (min 255 (req d).1) (live (record { lock = free; debug = min 255 (req d).1 }))
unfolding debug debuglevel
debug-debuglevel req d h = ground arith
