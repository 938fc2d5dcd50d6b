-- ===== src/State.antt =====
-- kmod/framework_state.c: the counter of hints that block dimming.
-- `init`, `getdimcount`, `incdimcount`, `decdimcount` and `destroy` are the functions
-- `framework_state_…`; the argument of the last four is the slot that the pointer points to.
pub mod Counting
use Prim.Native.Nat.{bit_and, bit_or}
use framework_kmod.Base.{
  ℕ, ◌+◌, ◌-◌, u8, u32, Outcome, ok, fault, use_after_free, Action, pure, gets, modify, Mutex, free,
  mtx_lock, mtx_unlock, mtx_destroy, Slot, null, live, freed, unless_null, if◌then◌else◌, ◌==◌,
  releasing, ◌>>=◌, ◌>>◌,
}

-- `struct framework_state_t`
pub record DimState : Type 0 where
  pub lock : Mutex
  pub flags : ℕ  -- uint8_t
  pub block_dim_count : ℕ  -- uint32_t

abbrev pub flag_init : ℕ
flag_init = 1

abbrev pub flag_destroy : ℕ
flag_destroy = 2

abbrev lock : Action DimState (Unit {0})
lock = mtx_lock (λ s. s.lock) (λ m s. record s { lock = m })

abbrev unlock : Action DimState (Unit {0})
unlock = mtx_unlock (λ s. s.lock) (λ m s. record s { lock = m })

unfoldable pub init : Slot DimState
init = live (record { lock = free; flags = u8 (bit_or 0 flag_init); block_dim_count = 0 })

unfoldable pub getdimcount : Action (Slot DimState) ℕ
getdimcount = unless_null 0 (do lock; counter ← gets (λ s. s.block_dim_count); unlock; pure counter)

unfoldable pub incdimcount : Action (Slot DimState) (Unit {0})
incdimcount =
    unless_null tt
      (do lock; modify (λ s. record s { block_dim_count = u32 (s.block_dim_count + 1) }); unlock)

unfoldable pub decdimcount : Action (Slot DimState) (Unit {0})
decdimcount = unless_null tt (do
  lock
  modify (λ s.
      if s.block_dim_count == 0 then s else record s { block_dim_count = s.block_dim_count - 1 })
  unlock)

-- `flags |= FRAMEWORK_STATE_DESTROY; flags |= ~FRAMEWORK_STATE_INIT;`
mark_destroyed : DimState → DimState
mark_destroyed s = record s { flags = u8 (bit_or (u8 (bit_or s.flags flag_destroy)) 0xfe) }

tear_down : DimState → Outcome (Slot DimState) (Unit {0})
unfolding mark_destroyed
tear_down s =
    releasing tt
      ((do modify mark_destroyed; mtx_destroy (λ s. s.lock) (λ m s. record s { lock = m })) s)

unfoldable pub destroy : Action (Slot DimState) (Unit {0})
unfolding tear_down
destroy null = ok tt null
destroy freed = fault use_after_free
destroy (live s) =
    if bit_and s.flags flag_init == 0
    then ok tt (live s)
    else if bit_and s.flags flag_destroy == 0
    then tear_down s
    else ok tt (live s)
