-- ===== src/State/Counting.antt =====
-- What any history of increments and decrements does to the counter.
use framework_kmod.Base.{
  ℕ, suc, ◌+◌, ◌-◌, ◌<◌, ◌≡◌, refl, List, [], ◌∷◌, ok, Action, pure, ◌>>◌, free, Slot, live, freed,
  arith, u32, ◌==◌, if◌then◌else◌,
}
use framework_kmod.State.{DimState, init, incdimcount, decdimcount, destroy}

-- A call by one of the video players: at its start, or at its end.
pub data Hint : Type 0 where
  block unblock : Hint

hint : Hint → Action (Slot DimState) (Unit {0})
hint block = incdimcount
hint unblock = decdimcount

unfoldable pub hints : List Hint → Action (Slot DimState) (Unit {0})
unfolding hint
hints [] = pure tt
hints (h ∷ hs) = hint h >> hints hs

abbrev pub blocks : List Hint → ℕ
blocks [] = 0
blocks (block ∷ hs) = suc (blocks hs)
blocks (unblock ∷ hs) = blocks hs

abbrev pub unblocks : List Hint → ℕ
unblocks [] = 0
unblocks (block ∷ hs) = unblocks hs
unblocks (unblock ∷ hs) = suc (unblocks hs)

-- No player ends before it has started, and the counter has room for those that run.
abbrev pub IsPaired : ℕ → List Hint → Type 0
IsPaired c [] = c < 4294967296
IsPaired c (block ∷ hs) = (suc c < 4294967296) × IsPaired (suc c) hs
IsPaired ℕ.zero (unblock ∷ hs) = ⊥
IsPaired (suc c) (unblock ∷ hs) = IsPaired c hs

abbrev at : ℕ → ℕ → Slot DimState
at c f = live (record { lock = free; flags = f; block_dim_count = c })

block_lem : (c f : ℕ) → suc c < 4294967296 → hint block (at c f) ≡ ok tt (at (suc c) f)
unfolding hint incdimcount
block_lem c f h = ground arith

unblock_lem : (c f : ℕ) → hint unblock (at (suc c) f) ≡ ok tt (at c f)
unfolding hint decdimcount
unblock_lem c f = ground arith

-- From any counter, a history in which each player starts before it ends, and in which no more than
-- 2 ^ 32 - 1 run at a time, ends with the mutex free and with the number of players that still run.
pub hints_count :
    (c f : ℕ) (hs : List Hint)
    → IsPaired c hs
    → (d : ℕ) × (hints hs (at c f) ≡ ok tt (at d f)) × (d + unblocks hs ≡ c + blocks hs)
unfolding hints
hints_count c f [] p = (c, refl, refl)
hints_count c f (block ∷ hs) p =
    let (d, run, sum) = hints_count (suc c) f hs p.1 in (d, rw (block_lem c f p.0) run, omega arith)
hints_count ℕ.zero f (unblock ∷ hs) p = absurd p
hints_count (suc c) f (unblock ∷ hs) p =
    let (d, run, sum) = hints_count c f hs p in (d, rw (unblock_lem c f) run, omega arith)

-- The counter after one call, paired or not: it wraps at the top, and stays at 0.
abbrev after : Hint → ℕ → ℕ
after block c = u32 (c + 1)
after unblock c = if c == 0 then c else c - 1

hint_lem : (h : Hint) (c f : ℕ) → hint h (at c f) ≡ ok tt (at (after h c) f)
unfolding hint incdimcount decdimcount
hint_lem block c f = refl
hint_lem unblock c f = ground arith

hints_return : (c f : ℕ) (hs : List Hint) → (d : ℕ) × (hints hs (at c f) ≡ ok tt (at d f))
unfolding hints
hints_return c f [] = (c, refl)
hints_return c f (h ∷ hs) =
    let (d, run) = hints_return (after h c) f hs in (d, rw (hint_lem h c f) run)

destroy_lem : (d : ℕ) → destroy (at d 1) ≡ ok tt freed
unfolding destroy
destroy_lem d = refl

-- Whatever the history after `framework_state_init`, paired or not, no call faults, and
-- `framework_state_destroy` then destroys a mutex that is free and frees the memory.
hints-destroy : (hs : List Hint) → (hints hs >> destroy) init ≡ ok tt freed
unfolding init
hints-destroy hs = let (d, run) = hints_return 0 1 hs in rw run (destroy_lem d)
