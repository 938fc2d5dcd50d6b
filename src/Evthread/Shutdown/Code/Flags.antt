-- ===== src/Evthread/Shutdown/Code/Flags.antt =====
-- kmod/framework_evdev_thread.h: the flags THREAD and SHUTDOWN in a byte of flags.
use framework_kmod.Base.{
  &&_both, inl, inr, ap, ◌∙◌, ◌⊎◌, Bool, arith, eqb, eqb_eq, false, ltb, not, refl, suc, true, zero,
  ℕ, ◌&&◌, ◌<◌, ◌≡◌,
}
use framework_kmod.Evthread.{clear_flag, flag_shutdown, flag_thread, has_flag, set_flag}

-- A test at all numbers below `n`.
all_below : ℕ → (ℕ → Bool) → Bool
all_below zero t = true
all_below (suc n) t = t n && all_below n t

last_or_below : (n m : ℕ) → m < suc n → (m ≡ n) ⊎ (m < n)
last_or_below n m l = grind arith

all_below_lem : (n : ℕ) (t : ℕ → Bool) → all_below n t ≡ true → (m : ℕ) → m < n → t m ≡ true
unfolding all_below
all_below_lem zero t h m l = ground arith
all_below_lem (suc n) t h m l =
    let b = &&_both (t n) (all_below n t) h in
    elim (last_or_below n m l) [ inl e ↦ ap t e ∙ b.0 | inr k ↦ all_below_lem n t b.1 m k ]

abbrev works : ℕ → Bool
works n =
    has_flag flag_thread (set_flag flag_thread n)
    && eqb (has_flag flag_shutdown (set_flag flag_thread n)) (has_flag flag_shutdown n)
    && has_flag flag_shutdown (set_flag flag_shutdown n)
    && eqb (has_flag flag_thread (set_flag flag_shutdown n)) (has_flag flag_thread n)
    && not (has_flag flag_thread (clear_flag flag_thread n))
    && eqb (has_flag flag_shutdown (clear_flag flag_thread n)) (has_flag flag_shutdown n)
    && ltb (clear_flag flag_thread n) 256

works_all : all_below 256 works ≡ true
unfolding all_below
works_all = refl

pub record Kept (n : ℕ) : Type 0 where
  pub sets : has_flag flag_thread (set_flag flag_thread n) ≡ true
  pub keeps : has_flag flag_shutdown (set_flag flag_thread n) ≡ has_flag flag_shutdown n
  pub shuts : has_flag flag_shutdown (set_flag flag_shutdown n) ≡ true
  pub leaves : has_flag flag_thread (set_flag flag_shutdown n) ≡ has_flag flag_thread n
  pub clears : has_flag flag_thread (clear_flag flag_thread n) ≡ false
  pub spares : has_flag flag_shutdown (clear_flag flag_thread n) ≡ has_flag flag_shutdown n
  pub fits : clear_flag flag_thread n < 256

pub byte-Kept : (n : ℕ) → n < 256 → Kept n
byte-Kept n h =
    let w = all_below_lem 256 works works_all n h in
    record {
      sets = ground arith;
      keeps = eqb_eq _ _ (ground arith);
      shuts = ground arith;
      leaves = eqb_eq _ _ (ground arith);
      clears = ground arith;
      spares = eqb_eq _ _ (ground arith);
      fits = ground arith;
    }
