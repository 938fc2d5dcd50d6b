-- ===== src/Base/Everywhere.antt =====
-- Tests at all values of a finite type, which a test by evaluation can run.
use mathlib.Core.Path.{◌≡◌}
use mathlib.Core.Bool.{Bool, true, false, not, ◌&&◌, ◌||◌}
use native.Mathlib.Omega.{arith}

pub record Finite (A : Type 0) : Type 0 where
  pub test_all : (A → Bool) → Bool
  pub sound : (p : A → Bool) → test_all p ≡ true → (a : A) → p a ≡ true

abbrev pub all : {A : Type 0} ⦃f : Finite A⦄ → (A → Bool) → Bool
all ⦃f⦄ = f.test_all

pub all_at : {A : Type 0} ⦃f : Finite A⦄ (p : A → Bool) → all p ≡ true → (a : A) → p a ≡ true
all_at ⦃f⦄ p h a = f.sound p h a

abbrev pub all_bool : (Bool → Bool) → Bool
all_bool p = p false && p true

pub all_bool_sound : (p : Bool → Bool) → all_bool p ≡ true → (b : Bool) → p b ≡ true
all_bool_sound p h true = ground arith
all_bool_sound p h false = ground arith

instance abbrev pub bool_finite : Finite Bool
bool_finite = record { test_all = all_bool; sound = all_bool_sound }

-- Equality of truth values.
abbrev pub eqb : Bool → Bool → Bool
eqb true b = b
eqb false b = not b

pub eqb_eq : (a b : Bool) → eqb a b ≡ true → a ≡ b
eqb_eq true b h = ground arith
eqb_eq false b h = ground arith

pub &&_both : (x y : Bool) → x && y ≡ true → (x ≡ true) × (y ≡ true)
&&_both x y h = ground arith

pub after_not : (x y : Bool) → x ≡ true → not x || y ≡ true → y ≡ true
after_not x y h g = ground arith

module _ {A B C D : Type 0} ⦃fa : Finite A⦄ ⦃fb : Finite B⦄ ⦃fc : Finite C⦄ ⦃fd : Finite D⦄ where
  -- At all values of four types.
  abbrev pub all_four : (A → B → C → D → Bool) → Bool
  all_four p = all λ a. all λ b. all λ c. all (p a b c)

  pub all_four_at :
      (p : A → B → C → D → Bool)
      → all_four p ≡ true
      → (a : A) (b : B) (c : C) (d : D) → p a b c d ≡ true
  all_four_at p h a b c d =
      let of_a = all_at (λ a. all λ b. all λ c. all (p a b c)) h a in
      let of_b = all_at (λ b. all λ c. all (p a b c)) of_a b in
      all_at (p a b c) (all_at (λ c. all (p a b c)) of_b c) d
