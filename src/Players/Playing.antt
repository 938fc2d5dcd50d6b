-- ===== src/Players/Playing.antt =====
-- The list of players against what a name last reported.
use framework_kmod.Base.{
  Bool, Bool-cases, List, Option, [], arith, false, if◌then◌else◌, inl, inr, none, refl, same_eq,
  same_self, same_upto, some, suc, sym, take, take-take, true, zero, ℕ, ◌∙◌, ◌∷◌, ◌≡◌,
}
use framework_kmod.Signal.{namelen}
use framework_kmod.Players.{Player, position, deeper, player, state_at, set_state, rm_player}

-- The state of the first player of that name.
abbrev pub lookup : List ℕ → List Player → Option ℕ
lookup name [] = none
lookup name (p ∷ ps) =
    let later = lookup name ps in if same_upto namelen p.name name then some p.state else later

-- No name has two players, and no name is longer than its buffer.
abbrev pub IsDistinct : List Player → Type 0
IsDistinct [] = Unit {0}
IsDistinct (p ∷ ps) = (lookup p.name ps ≡ none) × IsDistinct ps

pub same_upto_eq : (s t : List ℕ) → same_upto namelen s t ≡ true → take namelen s ≡ take namelen t
unfolding same_upto
same_upto_eq s t h = same_eq (take namelen s) (take namelen t) h

pub lookup_eq :
    (s t : List ℕ) (ps : List Player) → take namelen s ≡ take namelen t → lookup s ps ≡ lookup t ps
unfolding same_upto
lookup_eq s t [] e = refl
lookup_eq s t (p ∷ ps) e = rw (e, lookup_eq s t ps e) refl

abbrev pub named : List ℕ → List ℕ → Bool
named = same_upto namelen

pub named_eq : (a n m : List ℕ) → named a n ≡ true → named a m ≡ named n m
unfolding same_upto
named_eq a n m h = rw (same_upto_eq a n h) refl

pub named_self : (a : List ℕ) → named a a ≡ true
unfolding same_upto
named_self a = same_self (take namelen a)

pub named_sym : (a n : List ℕ) → named a n ≡ true → named n a ≡ true
named_sym a n h = sym (named_eq a n a h) ∙ named_self a

pub apart : (a n m : List ℕ) → named a n ≡ false → named a m ≡ true → named n m ≡ false
apart a n m h e = elim (Bool-cases (named n m)) [
  | inl y ↦ ground (arith, named_eq a m n e, named_sym n m y)
  | inr z ↦ z
]

pub set_lem :
    (n m : List ℕ) (st i : ℕ) (ps : List Player)
    → position n ps ≡ some i
    → lookup m (set_state i st ps) ≡ (if named n m then some st else lookup m ps)
unfolding position set_state deeper
set_lem n m st i [] h = ground arith
set_lem n m st zero (p ∷ ps) h = elim (Bool-cases (named p.name n)) [
  | inl y ↦ ground (arith, named_eq p.name n m y)
  | inr z ↦ ground arith
]
set_lem n m st (suc i) (p ∷ ps) h = elim (Bool-cases (named p.name n)) [
  | inl y ↦ ground arith
  | inr z ↦ ground (arith, apart p.name n m z, set_lem n m st i ps)
]

pub rm_lem :
    (n m : List ℕ) (st i : ℕ) (ps : List Player)
    → IsDistinct ps
    → position n ps ≡ some i
    → lookup m (rm_player i (set_state i st ps)) ≡ (if named n m then none else lookup m ps)
unfolding position set_state rm_player deeper
rm_lem n m st i [] d h = ground arith
rm_lem n m st zero (p ∷ ps) d h = elim (Bool-cases (named p.name n)) [
  | inl y ↦ elim (Bool-cases (named p.name m)) [
    | inl v ↦
        ground (arith, d.0, named_eq p.name n m y, lookup_eq p.name m ps (same_upto_eq p.name m v))
    | inr w ↦ ground (arith, named_eq p.name n m y)
  ]
  | inr z ↦ ground arith
]
rm_lem n m st (suc i) (p ∷ ps) d h = elim (Bool-cases (named p.name n)) [
  | inl y ↦ ground arith
  | inr z ↦ ground (arith, apart p.name n m z, rm_lem n m st i ps d.1)
]

pub found_lem :
    (n : List ℕ) (i : ℕ) (ps : List Player)
    → position n ps ≡ some i
    → lookup n ps ≡ some (state_at i ps)
unfolding position state_at deeper
found_lem n i [] h = ground arith
found_lem n zero (p ∷ ps) h = ground arith
found_lem n (suc i) (p ∷ ps) h = ground (arith, found_lem n i ps)

pub absent_lem : (n : List ℕ) (ps : List Player) → position n ps ≡ none → lookup n ps ≡ none
unfolding position deeper
absent_lem n [] h = refl
absent_lem n (p ∷ ps) h = ground (arith, absent_lem n ps)

-- A player found behind the head: the head has another name.
behind :
    (n : List ℕ) (i : ℕ) (p : Player) (ps : List Player)
    → position n (p ∷ ps) ≡ some (suc i)
    → (named n p.name ≡ false) × (position n ps ≡ some i)
unfolding position deeper
behind n i p ps h = elim (Bool-cases (named p.name n)) [
  | inl y ↦ ground arith
  | inr z ↦ (ground (arith, named_sym n p.name), ground arith)
]

pub set-IsDistinct :
    (n : List ℕ) (st i : ℕ) (ps : List Player)
    → position n ps ≡ some i
    → IsDistinct ps
    → IsDistinct (set_state i st ps)
unfolding position set_state deeper
set-IsDistinct n st i [] h d = tt
set-IsDistinct n st zero (p ∷ ps) h d = d
set-IsDistinct n st (suc i) (p ∷ ps) h d =
    let b = behind n i p ps h in
    (rw (set_lem n p.name st i ps b.1, b.0) d.0, set-IsDistinct n st i ps b.1 d.1)

pub rm-IsDistinct :
    (n : List ℕ) (st i : ℕ) (ps : List Player)
    → position n ps ≡ some i
    → IsDistinct ps
    → IsDistinct (rm_player i (set_state i st ps))
unfolding position set_state rm_player deeper
rm-IsDistinct n st i [] h d = tt
rm-IsDistinct n st zero (p ∷ ps) h d = d.1
rm-IsDistinct n st (suc i) (p ∷ ps) h d =
    let b = behind n i p ps h in
    (rw (rm_lem n p.name st i ps d.1 b.1, b.0) d.0, rm-IsDistinct n st i ps b.1 d.1)

pub insert-IsDistinct :
    (n : List ℕ) (st : ℕ) (ps : List Player)
    → position n ps ≡ none
    → IsDistinct ps
    → IsDistinct (player (take namelen n) st ∷ ps)
insert-IsDistinct n st ps h d =
    (lookup_eq (take namelen n) n ps (take-take namelen n) ∙ absent_lem n ps h, d)
