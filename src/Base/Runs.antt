-- ===== src/Base/Runs.antt =====
-- Runs of a system of threads: a step of one of its actors, if that actor can move.
use Prim.Native.Nat.{ℕ, zero, suc, ◌<◌}
use mathlib.Core.Path.{◌≡◌, subst}
use mathlib.Core.Logic.{inl, inr}
use mathlib.Core.Bool.{Bool, true, false}
use mathlib.Core.Option.{Option, none, some}
use mathlib.Core.List.{List, [], ◌∷◌}
use native.Mathlib.Omega.{arith}
use framework_kmod.Base.Tests.{Bool-cases, Option-cases}

module _ {S : Type 0} where
  abbrev pub moves : Option S → Bool
  moves none = false
  moves (some t) = true

  none-moves : (o : Option S) → o ≡ none → moves o ≡ true → ⊥
  none-moves o e m = ground arith

  pub moves_lem : (o : Option S) → moves o ≡ true → (t : S) × (o ≡ some t)
  moves_lem o h = elim (Option-cases o) [ inl e ↦ absurd (none-moves o e h) | inr found ↦ found ]

  abbrev then_run : Option S → (S → Option S) → Option S
  then_run none f = none
  then_run (some t) f = f t

module _ {S A : Type 0} (step : A → S → Option S) where
  -- The state after these actors have moved, one after the other; `none` if one of them cannot.
  unfoldable pub run : List A → S → Option S
  run [] s = some s
  run (a ∷ as_) s = then_run (step a s) (run as_)

  -- Whoever moves, a state is reached in which it is over; and before that somebody can move.
  pub data Ends (over : S → Bool) : S → Type 0 where
    at_end : {s : S} → over s ≡ true → Ends over s
    goes :
        {s : S}
        → (a : A) × (t : S) × (step a s ≡ some t)
        → ((a : A) (t : S) → step a s ≡ some t → Ends over t)
        → Ends over s

  module _ (over : S → Bool) (P : S → Type 0) (rank : S → ℕ)
      (advance : (a : A) (s t : S) → P s → step a s ≡ some t → P t × (rank t < rank s))
      (go_on : (s : S) → P s → over s ≡ false → (a : A) × (t : S) × (step a s ≡ some t)) where
    below-Ends : (fuel : ℕ) (s : S) → rank s < fuel → P s → Ends over s
    below-Ends zero s h p = absurd (omega arith)
    below-Ends (suc fuel) s h p = elim (Bool-cases (over s)) [
      | inl y ↦ at_end y
      | inr n ↦
          goes (go_on s p n)
            (λ a t e. let v = advance a s t p e in below-Ends fuel t (omega arith) v.0)
    ]

    -- Each step keeps `P` and lowers the rank, and somebody can move until it is over.
    pub P-Ends : (s : S) → P s → Ends over s
    P-Ends s p = below-Ends (suc (rank s)) s (omega arith) p

  -- The states that can be reached from a first one.
  pub data Reach (first : S) : S → Type 0 where
    start : Reach first first
    later : {s t : S} (a : A) → Reach first s → step a s ≡ some t → Reach first t

  pub run-Reach :
      (as_ : List A) {first s t : S} → Reach first s → run as_ s ≡ some t → Reach first t
  unfolding run
  run-Reach [] {first} r e = subst (Reach first) (ground arith) r
  run-Reach (a ∷ as_) {s = s} r e = elim (Option-cases (step a s)) [
    | inl none_left ↦ absurd (ground arith)
    | inr (t, one) ↦ run-Reach as_ (later a r one) (ground arith)
  ]

  -- What each step keeps holds in all of them.
  pub Reach-keeps :
      (P : S → Type 0)
      → ((a : A) (s t : S) → P s → step a s ≡ some t → P t)
      → {first s : S} → P first
      → Reach first s
      → P s
  Reach-keeps P keep p start = p
  Reach-keeps P keep p (later {s} {t} a r e) = keep a s t (Reach-keeps P keep p r) e
