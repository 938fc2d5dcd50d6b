-- ===== src/Base/Texts.antt =====
-- C strings as the lists of their bytes, without the 0 at the end.
use Prim.Native.Nat.{ℕ, zero, suc, ◌≤◌}
use mathlib.Core.Path.{◌≡◌, refl, ap, sym}
use mathlib.Core.Logic.{inl, inr}
use mathlib.Core.Bool.{Bool, true, false, ◌&&◌}
use mathlib.Core.List.{List, [], ◌∷◌, ◌++◌}
use native.Mathlib.Omega.{arith}
use Prim.Native.String.{String}
use Prim.Native.Char.{code}
use framework_kmod.Base.Tests.{Bool-cases, ◌==◌, if◌then◌else◌}

abbrev pub codes : String → List ℕ
codes String.[] = []
codes (String.◌∷◌ c s) = code c ∷ codes s

abbrev pub length {ℓ} : {A : Type ℓ} → List A → ℕ
length [] = 0
length (x ∷ xs) = suc (length xs)

abbrev pub take {ℓ} : {A : Type ℓ} → ℕ → List A → List A
take zero xs = []
take (suc n) [] = []
take (suc n) (x ∷ xs) = x ∷ take n xs

-- `*s`
abbrev pub first : List ℕ → ℕ
first [] = 0
first (c ∷ s) = c

-- `0 == strcmp(s, t)`
unfoldable pub same : List ℕ → List ℕ → Bool
same [] [] = true
same [] (d ∷ t) = false
same (c ∷ s) [] = false
same (c ∷ s) (d ∷ t) = c == d && same s t

-- `0 == strncmp(s, t, strlen(s))`: `t` begins with `s`.
unfoldable pub begins : List ℕ → List ℕ → Bool
begins [] t = true
begins (c ∷ s) [] = false
begins (c ∷ s) (d ∷ t) = c == d && begins s t

-- `NULL != strnstr(t, s, strlen(t))`: `t` contains `s`.
unfoldable pub contained : List ℕ → List ℕ → Bool
contained s [] = begins s []
contained s (d ∷ t) = let later = contained s t in if begins s (d ∷ t) then true else later

-- `0 == strncmp(s, t, n)`
unfoldable pub same_upto : ℕ → List ℕ → List ℕ → Bool
same_upto n s t = same (take n s) (take n t)

pub same_self : (s : List ℕ) → same s s ≡ true
unfolding same
same_self [] = refl
same_self (c ∷ s) = ground (arith, same_self s)

pub same_eq : (s t : List ℕ) → same s t ≡ true → s ≡ t
unfolding same
same_eq [] [] h = refl
same_eq [] (d ∷ t) h = ground arith
same_eq (c ∷ s) [] h = ground arith
same_eq (c ∷ s) (d ∷ t) h = ground (arith, same_eq s t)

pub take_short {ℓ} : {A : Type ℓ} (n : ℕ) (s : List A) → length s ≤ n → take n s ≡ s
take_short zero [] h = refl
take_short zero (x ∷ s) h = absurd (omega arith)
take_short (suc n) [] h = refl
take_short (suc n) (x ∷ s) h = ground (arith, take_short n s)

pub length-take {ℓ} : {A : Type ℓ} (n : ℕ) (s : List A) → length (take n s) ≤ n
length-take zero s = omega arith
length-take (suc n) [] = omega arith
length-take (suc n) (x ∷ s) = omega (arith, length-take n s)

pub take-take {ℓ} : {A : Type ℓ} (n : ℕ) (s : List A) → take n (take n s) ≡ take n s
take-take n s = take_short n (take n s) (length-take n s)

pub length-begins : (s t : List ℕ) → begins s t ≡ true → length s ≤ length t
unfolding begins
length-begins [] t h = omega arith
length-begins (c ∷ s) [] h = ground arith
length-begins (c ∷ s) (d ∷ t) h = ground (arith, length-begins s t)

pub length-contained : (s t : List ℕ) → contained s t ≡ true → length s ≤ length t
unfolding contained
length-contained s [] h = length-begins s [] h
length-contained s (d ∷ t) h = ground (arith, length-begins s (d ∷ t), length-contained s t)

pub begins_split : (s t : List ℕ) → begins s t ≡ true → (r : List ℕ) × (t ≡ s ++ r)
unfolding begins
begins_split [] t h = (t, refl)
begins_split (c ∷ s) [] h = absurd (ground arith)
begins_split (c ∷ s) (d ∷ t) h =
    let both : (c ≡ d) × (begins s t ≡ true) = ground arith in
    let (r, e) = begins_split s t both.1 in (r, rw (sym both.0) (ap (λ u. c ∷ u) e))

pub begins-++ : (s r : List ℕ) → begins s (s ++ r) ≡ true
unfolding begins
begins-++ [] r = refl
begins-++ (c ∷ s) r = ground (arith, begins-++ s r)

pub contained_split :
    (s t : List ℕ) → contained s t ≡ true → (a : List ℕ) × (b : List ℕ) × (t ≡ a ++ s ++ b)
unfolding contained
contained_split s [] h = let (r, e) = begins_split s [] h in ([], r, e)
contained_split s (d ∷ t) h = elim (Bool-cases (begins s (d ∷ t))) [
  | inl y ↦ let (r, e) = begins_split s (d ∷ t) y in ([], r, e)
  | inr z ↦
      let later : contained s t ≡ true = ground arith in
      let (a, b, e) = contained_split s t later in (d ∷ a, b, ap (λ u. d ∷ u) e)
]

contained-begins : (s t : List ℕ) → begins s t ≡ true → contained s t ≡ true
unfolding contained
contained-begins s [] h = h
contained-begins s (d ∷ t) h = ground arith

pub contained-++ : (a s b : List ℕ) → contained s (a ++ s ++ b) ≡ true
unfolding contained
contained-++ [] s b = contained-begins s (s ++ b) (begins-++ s b)
contained-++ (c ∷ a) s b = ground (arith, contained-++ a s b)
