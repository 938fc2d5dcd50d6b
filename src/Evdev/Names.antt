-- ===== src/Evdev/Names.antt =====
-- kmod/framework_evdev.c: which devices are listened to, `framework_evdev_matchname`.
use framework_kmod.Base.{
  Bool, List, Option, [], arith, begins, codes, contained, false, if◌then◌else◌, length,
  length-contained, none, Bool-cases, begins_split, contained_split, begins-++, contained-++, inl,
  inr, ◌++◌, ◌⊎◌, ◌↔◌, not, refl, some, true, ℕ, ◌&&◌, ◌<◌, ◌∷◌, ◌≡◌,
}

-- `framework_evdev_devnames`
abbrev pub devnames : List (List ℕ)
devnames =
    codes "TouchPad"
    ∷ codes "Mouse"
    ∷ codes "hcons0"
    ∷ codes "hmt0"
    ∷ codes "hms0"
    ∷ codes "sysmouse"
    ∷ codes "kbdmux"
    ∷ codes "psm"
    ∷ codes "atkbd"
    ∷ []

-- The `while` loop.
match_from : List (List ℕ) → List ℕ → Bool → Bool
match_from [] name partial = false
match_from (entry ∷ rest) name partial =
    let later = match_from rest name partial in
    if not partial && begins entry name
    then true
    else if partial && contained name entry
    then true
    else later

unfoldable pub matchname : Option (List ℕ) → Bool → Bool
unfolding match_from
matchname none partial = false
matchname (some name) partial = match_from devnames name partial

-- No entry is that long.
abbrev Shorter : ℕ → List (List ℕ) → Type 0
Shorter n [] = Unit {0}
Shorter n (entry ∷ rest) = (length entry < n) × Shorter n rest

long_lem :
    (l : List (List ℕ)) (name : List ℕ) → Shorter (length name) l → match_from l name true ≡ false
unfolding match_from
long_lem [] name h = refl
long_lem (entry ∷ rest) name h =
    ground (arith, length-contained name entry, long_lem rest name h.1, h.0)

-- The arguments of the search are the wrong way round: the name of the device is looked for in the
-- entries of the table, so that a name of more than 8 bytes is never found, whatever it contains.
pub matchname_long : (name : List ℕ) → 8 < length name → matchname (some name) true ≡ false
unfolding matchname
matchname_long name h = long_lem devnames name (omega arith)

-- `P` holds for one of these names.
abbrev pub Among : (List ℕ → Type 0) → List (List ℕ) → Type 0
Among P [] = ⊥
Among P (entry ∷ rest) = P entry ⊎ Among P rest

-- The name begins with the entry; the entry has the name in it.
abbrev pub Continues : List ℕ → List ℕ → Type 0
Continues name entry = (r : List ℕ) × (name ≡ entry ++ r)

abbrev pub Contains : List ℕ → List ℕ → Type 0
Contains name entry = (a : List ℕ) × (b : List ℕ) × (entry ≡ a ++ name ++ b)

module _ (name : List ℕ) where
  exact_from : (l : List (List ℕ)) → match_from l name false ≡ true → Among (Continues name) l
  unfolding match_from
  exact_from [] h = absurd (ground arith)
  exact_from (entry ∷ rest) h = elim (Bool-cases (begins entry name)) [
    | inl y ↦ inl (begins_split entry name y)
    | inr z ↦ inr (exact_from rest (ground arith))
  ]

  exact_to : (l : List (List ℕ)) → Among (Continues name) l → match_from l name false ≡ true
  unfolding match_from
  exact_to [] m = absurd m
  exact_to (entry ∷ rest) (inl (r, e)) = rw (e, begins-++ entry r) refl
  exact_to (entry ∷ rest) (inr a) = ground (arith, exact_to rest a)

  partial_from : (l : List (List ℕ)) → match_from l name true ≡ true → Among (Contains name) l
  unfolding match_from
  partial_from [] h = absurd (ground arith)
  partial_from (entry ∷ rest) h = elim (Bool-cases (contained name entry)) [
    | inl y ↦ inl (contained_split name entry y)
    | inr z ↦ inr (partial_from rest (ground arith))
  ]

  partial_to : (l : List (List ℕ)) → Among (Contains name) l → match_from l name true ≡ true
  unfolding match_from
  partial_to [] m = absurd m
  partial_to (entry ∷ rest) (inl (a, b, e)) = rw (e, contained-++ a name b) refl
  partial_to (entry ∷ rest) (inr m) = ground (arith, partial_to rest m)

-- What a name that may be null matches.
abbrev pub Listed : (List ℕ → List ℕ → Type 0) → Option (List ℕ) → Type 0
Listed P none = ⊥
Listed P (some name) = Among (P name) devnames

pub matchname_exact : (n : Option (List ℕ)) → (matchname n false ≡ true) ↔ Listed Continues n
unfolding matchname
matchname_exact none = (λ h. absurd (ground arith), λ k. absurd k)
matchname_exact (some name) = (exact_from name devnames, exact_to name devnames)

pub matchname_partial : (n : Option (List ℕ)) → (matchname n true ≡ true) ↔ Listed Contains n
unfolding matchname
matchname_partial none = (λ h. absurd (ground arith), λ k. absurd k)
matchname_partial (some name) = (partial_from name devnames, partial_to name devnames)
