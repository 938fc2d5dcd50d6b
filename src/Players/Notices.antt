-- ===== src/Players/Notices.antt =====
-- The handlers against the last status of each player.
use framework_kmod.Base.{
  Bool-cases, List, Option, [], codes, if◌then◌else◌, inl, inr, none, refl, some, sym, ℕ, ◌++◌,
  ◌==◌, ◌∙◌, ◌∷◌, ◌≡◌,
}
use mathlib.Core.List.{append-nil}
use framework_kmod.Players.{
  Player, Helper, Line, playback_started, playback_stopped, position, state_at, start_at, stop_at,
}
use framework_kmod.Players.Playing.{
  lookup, IsDistinct, named, set_lem, rm_lem, found_lem, same_upto_eq, set-IsDistinct,
  rm-IsDistinct, lookup_eq,
}

pub data Status : Type 0 where
  playing paused stopped : Status

abbrev pub word : Status → List ℕ
word playing = codes "PLAYING"
word paused = codes "PAUSED"
word stopped = codes "STOPPED"

-- The entry of a player after a status, from its entry before.
abbrev pub told : Status → Option ℕ → Option ℕ
told playing none = some 1
told playing (some k) = if k == 0 then some 1 else some k
told st none = some 0
told st (some k) = if k == 1 then none else some k

-- What is printed for a status, given the entry before.
abbrev pub said : Status → Option ℕ → List Line
said playing none = playback_started ∷ []
said playing (some k) = if k == 0 then playback_started ∷ [] else []
said st none = []
said st (some k) = if k == 1 then playback_stopped ∷ [] else []

-- What the status `st` of the name `n` does to the players `ps` and the helper `s`, which is `t`
-- afterwards.
pub record Told (n : List ℕ) (st : Status) (ps : List Player) (s t : Helper) : Type 0 where
  pub distinct : IsDistinct t.players
  pub entries :
      (m : List ℕ) → lookup m t.players ≡ (if named n m then told st (lookup n ps) else lookup m ps)
  pub output : t.output ≡ s.output ++ said st (lookup n ps)
  pub active : t.active ≡ s.active

abbrev pub Done : (Helper → Type 0) → Option Helper → Type 0
Done P none = ⊥
Done P (some t) = P t

abbrev pub Stopping : Status → Type 0
Stopping playing = ⊥
Stopping paused = Unit {0}
Stopping stopped = Unit {0}

kept_lem :
    (n m : List ℕ) (ps : List Player) (x : Option ℕ)
    → lookup n ps ≡ x
    → lookup m ps ≡ (if named n m then x else lookup m ps)
kept_lem n m ps x h = elim (Bool-cases (named n m)) [
  | inl y ↦ rw y (sym (lookup_eq n m ps (same_upto_eq n m y)) ∙ h)
  | inr z ↦ rw z refl
]

pub start_at_lem :
    (n : List ℕ) (i : ℕ) (ps : List Player) (s : Helper)
    → position n ps ≡ some i
    → IsDistinct ps
    → Done (Told n playing ps s) (start_at (some i, ps) s)
unfolding start_at
start_at_lem n i ps s h d = elim (Bool-cases (state_at i ps == 0)) [
  | inl y ↦ rw y (record {
    distinct = set-IsDistinct n 1 i ps h d;
    entries = λ m. set_lem n m 1 i ps h ∙ rw (found_lem n i ps h, y) refl;
    output = rw (found_lem n i ps h) (rw y refl);
    active = refl;
  })
  | inr z ↦ rw z (record {
    distinct = d;
    entries = λ m.
        rw (found_lem n i ps h, z) (kept_lem n m ps (some (state_at i ps)) (found_lem n i ps h));
    output = rw (found_lem n i ps h) (rw z (sym (append-nil s.output)));
    active = refl;
  })
]

told_stop :
    (st : Status) → Stopping st → (k : ℕ) → told st (some k) ≡ (if k == 1 then none else some k)
told_stop playing u k = elim u [ ]
told_stop paused u k = refl
told_stop stopped u k = refl

said_stop :
    (st : Status)
    → Stopping st
    → (k : ℕ) → said st (some k) ≡ (if k == 1 then playback_stopped ∷ [] else [])
said_stop playing u k = elim u [ ]
said_stop paused u k = refl
said_stop stopped u k = refl

pub stop_at_lem :
    (n : List ℕ) (st : Status) (i : ℕ) (ps : List Player) (s : Helper)
    → Stopping st
    → position n ps ≡ some i
    → IsDistinct ps
    → Done (Told n st ps s) (stop_at (some i, ps) s)
unfolding stop_at
stop_at_lem n st i ps s u h d = elim (Bool-cases (state_at i ps == 1)) [
  | inl y ↦ rw y (record {
    distinct = rm-IsDistinct n 0 i ps h d;
    entries = λ m.
        rm_lem n m 0 i ps d h ∙ rw (found_lem n i ps h, told_stop st u (state_at i ps), y) refl;
    output = rw (found_lem n i ps h, said_stop st u (state_at i ps), y) refl;
    active = refl;
  })
  | inr z ↦ rw z (record {
    distinct = d;
    entries = λ m.
        rw (found_lem n i ps h, told_stop st u (state_at i ps), z)
          (kept_lem n m ps (some (state_at i ps)) (found_lem n i ps h));
    output = rw (found_lem n i ps h, said_stop st u (state_at i ps), z) (sym (append-nil s.output));
    active = refl;
  })
]
