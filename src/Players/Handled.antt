-- ===== src/Players/Handled.antt =====
-- `find_player` with a new name, and all of `choose_handler`.
use framework_kmod.Base.{
  Bool, Bool-cases, List, Option, Option-cases, ap, if◌then◌else◌, inl, inr, none, refl, same,
  same_upto, some, subst, sym, take, take-take, true, ℕ, ◌++◌, ◌∙◌, ◌∷◌, ◌≡◌,
}
use framework_kmod.Signal.{Signal, namelen}
use framework_kmod.Players.{
  Player, Helper, position, player, find_player, found_or_new, start_at, stop_at, signal_start,
  signal_stop, choose_handler, choose_from, unless_exit, call,
}
use framework_kmod.Players.Playing.{
  lookup, IsDistinct, named, absent_lem, insert-IsDistinct, named_self,
}
use framework_kmod.Players.Notices.{
  Status, playing, paused, stopped, word, told, said, Told, Done, Stopping, start_at_lem,
  stop_at_lem,
}

-- A new entry counts like none.
told_new : (st : Status) → told st (some 0) ≡ told st none
told_new playing = refl
told_new paused = refl
told_new stopped = refl

said_new : (st : Status) → said st (some 0) ≡ said st none
said_new playing = refl
said_new paused = refl
said_new stopped = refl

pub named-take : (n m : List ℕ) → named (take namelen n) m ≡ named n m
unfolding same_upto
named-take n m = rw (take-take namelen n) refl

lookup_new :
    (n : List ℕ) (ps : List Player)
    → position n ps ≡ none
    → lookup n (player (take namelen n) 0 ∷ ps) ≡ some 0
lookup_new n ps h = rw (named-take n n, named_self n) refl

lookup_others :
    (n m : List ℕ) (x : Option ℕ) (ps : List Player)
    → (if named n m then x else lookup m (player (take namelen n) 0 ∷ ps))
      ≡ (if named n m then x else lookup m ps)
lookup_others n m x ps = elim (Bool-cases (named n m)) [
  | inl y ↦ rw y refl
  | inr z ↦ rw (named-take n m, z) refl
]

told_as_new :
    (n : List ℕ) (st : Status) (ps : List Player)
    → position n ps ≡ none
    → told st (lookup n (player (take namelen n) 0 ∷ ps)) ≡ told st (lookup n ps)
told_as_new n st ps h =
    ap (told st) (lookup_new n ps h) ∙ told_new st ∙ ap (told st) (sym (absent_lem n ps h))

said_as_new :
    (n : List ℕ) (st : Status) (ps : List Player)
    → position n ps ≡ none
    → said st (lookup n (player (take namelen n) 0 ∷ ps)) ≡ said st (lookup n ps)
said_as_new n st ps h =
    ap (said st) (lookup_new n ps h) ∙ said_new st ∙ ap (said st) (sym (absent_lem n ps h))

new_lem :
    (n : List ℕ) (st : Status) (ps : List Player) (s : Helper) (r : Option Helper)
    → position n ps ≡ none
    → Done (Told n st (player (take namelen n) 0 ∷ ps) s) r
    → Done (Told n st ps s) r
new_lem n st ps s none h b = b
new_lem n st ps s (some t) h b = record {
  distinct = b.distinct;
  entries = λ m.
      b.entries m
      ∙ lookup_others n m (told st (lookup n (player (take namelen n) 0 ∷ ps))) ps
      ∙ ap (λ x. if named n m then x else lookup m ps) (told_as_new n st ps h);
  output = b.output ∙ ap (λ x. s.output ++ x) (said_as_new n st ps h);
  active = b.active;
}

new_position :
    (n : List ℕ) (ps : List Player) → position n (player (take namelen n) 0 ∷ ps) ≡ some 0
unfolding position
new_position n ps = rw (named-take n n, named_self n) refl

find_new :
    (n : List ℕ) (ps : List Player)
    → position n ps ≡ none
    → find_player true n ps ≡ (some 0, player (take namelen n) 0 ∷ ps)
unfolding find_player found_or_new
find_new n ps h = ap (found_or_new true n ps) h

find_found :
    (room : Bool) (n : List ℕ) (i : ℕ) (ps : List Player)
    → position n ps ≡ some i
    → find_player room n ps ≡ (some i, ps)
unfolding find_player found_or_new
find_found room n i ps h = ap (found_or_new room n ps) h

signal_start_lem :
    (msg : Signal) (s : Helper)
    → IsDistinct s.players
    → Done (Told msg.name playing s.players s) (signal_start true msg s)
unfolding signal_start
signal_start_lem msg s d =
    let n = msg.name in
    let ps = s.players in
    let new = player (take namelen n) 0 ∷ ps in
    elim (Option-cases (position n ps)) [
      | inl e ↦
          subst (λ f. Done (Told n playing ps s) (start_at f s)) (sym (find_new n ps e))
            (new_lem n playing ps s (start_at (some 0, new) s) e
              (start_at_lem n 0 new s (new_position n ps) (insert-IsDistinct n 0 ps e d)))
      | inr (i, e) ↦
          subst (λ f. Done (Told n playing ps s) (start_at f s)) (sym (find_found true n i ps e))
            (start_at_lem n i ps s e d)
    ]

signal_stop_lem :
    (st : Status) (msg : Signal) (s : Helper)
    → Stopping st
    → IsDistinct s.players
    → Done (Told msg.name st s.players s) (signal_stop true msg s)
unfolding signal_stop
signal_stop_lem st msg s u d =
    let n = msg.name in
    let ps = s.players in
    let new = player (take namelen n) 0 ∷ ps in
    elim (Option-cases (position n ps)) [
      | inl e ↦
          subst (λ f. Done (Told n st ps s) (stop_at f s)) (sym (find_new n ps e))
            (new_lem n st ps s (stop_at (some 0, new) s) e
              (stop_at_lem n st 0 new s u (new_position n ps) (insert-IsDistinct n 0 ps e d)))
      | inr (i, e) ↦
          subst (λ f. Done (Told n st ps s) (stop_at f s)) (sym (find_found true n i ps e))
            (stop_at_lem n st i ps s u e d)
    ]

abbrev pub notice : Signal → Status → Signal
notice msg st = record msg { playback_status = word st }

right_unit : (o : Option Helper) → unless_exit o (λ s. some s) ≡ o
unfolding unless_exit
right_unit none = refl
right_unit (some s) = refl

-- For a status of the three that the program knows, and while `malloc` has memory, the handlers of
-- a parsed message do what `Told` says: no other name's entry changes, the entry of the message's
-- name and the lines printed follow from its entry before, and each name keeps at most one entry.
pub choose_handler-Told :
    (msg : Signal) (st : Status) (s : Helper)
    → IsDistinct s.players
    → Done (Told msg.name st s.players s) (choose_handler true (notice msg st) s)
unfolding choose_handler choose_from call unless_exit same_upto same
choose_handler-Told msg playing s d =
    subst (Done (Told msg.name playing s.players s))
      (sym (right_unit (signal_start true (notice msg playing) s)))
      (signal_start_lem (notice msg playing) s d)
choose_handler-Told msg paused s d =
    subst (Done (Told msg.name paused s.players s))
      (sym (right_unit (signal_stop true (notice msg paused) s)))
      (signal_stop_lem paused (notice msg paused) s tt d)
choose_handler-Told msg stopped s d =
    subst (Done (Told msg.name stopped s.players s))
      (sym (right_unit (signal_stop true (notice msg stopped) s)))
      (signal_stop_lem stopped (notice msg stopped) s tt d)
