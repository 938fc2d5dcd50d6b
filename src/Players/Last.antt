-- ===== src/Players/Last.antt =====
-- Which players the helper takes for playing, from the start of the program on.
use framework_kmod.Base.{
  Bool, Bool-cases, List, Option, [], ap, arith, false, if◌then◌else◌, inl, inr, none, refl, some,
  true, ℕ, ◌==◌, ◌∙◌, ◌∷◌, ◌≡◌, ◌≤◌, ◌||◌, ◌⊎◌,
}
use framework_kmod.Players.{
  Helper, main_loop, main, started, Program, exited, looped, ex_unavailable,
}
use framework_kmod.Players.Playing.{lookup, named}
use framework_kmod.Players.Notices.{Status, playing, paused, stopped, told, Done}
use framework_kmod.Players.History.{
  Report, After, Done-map, entry_after, all_allowed, events_of, main_loop-entries,
}

abbrev pub is_playing : Option ℕ → Bool
is_playing none = false
is_playing (some k) = k == 1

-- A state is 0 or 1.
abbrev pub IsLegit : Option ℕ → Type 0
IsLegit none = Unit {0}
IsLegit (some k) = k ≤ 1

abbrev pub starts : Status → Bool
starts playing = true
starts paused = false
starts stopped = false

-- Whether the last report of the name `m` is that it plays; `b` if there is none.
abbrev pub last_playing : List ℕ → List Report → Bool → Bool
last_playing m [] b = b
last_playing m (r ∷ rs) b = last_playing m rs (if named r.iface m then starts r.status else b)

told_playing : (st : Status) (e : Option ℕ) → IsLegit e → is_playing (told st e) ≡ starts st
told_playing playing none l = refl
told_playing playing (some k) l = ground arith
told_playing paused none l = refl
told_playing paused (some k) l = ground arith
told_playing stopped none l = refl
told_playing stopped (some k) l = ground arith

told-IsLegit : (st : Status) (e : Option ℕ) → IsLegit e → IsLegit (told st e)
told-IsLegit playing none l = ground arith
told-IsLegit playing (some k) l = ground arith
told-IsLegit paused none l = ground arith
told-IsLegit paused (some k) l = ground arith
told-IsLegit stopped none l = ground arith
told-IsLegit stopped (some k) l = ground arith

last_lem :
    (m : List ℕ) (rs : List Report) (e : Option ℕ)
    → IsLegit e
    → is_playing (entry_after m rs e) ≡ last_playing m rs (is_playing e)
last_lem m [] e l = refl
last_lem m (r ∷ rs) e l = elim (Bool-cases (named r.iface m)) [
  | inl y ↦ rw y (
      last_lem m rs (told r.status e) (told-IsLegit r.status e l)
      ∙ ap (last_playing m rs) (told_playing r.status e l))
  | inr z ↦ rw z (last_lem m rs e l)
]

main_loop-playing :
    (rs : List Report)
    → all_allowed rs ≡ true
    → Done
        (λ t.
          (t.active ≡ true)
          × ((m : List ℕ) → is_playing (lookup m t.players) ≡ last_playing m rs false))
        (main_loop (events_of rs) started)
main_loop-playing rs h =
    Done-map (After rs started) _ (main_loop (events_of rs) started)
      (λ t a. (a.active, λ m. ap is_playing (a.entries m) ∙ last_lem m rs none tt))
      (main_loop-entries rs started h tt refl)

-- The program runs, and what is so of its state; or it has ended with a code.
abbrev pub Runs : (Helper → Type 0) → Program → Type 0
Runs P (exited code) = ⊥
Runs P (looped o) = Done P o

-- The program ends with EX_UNAVAILABLE exactly if it cannot get the bus or cannot subscribe.
-- Otherwise, after any reports of players (signals of which the last changed property is the
-- playback status, with values of any type before it, of at most 64 containers in one another),
-- with memory for `malloc`, it is running, and it holds a name for playing exactly if the last
-- report of that name, cut to 254 bytes, said so.
pub main-playing :
    (no_bus no_match : Bool) (rs : List Report)
    → all_allowed rs ≡ true
    → ((no_bus || no_match ≡ true) × (main no_bus no_match (events_of rs) ≡ exited ex_unavailable))
      ⊎ ((no_bus || no_match ≡ false)
          × Runs
              (λ t.
                (t.active ≡ true)
                × ((m : List ℕ) → is_playing (lookup m t.players) ≡ last_playing m rs false))
              (main no_bus no_match (events_of rs)))
unfolding main
main-playing true b rs h = inl (refl, refl)
main-playing false true rs h = inl (refl, refl)
main-playing false false rs h = inr (refl, main_loop-playing rs h)
