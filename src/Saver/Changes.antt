-- ===== src/Saver/Changes.antt =====
-- What the loop of the screen saver helper prints.
use framework_kmod.Base.{
  foldl, ==_iff, ◌+◌, Bool, List, Option, [], ap, arith, if◌then◌else◌, none, refl, some, true, ℕ,
  ◌++◌, ◌==◌, ◌∷◌, ◌≡◌, ◌∙◌,
}
use mathlib.Core.List.{append-nil}
use framework_kmod.Saver.{
  Program, returned, and_then, Constants, Info, Saver, Line, failed_to_retrieve, Answer,
  query_failed, answered, Event, turned, running, report, turn, print_saverinfo, rest_of_turn,
  main_loop,
}

-- A turn: the answer to its query, or `none` where the query failed; and whether an event was found.
pub record Turn : Type 0 where
  pub info : Option Info
  pub found : Bool

abbrev pub answer_of : Option Info → Answer
answer_of none = query_failed
answer_of (some si) = answered si

abbrev pub events_of : List Turn → List Event
events_of [] = []
events_of (r ∷ rs) = turned (answer_of r.info) r.found ∷ events_of rs

-- The states that were answered, and the last of them.
abbrev pub states : List Turn → List ℕ
states [] = []
states (r ∷ rs) = elim (r.info) [ none ↦ states rs | some si ↦ si.state ∷ states rs ]

abbrev pub last_or : ℕ → List ℕ → ℕ
last_or d [] = d
last_or d (x ∷ xs) = last_or x xs

active_lem : (b : Bool) (p q : Program) → b ≡ true → (if b then p else q) ≡ p
active_lem b p q h = rw h refl

known_lem :
    (info : Option Info) (found : Bool) (rs : List Turn) (known : ℕ)
    → last_or (last_or known (states (record { info = info; found = found } ∷ []))) (states rs)
      ≡ last_or known (states (record { info = info; found = found } ∷ rs))
known_lem none found rs known = refl
known_lem (some si) found rs known = refl

module _ (c : Constants) where
  -- What is printed about an answer after a state that is known.
  abbrev pub news : ℕ → Option Info → List Line
  news known none = failed_to_retrieve ∷ []
  news known (some si) = if si.state == known then [] else report c si

  -- The state of the program after a turn.
  abbrev pub after : Saver → Turn → Saver
  after s r = record {
    active = s.active;
    state = last_or s.state (states (r ∷ []));
    redirected = true;
    output = s.output ++ news s.state r.info;
    slept = if r.found then s.slept else s.slept + 1;
  }

  turn_lem :
      (info : Option Info) (found : Bool) (s : Saver)
      → turn c (answer_of info) found s ≡ running (after s (record { info = info; found = found }))
  unfolding turn print_saverinfo rest_of_turn
  turn_lem none found s = ground arith
  turn_lem (some si) found s = ground (arith, append-nil s.output, ==_iff si.state s.state)

  loop_lem :
      (rs : List Turn) (s : Saver)
      → s.active ≡ true
      → main_loop c (events_of rs) s ≡ running (foldl after s rs)
  unfolding main_loop
  loop_lem [] s a = refl
  loop_lem (r ∷ rs) s a =
      active_lem s.active _ (returned s) a
      ∙ ap (λ p. and_then p (main_loop c (events_of rs))) (turn_lem r.info r.found s)
      ∙ loop_lem rs (after s r) a

  last_lem :
      (s : Saver) (rs : List Turn) (r : Turn)
      → foldl after s (rs ++ r ∷ []) ≡ after (foldl after s rs) r
  last_lem s [] r = refl
  last_lem s (q ∷ rs) r = last_lem (after s q) rs r

  state_lem : (rs : List Turn) (s : Saver) → (foldl after s rs).state ≡ last_or s.state (states rs)
  state_lem [] s = refl
  state_lem (r ∷ rs) s = state_lem rs (after s r) ∙ known_lem r.info r.found rs s.state

  -- In a run of any turns, each prints what its answer makes of the state that was answered last
  -- (or that the run began with): nothing if it is the same, a report if it is another; a query
  -- that failed prints one line. The loop goes on.
  pub main_loop-news :
      (rs : List Turn) (r : Turn) (s : Saver)
      → s.active ≡ true
      → (t : Saver) × (u : Saver) × (main_loop c (events_of rs) s ≡ running t)
        × (main_loop c (events_of (rs ++ r ∷ [])) s ≡ running u)
        × (u.output ≡ t.output ++ news (last_or s.state (states rs)) r.info)
  main_loop-news rs r s a =
      let t = foldl after s rs in
      (
        t,
        after t r,
        loop_lem rs s a,
        loop_lem (rs ++ r ∷ []) s a ∙ ap running (last_lem s rs r),
        ap (λ k. t.output ++ news k r.info) (state_lem rs s),
      )
