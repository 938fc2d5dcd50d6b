-- ===== src/Evthread/Shutdown/Ending.antt =====
-- The destruction of a session ends, and what it waits for.
use framework_kmod.Base.{
  Ends, P-Ends, moves, moves_lem, &&_both, after_not, Bool, Bool-cases, Option, arith, false, inl,
  inr, ltb, none, not, refl, some, subst, true, ℕ, ◌&&◌, ◌+◌, ◌<◌, ◌||◌, ◌≡◌,
}
use framework_kmod.Evthread.Shutdown.{
  Listener, born, loop_head, checking, arming, sleeping, woken, working, tested, window, calling,
  crashed, closing_turn, leaving, marked, ending, unflagged, gone, Destroyer, idle, switched,
  locking, flagged, asleep, roused, past, released, done, Shared, Actor, listener, destroyer, step,
  Reachable,
}
use framework_kmod.Evthread.Shutdown.Shape.{
  begun, Shaped, Reachable-Shaped, everywhere, everywhere_sound, step-Shaped,
}

-- A listener that has tested the callback, and is to read it again; or that has called null.
abbrev pub exposed : Listener → Bool
exposed tested = true
exposed window = true
exposed crashed = true
exposed l = false

abbrev pub is_done : Destroyer → Bool
is_done (done slept) = true
is_done d = false

abbrev listener_rank : Listener → ℕ
listener_rank born = 17
listener_rank loop_head = 16
listener_rank checking = 15
listener_rank arming = 14
listener_rank sleeping = 13
listener_rank woken = 12
listener_rank working = 11
listener_rank tested = 10
listener_rank window = 9
listener_rank calling = 8
listener_rank crashed = 2
listener_rank closing_turn = 7
listener_rank leaving = 6
listener_rank marked = 5
listener_rank ending = 4
listener_rank unflagged = 3
listener_rank gone = 1

abbrev destroyer_rank : Destroyer → ℕ
destroyer_rank idle = 9
destroyer_rank switched = 8
destroyer_rank locking = 7
destroyer_rank flagged = 6
destroyer_rank asleep = 5
destroyer_rank roused = 4
destroyer_rank (past slept) = 3
destroyer_rank (released slept) = 2
destroyer_rank (done slept) = 1

rank : Shared → ℕ
rank s = listener_rank s.listener + destroyer_rank s.destroyer

-- In the course of a destruction, with no null call ahead.
abbrev pub under_way : Shared → Bool
under_way s = begun s.destroyer && not (exposed s.listener)

abbrev advances : Shared → Option Shared → Bool
advances s none = true
advances s (some t) = under_way t && ltb (rank t) (rank s)

abbrev goes_on : Actor → Shared → Bool
goes_on a s =
    not (under_way s)
    || advances s (step a s)
      && (is_done s.destroyer || moves (step listener s) || moves (step destroyer s))

all_go_on : everywhere goes_on ≡ true
unfolding step rank
all_go_on = refl

goes_on_lem :
    (a : Actor) (s : Shared)
    → Shaped s
    → under_way s ≡ true
    → (advances s (step a s) ≡ true)
      × (is_done s.destroyer || moves (step listener s) || moves (step destroyer s) ≡ true)
goes_on_lem a s w u =
    &&_both _ _ (after_not (under_way s) _ u (everywhere_sound goes_on s a all_go_on w))

advances_lem :
    (s t : Shared) → advances s (some t) ≡ true → (under_way t ≡ true) × (rank t < rank s)
advances_lem s t h = ground arith

advance_lem :
    (a : Actor) (s t : Shared)
    → Shaped s
    → under_way s ≡ true
    → step a s ≡ some t
    → (under_way t ≡ true) × (rank t < rank s)
advance_lem a s t w u e =
    advances_lem s t (subst (λ o. advances s o ≡ true) e (goes_on_lem a s w u).0)

go_on_lem :
    (s : Shared)
    → Shaped s
    → under_way s ≡ true
    → is_done s.destroyer ≡ false
    → (a : Actor) × (t : Shared) × (step a s ≡ some t)
go_on_lem s w u n = elim (Bool-cases (moves (step listener s))) [
  | inl m ↦ let f = moves_lem (step listener s) m in (listener, f.0, f.1)
  | inr m ↦
      let g = (goes_on_lem listener s w u).1 in
      let f = moves_lem (step destroyer s) (ground arith) in (destroyer, f.0, f.1)
]

-- Once the destruction of a session has begun, and the listener does not stand between its test of
-- the callback and its call, every run of the two threads, whoever is scheduled, comes to the end
-- of the destruction: no state before has no next step, and no run avoids it.
pub destroy-Ends :
    {s : Shared} → Reachable s → under_way s ≡ true → Ends step (λ t. is_done t.destroyer) s
destroy-Ends {s} r u =
    P-Ends step (λ t. is_done t.destroyer) (λ t. Shaped t × (under_way t ≡ true)) rank
      (λ a t v p e. let f = advance_lem a t v p.0 p.1 e in ((step-Shaped a t v p.0 e, f.0), f.1))
      (λ t p n. go_on_lem t p.0 p.1 n) s (Reachable-Shaped r, u)
