-- ===== src/Evthread/Shutdown/Shape.antt =====
-- The shape of every reachable state: where the two threads stand determines all flags but one, and
-- some pairs of places never occur together.
use framework_kmod.Base.{
  bool_finite, Reach-keeps, all_four, all_four_at, eqb, eqb_eq, Bool, Option, arith, false,
  if◌then◌else◌, none, not, refl, some, subst, sym, true, ◌&&◌, ◌||◌, ◌≡◌,
}
use framework_kmod.Evthread.Shutdown.{
  Listener, born, loop_head, checking, arming, sleeping, working, tested, window, calling, crashed,
  closing_turn, leaving, marked, ending, unflagged, gone, Destroyer, idle, switched, locking,
  flagged, asleep, roused, past, released, done, Shared, Actor, step, Reachable,
}
use framework_kmod.Evthread.Shutdown.Values.{listener_finite, destroyer_finite, actor_finite}

abbrev pub begun : Destroyer → Bool
begun idle = false
begun d = true

-- Whether the mutex is held by the listener, or by the destroyer.
abbrev pub listener_holds : Listener → Bool
listener_holds checking = true
listener_holds arming = true
listener_holds working = true
listener_holds tested = true
listener_holds closing_turn = true
listener_holds ending = true
listener_holds unflagged = true
listener_holds l = false

abbrev pub destroyer_holds : Destroyer → Bool
destroyer_holds locking = true
destroyer_holds flagged = true
destroyer_holds (past slept) = true
destroyer_holds d = false

abbrev counted : Listener → Bool
counted born = false
counted unflagged = false
counted gone = false
counted l = true

abbrev ended : Listener → Bool
ended marked = true
ended ending = true
ended unflagged = true
ended gone = true
ended l = false

-- The state for two places, and for whether the callback is set.
abbrev pub shape : Listener → Destroyer → Bool → Shared
shape l d c = record {
  active = not (begun d);
  cbfunc = c;
  thread = counted l;
  shutdown = ended l;
  locked = listener_holds l || destroyer_holds d;
  listener = l;
  destroyer = d;
}

-- While nothing is destroyed the listener does not end.
abbrev turning : Listener → Bool
turning leaving = false
turning crashed = false
turning l = not (ended l)

-- A listener that has seen a callback, and has not returned from it.
abbrev with_callback : Listener → Bool
with_callback tested = true
with_callback window = true
with_callback calling = true
with_callback l = false

-- A listener that may still wake the destroyer up, or has crashed.
abbrev awaited : Listener → Bool
awaited born = false
awaited arming = false
awaited sleeping = false
awaited gone = false
awaited l = true

abbrev is_gone : Listener → Bool
is_gone gone = true
is_gone l = false

-- A listener that the destroyer does not wait for.
abbrev overlooked : Listener → Bool
overlooked born = true
overlooked loop_head = true
overlooked checking = true
overlooked leaving = true
overlooked l = ended l

abbrev not_both : Listener → Destroyer → Bool
not_both l d = not (listener_holds l && destroyer_holds d)

abbrev not_asleep : Listener → Bool
not_asleep sleeping = false
not_asleep l = true

-- Which places occur together.
abbrev pub fits : Listener → Destroyer → Bool → Bool
fits l idle c = turning l && (c || not (with_callback l))
fits l switched c = not c
fits l locking c = not c && not_both l locking
fits l flagged c = not c && not_both l flagged && counted l && not_asleep l
fits l asleep c = not c && awaited l
fits l roused c = not c && is_gone l
fits l (past true) c = not c && is_gone l
fits l (past false) c = not c && not_both l (past false) && overlooked l
fits l (released true) c = not c && is_gone l
fits l (released false) c = not c && overlooked l
fits l (done true) c = not c && is_gone l
fits l (done false) c = not c && overlooked l

abbrev is_shaped : Shared → Bool
is_shaped t =
    eqb t.active (not (begun t.destroyer))
    && eqb t.thread (counted t.listener)
    && eqb t.shutdown (ended t.listener)
    && eqb t.locked (listener_holds t.listener || destroyer_holds t.destroyer)
    && fits t.listener t.destroyer t.cbfunc

pub record Shaped (s : Shared) : Type 0 where
  pub same : s ≡ shape s.listener s.destroyer s.cbfunc
  pub fit : fits s.listener s.destroyer s.cbfunc ≡ true

shaped_lem : (t : Shared) → is_shaped t ≡ true → Shaped t
shaped_lem t h = record {
  same = ground (
    arith,
    eqb_eq t.active (not (begun t.destroyer)),
    eqb_eq t.thread (counted t.listener),
    eqb_eq t.shutdown (ended t.listener),
    eqb_eq t.locked (listener_holds t.listener || destroyer_holds t.destroyer),
  );
  fit = ground arith;
}

abbrev keeps : Option Shared → Bool
keeps none = true
keeps (some t) = is_shaped t

-- A property of steps, tested at every shape that fits.
abbrev pub everywhere : (Actor → Shared → Bool) → Bool
everywhere p = all_four λ a l d c. if fits l d c then p a (shape l d c) else true

pub everywhere_sound :
    (p : Actor → Shared → Bool) (s : Shared) (a : Actor)
    → everywhere p ≡ true
    → Shaped s
    → p a s ≡ true
everywhere_sound p s a h w =
    let test = λ (a : Actor) (l : Listener) (d : Destroyer) (c : Bool).
      if fits l d c then p a (shape l d c) else true in
    let l = s.listener in
    let d = s.destroyer in
    let c = s.cbfunc in
    subst (λ t. p a t ≡ true) (sym w.same)
      (subst (λ b. (if b then p a (shape l d c) else true) ≡ true) w.fit
        (all_four_at test h a l d c))

steps_keep : everywhere (λ a s. keeps (step a s)) ≡ true
unfolding step
steps_keep = refl

pub step-Shaped : (a : Actor) (s t : Shared) → Shaped s → step a s ≡ some t → Shaped t
step-Shaped a s t w e =
    shaped_lem t
      (subst (λ o. keeps o ≡ true) e (everywhere_sound (λ a s. keeps (step a s)) s a steps_keep w))

pub Reachable-Shaped : {s : Shared} → Reachable s → Shaped s
Reachable-Shaped r = Reach-keeps step Shaped step-Shaped (record { same = refl; fit = refl }) r
