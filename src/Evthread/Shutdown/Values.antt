-- ===== src/Evthread/Shutdown/Values.antt =====
-- Tests at all values of the places of the listener, the destroyer and those who move.
use framework_kmod.Base.{bool_finite, Finite, Bool, arith, false, true, ◌&&◌, ◌≡◌}
use framework_kmod.Evthread.Shutdown.{
  Listener, born, loop_head, checking, arming, sleeping, woken, working, tested, window, calling,
  crashed, closing_turn, leaving, marked, ending, unflagged, gone, Destroyer, idle, switched,
  locking, flagged, asleep, roused, past, released, done, Actor, listener, destroyer, setter,
  device,
}

-- Tests at all values.
abbrev pub all_listener : (Listener → Bool) → Bool
all_listener p =
    p born
    && p loop_head
    && p checking
    && p arming
    && p sleeping
    && p woken
    && p working
    && p tested
    && p window
    && p calling
    && p crashed
    && p closing_turn
    && p leaving
    && p marked
    && p ending
    && p unflagged
    && p gone

abbrev pub all_destroyer : (Destroyer → Bool) → Bool
all_destroyer p =
    p idle
    && p switched
    && p locking
    && p flagged
    && p asleep
    && p roused
    && p (past false)
    && p (past true)
    && p (released false)
    && p (released true)
    && p (done false)
    && p (done true)

abbrev pub all_actor : (Actor → Bool) → Bool
all_actor p = p listener && p destroyer && p setter && p device

pub all_listener_sound : (p : Listener → Bool) → all_listener p ≡ true → (l : Listener) → p l ≡ true
all_listener_sound p h born = ground arith
all_listener_sound p h loop_head = ground arith
all_listener_sound p h checking = ground arith
all_listener_sound p h arming = ground arith
all_listener_sound p h sleeping = ground arith
all_listener_sound p h woken = ground arith
all_listener_sound p h working = ground arith
all_listener_sound p h tested = ground arith
all_listener_sound p h window = ground arith
all_listener_sound p h calling = ground arith
all_listener_sound p h crashed = ground arith
all_listener_sound p h closing_turn = ground arith
all_listener_sound p h leaving = ground arith
all_listener_sound p h marked = ground arith
all_listener_sound p h ending = ground arith
all_listener_sound p h unflagged = ground arith
all_listener_sound p h gone = ground arith

pub all_destroyer_sound :
    (p : Destroyer → Bool) → all_destroyer p ≡ true → (d : Destroyer) → p d ≡ true
all_destroyer_sound p h idle = ground arith
all_destroyer_sound p h switched = ground arith
all_destroyer_sound p h locking = ground arith
all_destroyer_sound p h flagged = ground arith
all_destroyer_sound p h asleep = ground arith
all_destroyer_sound p h roused = ground arith
all_destroyer_sound p h (past false) = ground arith
all_destroyer_sound p h (past true) = ground arith
all_destroyer_sound p h (released false) = ground arith
all_destroyer_sound p h (released true) = ground arith
all_destroyer_sound p h (done false) = ground arith
all_destroyer_sound p h (done true) = ground arith

pub all_actor_sound : (p : Actor → Bool) → all_actor p ≡ true → (a : Actor) → p a ≡ true
all_actor_sound p h listener = ground arith
all_actor_sound p h destroyer = ground arith
all_actor_sound p h setter = ground arith
all_actor_sound p h device = ground arith

instance abbrev pub listener_finite : Finite Listener
listener_finite = record { test_all = all_listener; sound = all_listener_sound }

instance abbrev pub destroyer_finite : Finite Destroyer
destroyer_finite = record { test_all = all_destroyer; sound = all_destroyer_sound }

instance abbrev pub actor_finite : Finite Actor
actor_finite = record { test_all = all_actor; sound = all_actor_sound }
