-- ===== src/Callout/Stopping/Values.antt =====
-- Tests at all values of the places of the thread, the destroyer, input and those who move.
use framework_kmod.Base.{bool_finite, Bool, Finite, all, arith, false, true, ◌&&◌, ◌≡◌}
use framework_kmod.Callout.Stopping.{
  Runner, born, wired, entering, testing, asking, judging, reading, comparing, setting, scheduling,
  sleeping, woken, leaving, gone, Destroyer, idle, unwired, locking, telling, asleep, roused, past,
  released, done, Input, away, called, using, Actor, runner, destroyer, timer, listener,
}

-- Tests at all values.
abbrev pub all_runner : (Runner → Bool) → Bool
all_runner p =
    p born
    && p wired
    && p entering
    && p testing
    && p asking
    && p judging
    && p reading
    && p comparing
    && p setting
    && p scheduling
    && p sleeping
    && p woken
    && p leaving
    && p gone

abbrev pub all_destroyer : (Destroyer → Bool) → Bool
all_destroyer p =
    p idle
    && p unwired
    && p locking
    && p telling
    && p asleep
    && p roused
    && p (past false)
    && p (past true)
    && p (released false)
    && p (released true)
    && p (done false)
    && p (done true)

abbrev pub all_actor : (Actor → Bool) → Bool
all_actor p = p (runner false) && p (runner true) && p destroyer && p timer && p listener

-- What the two places leave open.
pub record Rest : Type 0 where
  pub cbfunc : Bool
  pub drop : Bool
  pub input : Input

abbrev pub all_input : (Bool → Bool → Input → Bool) → Bool
all_input p = all λ c. all λ r. p c r away && p c r called && p c r using

abbrev pub all_rest : (Rest → Bool) → Bool
all_rest p = all_input λ c r i. p (record { cbfunc = c; drop = r; input = i })

pub all_runner_sound : (p : Runner → Bool) → all_runner p ≡ true → (r : Runner) → p r ≡ true
all_runner_sound p h born = ground arith
all_runner_sound p h wired = ground arith
all_runner_sound p h entering = ground arith
all_runner_sound p h testing = ground arith
all_runner_sound p h asking = ground arith
all_runner_sound p h judging = ground arith
all_runner_sound p h reading = ground arith
all_runner_sound p h comparing = ground arith
all_runner_sound p h setting = ground arith
all_runner_sound p h scheduling = ground arith
all_runner_sound p h sleeping = ground arith
all_runner_sound p h woken = ground arith
all_runner_sound p h leaving = ground arith
all_runner_sound p h gone = ground arith

pub all_destroyer_sound :
    (p : Destroyer → Bool) → all_destroyer p ≡ true → (d : Destroyer) → p d ≡ true
all_destroyer_sound p h idle = ground arith
all_destroyer_sound p h unwired = ground arith
all_destroyer_sound p h locking = ground arith
all_destroyer_sound p h telling = ground arith
all_destroyer_sound p h asleep = ground arith
all_destroyer_sound p h roused = ground arith
all_destroyer_sound p h (past false) = ground arith
all_destroyer_sound p h (past true) = ground arith
all_destroyer_sound p h (released false) = ground arith
all_destroyer_sound p h (released true) = ground arith
all_destroyer_sound p h (done false) = ground arith
all_destroyer_sound p h (done true) = ground arith

pub all_actor_sound : (p : Actor → Bool) → all_actor p ≡ true → (a : Actor) → p a ≡ true
all_actor_sound p h (runner false) = ground arith
all_actor_sound p h (runner true) = ground arith
all_actor_sound p h destroyer = ground arith
all_actor_sound p h timer = ground arith
all_actor_sound p h listener = ground arith

all_input_sound :
    (p : Bool → Bool → Input → Bool) (c r : Bool) (i : Input) → all_input p ≡ true → p c r i ≡ true
all_input_sound p false false away h = ground arith
all_input_sound p false true away h = ground arith
all_input_sound p true false away h = ground arith
all_input_sound p true true away h = ground arith
all_input_sound p false false called h = ground arith
all_input_sound p false true called h = ground arith
all_input_sound p true false called h = ground arith
all_input_sound p true true called h = ground arith
all_input_sound p false false using h = ground arith
all_input_sound p false true using h = ground arith
all_input_sound p true false using h = ground arith
all_input_sound p true true using h = ground arith

pub all_rest_sound : (p : Rest → Bool) → all_rest p ≡ true → (x : Rest) → p x ≡ true
all_rest_sound p h x =
    all_input_sound (λ c r i. p (record { cbfunc = c; drop = r; input = i })) x.cbfunc x.drop
      x.input h

instance abbrev pub runner_finite : Finite Runner
runner_finite = record { test_all = all_runner; sound = all_runner_sound }

instance abbrev pub destroyer_finite : Finite Destroyer
destroyer_finite = record { test_all = all_destroyer; sound = all_destroyer_sound }

instance abbrev pub actor_finite : Finite Actor
actor_finite = record { test_all = all_actor; sound = all_actor_sound }

instance abbrev pub rest_finite : Finite Rest
rest_finite = record { test_all = all_rest; sound = all_rest_sound }
