-- ===== src/Examples/Ending.antt =====
-- Runs of a listener and of its destruction.
use framework_kmod.Base.{start, run-Reach, Ends, run, List, [], false, refl, true, ◌∷◌, ◌≡◌}
use framework_kmod.Evthread.Shutdown.{
  Actor, listener, destroyer, setter, device, idle, switched, done, window, sleeping, gone,
  Reachable, step,
}
use framework_kmod.Evthread.Shutdown.Shape.{shape}
use framework_kmod.Evthread.Shutdown.Ending.{is_done, destroy-Ends}
use framework_kmod.Evthread.Shutdown.Races.{waited-gone}
use framework_kmod.Evthread.Shutdown.Code.Reaching.{Executed, Reachable-Executed}
use framework_kmod.Bench.{env}
use framework_kmod.Examples.Whole.{input}

-- The listener falls asleep, and the destruction begins.
abbrev begun : List Actor
begun = listener ∷ listener ∷ listener ∷ listener ∷ destroyer ∷ []

begun_reach : Reachable (shape sleeping switched false)
unfolding run step
begun_reach = run-Reach step begun start refl

destroy-Ends_example : Ends step (λ t. is_done t.destroyer) (shape sleeping switched false)
destroy-Ends_example = destroy-Ends begun_reach refl

-- From there to the end: the destroyer wakes the listener, sleeps, and is woken.
abbrev rest : List Actor
rest =
    destroyer ∷ destroyer ∷ destroyer ∷ listener ∷ listener ∷ listener ∷ listener ∷ listener
    ∷ listener ∷ listener ∷ destroyer ∷ destroyer ∷ destroyer ∷ []

rest_reach : Reachable (shape gone (done true) false)
unfolding run step
rest_reach = run-Reach step rest begun_reach refl

waited-gone_example : (shape gone (done true) false).listener ≡ gone
waited-gone_example = waited-gone rest_reach refl

-- A device has woken the listener, which has found the callback set.
abbrev notified : List Actor
notified =
    setter ∷ listener ∷ listener ∷ listener ∷ listener ∷ device ∷ listener ∷ listener ∷ listener
    ∷ []

notified_reach : Reachable (shape window idle true)
unfolding run step
notified_reach = run-Reach step notified start refl

Reachable-Executed_example : Executed input 16 3 (shape window idle true)
Reachable-Executed_example = Reachable-Executed input 16 3 (env (1 ∷ [])) notified_reach refl
