-- ===== src/Examples/Pieces.antt =====
-- Executions of the code of the callout thread, its destruction, and a listener.
use framework_kmod.Base.{[], true, [], free, refl, some, ◌≡◌, false, true}
use framework_kmod.Evdev.{setintrfunc}
use framework_kmod.Callout.{CalloutSys}
use framework_kmod.Callout.Stopping.{Reachable, Shared, asleep, leaving, step, using}
use framework_kmod.Callout.Stopping.Code.{Places, Who, actor, closer, thread}
use framework_kmod.Callout.Stopping.Code.Running.{Follows, code, rests, timeout_after, view}
use framework_kmod.Callout.Stopping.Code.Matching.{
  Execution, IsStarted, code-Follows, reports, runs, started,
}
use framework_kmod.Callout.Stopping.Shape.{shape}
use framework_kmod.Callout.Stopping.Code.Finishing.{Finishes}
use framework_kmod.Callout.Stopping.Code.Ending.{told-Finishes}
use framework_kmod.Bench.{Bench, display-IsReady, running}
use framework_kmod.Examples.Whole.{input as devices}
use framework_kmod.Examples.Seconds.{steady, steady-IsSteady}

abbrev fresh : CalloutSys Bench
fresh = record (running free []) { drop = true }

fresh-IsStarted : IsStarted fresh
fresh-IsStarted = record {
  sound = record {
    rw_free = refl;
    has_config = refl;
    handled = refl;
    evdev_free = refl;
    evdev_on = refl;
    ready = display-IsReady [];
  };
  unlocked = refl;
  active = refl;
  unset_func = refl;
  drops = refl;
}

-- The thread takes the mutex, and the destroyer waits for it.
abbrev contended : (p : Places) × (s : CalloutSys Bench) × Execution steady devices p s
unfolding code setintrfunc
contended =
    let entered =
      runs (runs (runs (started fresh fresh-IsStarted) thread refl refl) thread refl refl) thread
        refl refl in
    (_, _, runs (runs (reports entered refl (some 225)) closer refl refl) closer refl refl)

code-Follows_example :
    Reachable (view contended.0 contended.1)
    × ((a : Who)
        → rests a (view contended.0 contended.1) ≡ false
        → Follows
            (timeout_after steady devices a contended.0 contended.1)
            (step (actor a contended.0) (view contended.0 contended.1))
            (code steady devices a contended.0 contended.1))
unfolding contended
code-Follows_example = code-Follows steady devices steady-IsSteady contended.2

-- The thread is told to stop before it has run, and sets the interrupt function all the same; a listener
-- has a key.
abbrev closing : (p : Places) × (s : CalloutSys Bench) × Execution steady devices p s
unfolding code setintrfunc
closing =
    let four =
      runs
        (runs (runs (runs (started fresh fresh-IsStarted) closer refl refl) closer refl refl) closer
          refl refl)
        closer refl refl in
    (_, _, runs (reports four refl (some 225)) thread refl refl)

told-Finishes_example : Finishes steady devices closing.0 closing.1
unfolding closing
told-Finishes_example = told-Finishes steady devices steady-IsSteady closing.2 refl

-- The destroyer is past its test, the thread has found no timeout, and a listener uses the
-- structure.
abbrev used : Shared
used = shape leaving asleep (record { cbfunc = false; drop = true; input = using })
