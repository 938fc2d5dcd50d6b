-- ===== src/Examples/Places.antt =====
-- The code of the two threads of a session, place by place.
use framework_kmod.Base.{◌∷◌, [], none, refl}
use framework_kmod.Bench.{Bench, env}
use framework_kmod.Evthread.{Client, Session, new_client}
use framework_kmod.Evthread.Shutdown.{listener, setter, idle, loop_head}
use framework_kmod.Evthread.Shutdown.Code.{Places}
use framework_kmod.Evthread.Shutdown.Code.Running.{stands}
use framework_kmod.Evthread.Shutdown.Code.Executions.{
  Execution, code, code, notified, runs, started,
}
use framework_kmod.Evthread.Shutdown.Code.Matching.{Matches, code-Matches}
use framework_kmod.Examples.Whole.{input}

abbrev at_battery : Bench
at_battery = env (1 ∷ [])

abbrev origin : Places
origin = stands loop_head idle none

-- A client with a press of key 225.
abbrev pressed : Client
pressed = record (new_client 16 3) { ec_buffer = λ n. record { code = 225; value = 1 } }

-- The callback is set, the listener falls asleep, the key wakes it up, and it takes the mutex.
abbrev woken_up : (p : Places) × (s : Session Bench) × Execution input 16 3 p s
unfolding code
woken_up =
    let asleep =
      runs
        (runs
          (runs (runs (runs (started at_battery) setter refl refl) listener refl refl) listener refl
            refl)
          listener refl refl)
        listener refl refl in
    (_, _, runs (notified asleep refl refl pressed) listener refl refl)

code-Matches_example : Matches input listener woken_up.0 woken_up.1
unfolding woken_up
code-Matches_example = code-Matches input woken_up.2 listener refl
