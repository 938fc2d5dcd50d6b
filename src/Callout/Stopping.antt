-- ===== src/Callout/Stopping.antt =====
-- kmod/framework_callout.c: `framework_callout_thread`, `framework_callout_destroy` and
-- `framework_callout_inputintr` at the same time, one access to shared memory or one lock at a time.
-- What the code does with one mutex held, and without a sleep, is one step. `locked` is the mutex
-- `lock`; the read-write lock guards `current_level` alone, which no test here depends on.
pub mod Values
pub mod Shape
pub mod Freed
pub mod Told
pub mod Code
use framework_kmod.Base.{Reach, Bool, Option, false, if◌then◌else◌, none, some, true}

-- Where the thread stands.
pub data Runner : Type 0 where
  born : Runner  -- before the interrupt function is set
  wired : Runner  -- before `framework_callout_drop` is cleared
  entering : Runner  -- before the mutex is taken for the first time
  testing : Runner  -- before `active` is tested
  asking : Runner  -- asks for the timeout, without the mutex
  judging : Runner  -- before the timeout is tested
  reading : Runner  -- reads the last input, without the mutex
  comparing : Runner  -- dims, if it is time
  setting : Runner  -- sets the brightness, without the mutex
  scheduling : Runner  -- before `msleep`
  sleeping : Runner
  woken : Runner  -- `msleep` has to take the mutex
  leaving : Runner  -- out of the loop, with the mutex given back; before `wakeup`
  gone : Runner  -- at `kthread_exit`

-- Where `framework_callout_destroy` stands. The Boolean says whether it has slept.
pub data Destroyer : Type 0 where
  idle : Destroyer  -- not called
  unwired : Destroyer  -- the interrupt function is taken away
  locking : Destroyer  -- `framework_callout_drop` is set; before the mutex is taken
  telling : Destroyer  -- before `active` is tested
  asleep : Destroyer
  roused : Destroyer  -- `msleep` has to take the mutex
  past : Bool → Destroyer  -- before the mutex is given back
  released : Bool → Destroyer  -- before the rest, which frees the memory
  done : Bool → Destroyer  -- the memory is freed

-- Where a listener stands that has input.
pub data Input : Type 0 where
  away : Input
  called : Input  -- has copied the interrupt function; before `framework_callout_drop` is tested
  using : Input  -- uses the callout structure

pub record Shared : Type 0 where
  pub active : Bool
  pub cbfunc : Bool  -- the interrupt function is set, with the structure as its context
  pub drop : Bool
  pub locked : Bool
  pub runner : Runner
  pub destroyer : Destroyer
  pub input : Input

-- After `framework_callout_init`, when the thread was started.
abbrev pub initial : Shared
initial = record {
  active = true;
  cbfunc = false;
  drop = true;
  locked = false;
  runner = born;
  destroyer = idle;
  input = away;
}

-- The thread takes its next step; where it tests the timeout, the Boolean says whether there is
-- one. `timer` ends the sleep of the thread.
pub data Actor : Type 0 where
  runner : Bool → Actor
  destroyer timer listener : Actor

abbrev go : Runner → Shared → Option Shared
go r s = some (record s { runner = r })

-- A step that takes the mutex, or gives it back.
abbrev take_lock : Runner → Shared → Option Shared
take_lock r s = if s.locked then none else some (record s { locked = true; runner = r })

abbrev drop_lock : Runner → Shared → Option Shared
drop_lock r s = some (record s { locked = false; runner = r })

-- `wakeup` on the channel of the structure.
abbrev roused_runner : Runner → Runner
roused_runner sleeping = woken
roused_runner r = r

abbrev roused_destroyer : Destroyer → Destroyer
roused_destroyer asleep = roused
roused_destroyer d = d

-- The first argument says whether the thread finds a timeout. From `asking` and `setting` the thread
-- goes on with a query of ACPI under the power mutex, which is taken to be free.
runner_step : Bool → Runner → Shared → Option Shared
runner_step t born s = some (record s { cbfunc = true; runner = wired })
runner_step t wired s = some (record s { drop = false; runner = entering })
runner_step t entering s = take_lock testing s
runner_step t testing s = if s.active then drop_lock asking s else drop_lock leaving s
runner_step t asking s = take_lock judging s
runner_step t judging s =
    if t then drop_lock reading s else drop_lock leaving (record s { active = false })
runner_step t reading s = take_lock comparing s
runner_step t comparing s = drop_lock setting s
runner_step t setting s = take_lock scheduling s
runner_step t scheduling s = drop_lock sleeping s
runner_step t sleeping s = none
runner_step t woken s = take_lock testing s
runner_step t leaving s =
    some (record s { runner = gone; destroyer = roused_destroyer s.destroyer })
runner_step t gone s = none

timer_step : Runner → Shared → Option Shared
timer_step sleeping s = go woken s
timer_step r s = none

destroyer_step : Destroyer → Shared → Option Shared
destroyer_step idle s = some (record s { cbfunc = false; destroyer = unwired })
destroyer_step unwired s = some (record s { drop = true; destroyer = locking })
destroyer_step locking s =
    if s.locked then none else some (record s { locked = true; destroyer = telling })
destroyer_step telling s =
    if s.active
    then some (record s {
      active = false;
      locked = false;
      runner = roused_runner s.runner;
      destroyer = asleep;
    })
    else some (record s { destroyer = past false })
destroyer_step asleep s = none
destroyer_step roused s =
    if s.locked then none else some (record s { locked = true; destroyer = past true })
destroyer_step (past slept) s = some (record s { locked = false; destroyer = released slept })
destroyer_step (released slept) s = some (record s { destroyer = done slept })
destroyer_step (done slept) s = none

-- `framework_evdev_oninput` with its call; the event connector is not destroyed before.
input_step : Input → Shared → Option Shared
input_step away s = if s.cbfunc then some (record s { input = called }) else none
input_step called s =
    if s.drop then some (record s { input = away }) else some (record s { input = using })
input_step using s = some (record s { input = away })

unfoldable pub step : Actor → Shared → Option Shared
unfolding runner_step timer_step destroyer_step input_step
step (runner timeout) s = runner_step timeout s.runner s
step destroyer s = destroyer_step s.destroyer s
step timer s = timer_step s.runner s
step listener s = input_step s.input s

abbrev pub Reachable : Shared → Type 0
Reachable = Reach step initial
