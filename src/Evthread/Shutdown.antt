-- ===== src/Evthread/Shutdown.antt =====
-- kmod/framework_evdev_thread.c: `framework_evthread_func` and `framework_evthread_destroy` at the
-- same time, one access to shared memory or one lock at a time. A critical section of the session
-- mutex is one step, since nothing else is locked in it. `locked` is the mutex of the client.
pub mod Values
pub mod Shape
pub mod Ending
pub mod Races
pub mod Code
use framework_kmod.Base.{Reach, Bool, Option, false, if◌then◌else◌, none, some, true}

-- Where the listener stands.
pub data Listener : Type 0 where
  born : Listener  -- before the flag THREAD is set
  loop_head : Listener  -- before the mutex is taken
  checking : Listener  -- before `active` is tested
  arming : Listener  -- before `msleep`
  sleeping : Listener
  woken : Listener  -- `msleep` has to take the mutex
  working : Listener  -- before `cbfunc` is copied
  tested : Listener  -- the copy was not null; before the mutex is given back
  window : Listener  -- before `cbfunc` is read again
  calling : Listener  -- in the callback
  crashed : Listener  -- called null
  closing_turn : Listener  -- before `local_active` is read
  leaving : Listener  -- before the flag SHUTDOWN is set
  marked : Listener  -- before the mutex is taken
  ending : Listener  -- before the flag THREAD is cleared
  unflagged : Listener  -- before `wakeup`
  gone : Listener  -- at `kthread_exit`

-- Where `framework_evthread_destroy` stands. The Boolean says whether it has slept. What it does after
-- the mutex was given back, some of it with a lock, is one step here, from `released` to `done`.
pub data Destroyer : Type 0 where
  idle : Destroyer  -- not called
  switched : Destroyer  -- `active` and `cbfunc` are cleared
  locking : Destroyer  -- has the mutex; before THREAD is tested
  flagged : Destroyer  -- before SHUTDOWN is tested
  asleep : Destroyer
  roused : Destroyer  -- `msleep` has to take the mutex
  past : Bool → Destroyer  -- before the mutex is given back
  released : Bool → Destroyer  -- before the rest, which frees the memory
  done : Bool → Destroyer  -- the memory is freed

pub record Shared : Type 0 where
  pub active : Bool
  pub cbfunc : Bool  -- not null
  pub thread : Bool  -- the flag THREAD
  pub shutdown : Bool  -- the flag SHUTDOWN
  pub locked : Bool
  pub listener : Listener
  pub destroyer : Destroyer

-- After `framework_evthread_init`, when the thread was started.
abbrev pub initial : Shared
initial = record {
  active = true;
  cbfunc = false;
  thread = false;
  shutdown = false;
  locked = false;
  listener = born;
  destroyer = idle;
}

-- `setter` calls `framework_evthread_setcb`; `device` notifies the clients of an event.
pub data Actor : Type 0 where
  listener destroyer setter device : Actor

abbrev go : Listener → Shared → Option Shared
go l s = some (record s { listener = l })

-- A step that takes the mutex, or gives it back.
abbrev take_lock : Listener → Shared → Option Shared
take_lock l s = if s.locked then none else some (record s { locked = true; listener = l })

abbrev drop_lock : Listener → Shared → Option Shared
drop_lock l s = some (record s { locked = false; listener = l })

abbrev move : Destroyer → Shared → Option Shared
move d s = some (record s { destroyer = d })

-- `wakeup` on the channel of the client.
abbrev roused_listener : Listener → Listener
roused_listener sleeping = woken
roused_listener l = l

abbrev roused_destroyer : Destroyer → Destroyer
roused_destroyer asleep = roused
roused_destroyer d = d

abbrev wake : Shared → Shared
wake s = record s {
  listener = roused_listener s.listener;
  destroyer = roused_destroyer s.destroyer;
}

listener_step : Listener → Shared → Option Shared
listener_step born s = some (record s { thread = true; listener = loop_head })
listener_step loop_head s = take_lock checking s
listener_step checking s = if s.active then go arming s else drop_lock leaving s
listener_step arming s = drop_lock sleeping s
listener_step sleeping s = none
listener_step woken s = take_lock working s
listener_step working s = if s.cbfunc then go tested s else go closing_turn s
listener_step tested s = drop_lock window s
listener_step window s = if s.cbfunc then go calling s else go crashed s
listener_step calling s = take_lock closing_turn s
listener_step crashed s = none
listener_step closing_turn s = if s.active then drop_lock loop_head s else drop_lock leaving s
listener_step leaving s = some (record s { shutdown = true; listener = marked })
listener_step marked s = take_lock ending s
listener_step ending s = some (record s { thread = false; listener = unflagged })
listener_step unflagged s = drop_lock gone (wake s)
listener_step gone s = none

destroyer_step : Destroyer → Shared → Option Shared
destroyer_step idle s = some (record s { active = false; cbfunc = false; destroyer = switched })
destroyer_step switched s =
    if s.locked then none else some (record s { locked = true; destroyer = locking })
destroyer_step locking s =
    if s.thread then some (record (wake s) { destroyer = flagged }) else move (past false) s
destroyer_step flagged s =
    if s.shutdown
    then move (past false) s
    else some (record s { locked = false; destroyer = asleep })
destroyer_step asleep s = none
destroyer_step roused s =
    if s.locked then none else some (record s { locked = true; destroyer = past true })
destroyer_step (past slept) s = some (record s { locked = false; destroyer = released slept })
destroyer_step (released slept) s = move (done slept) s
destroyer_step (done slept) s = none

-- `framework_evdev_matchdevs` sets the callback before, and the client is disposed of before, so
-- that no device wakes it during the destruction.
before : Destroyer → Shared → Option Shared
before idle s = some s
before d s = none

device_step : Shared → Option Shared
device_step s = if s.locked then none else some (wake s)

unfoldable pub step : Actor → Shared → Option Shared
unfolding listener_step destroyer_step before device_step
step listener s = listener_step s.listener s
step destroyer s = destroyer_step s.destroyer s
step setter s = before s.destroyer (record s { cbfunc = true })
step device s = elim (before s.destroyer s) [ none ↦ none | some t ↦ device_step t ]

abbrev pub Reachable : Shared → Type 0
Reachable = Reach step initial
