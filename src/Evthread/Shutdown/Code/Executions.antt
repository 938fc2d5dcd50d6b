-- ===== src/Evthread/Shutdown/Code/Executions.antt =====
-- kmod/framework_evdev_thread.c: executions of the code of the two threads, and what the interleaving model says of them.
use framework_kmod.Base.{
  Fault, deadlock, Mutex, Slot, Action, Bool, false, free, live, none, ok, pure, some, true, ℕ,
  ◌>>◌, ◌≡◌,
}
use framework_kmod.Kernel.{InputApi}
use framework_kmod.Evthread.{
  Client, Session, evdev_oninput, new_ethread, put_ethread, put_env, setcb,
}
use framework_kmod.Evthread.Shutdown.{
  Actor, Listener, born, destroyer, device, idle, listener, setter,
}
use framework_kmod.Evthread.Shutdown.Shape.{begun}
use framework_kmod.Evthread.Shutdown.Code.{Places, all_roused, at_destroyer, at_listener}
use framework_kmod.Evthread.Shutdown.Code.Running.{pauses, stopped, stands, waits}

-- Who has nothing to run at these places.
abbrev pub rests : Actor → Places → Bool
rests listener p = waits p.listener
rests destroyer p = pauses p.destroyer
rests setter p = begun p.destroyer
rests device p = true

abbrev is_free : Mutex → Bool
is_free free = true
is_free m = false

abbrev pub is_unlocked : Slot Client → Bool
is_unlocked (live c) = is_free c.ec_buffer_mtx
is_unlocked s = false

-- With another buffer of events in the client.
abbrev pub filled : {E : Type 0} → Client → Session E → Session E
filled c s =
    put_ethread (record (s.ethread) { evdev_client = live (record c { ec_buffer_mtx = free }) }) s

-- How the code of a thread stops where the model has no step.
abbrev pub stops : Actor → Listener → Fault
stops listener l = stopped l
stops a l = deadlock

module _ {E : Type 0} (i : InputApi E) where
  -- What a thread runs next. `setter` is `framework_evthread_setcb`.
  unfoldable pub code : Actor → Places → Action (Session E) Places
  unfolding at_listener at_destroyer setcb
  code listener p = at_listener i pure p.listener p
  code destroyer p = at_destroyer i pure p.destroyer p
  code setter p = setcb (some evdev_oninput) >> pure p
  code device p = pure p

  -- From `framework_evthread_init` on, with the thread started: the threads run in any order, the
  -- kernel changes, and events come in and wake up who sleeps, before the destruction begins and
  -- while nobody holds the mutex of the client.
  pub data Execution (size evdev : ℕ) : Places → Session E → Type 0 where
    started :
        (e : E)
        → Execution size evdev
            (stands born idle none)
            (record { ethread = new_ethread size evdev; env = e })
    runs :
        {p q : Places} {s t : Session E}
        → Execution size evdev p s
        → (a : Actor) → rests a p ≡ false
        → code a p s ≡ ok q t
        → Execution size evdev q t
    elsewhere :
        {p : Places} {s : Session E}
        → Execution size evdev p s
        → (e : E) → Execution size evdev p (put_env e s)
    notified :
        {p : Places} {s : Session E}
        → Execution size evdev p s
        → p.destroyer ≡ idle
        → is_unlocked s.ethread.evdev_client ≡ true
        → (c : Client) → Execution size evdev (all_roused p) (filled c s)
