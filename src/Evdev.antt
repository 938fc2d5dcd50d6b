-- ===== src/Evdev.antt =====
-- kmod/framework_evdev.c: the evdev connector, here its state and the functions that the callout system
-- uses. The functions are `framework_evdev_…`. The only interrupt function that the
-- driver sets is `framework_callout_inputintr`.
pub mod Names
pub mod Bindings
use framework_kmod.Base.{
  Action, Bool, List, Mutex, Option, Slot, arith, branch, false, free, gets, modify, mtx_lock,
  mtx_unlock, none, ok, pure, true, ℕ, ◌≡◌, ◌>>=◌, ◌>>◌,
}
use framework_kmod.Evthread.{Ethread}

pub data IntrFunc : Type 0 where
  callout_inputintr : IntrFunc

-- `struct framework_evdev_binding_t`
pub record Binding : Type 0 where
  pub evdev_device : Option ℕ
  pub listener_thread : Slot Ethread

-- `struct framework_evdev_t`; the bindings start at the head of their list. The context that is set with the function
-- is always the callout structure.
pub record Evdev : Type 0 where
  pub bindings : List Binding
  pub last_input : ℕ
  pub cbfunc : Option IntrFunc
  pub active : Bool
  pub lock : Mutex
  pub state : ℕ

abbrev pub put_lock : Mutex → Evdev → Evdev
put_lock m s = record s { lock = m }

abbrev lock : Action Evdev (Unit {0})
lock = mtx_lock (λ s. s.lock) put_lock

abbrev unlock : Action Evdev (Unit {0})
unlock = mtx_unlock (λ s. s.lock) put_lock

unfoldable pub getlastinput : Action Evdev ℕ
getlastinput = do lock; tval ← gets (λ s. s.last_input); unlock; pure tval

unfoldable pub setintrfunc : Option IntrFunc → Action Evdev (Unit {0})
setintrfunc cbfunc = do lock; modify (λ s. record s { cbfunc = cbfunc }); unlock

-- `framework_evdev_oninput` up to its callback: whether the function is called, and which. `now` is
-- `time_uptime`.
unfoldable pub oninput : ℕ → Action Evdev (Option IntrFunc)
oninput now = do
  active ← gets (λ s. s.active)
  branch active
      (do
        lock
        modify (λ s. record s { last_input = now })
        local_cbfunc ← gets (λ s. s.cbfunc)
        unlock
        pure local_cbfunc)
      (pure none)

pub getlastinput_lem : (s : Evdev) → s.lock ≡ free → getlastinput s ≡ ok s.last_input s
unfolding getlastinput
getlastinput_lem s f = ground arith

pub setintrfunc_lem :
    (f : Option IntrFunc) (s : Evdev)
    → s.lock ≡ free
    → setintrfunc f s ≡ ok tt (record s { cbfunc = f })
unfolding setintrfunc
setintrfunc_lem f s e = ground arith

pub oninput_lem :
    (now : ℕ) (s : Evdev)
    → s.lock ≡ free
    → s.active ≡ true
    → oninput now s ≡ ok s.cbfunc (record s { last_input = now })
unfolding oninput
oninput_lem now s f a = ground arith

pub oninput_off : (now : ℕ) (s : Evdev) → s.active ≡ false → oninput now s ≡ ok none s
unfolding oninput
oninput_off now s a = ground arith
