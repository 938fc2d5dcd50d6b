-- ===== src/Evdev/Bindings.antt =====
-- kmod/framework_evdev.c: the list of bindings, from `framework_evdev_init` with its callback
-- `framework_evdev_matchdevs` to `framework_evdev_destroy`.
pub mod Attached
pub mod Chosen
use framework_kmod.Base.{
  Action, Bool, List, Mutex, Outcome, Slot, [], branch, codes, deref, false, fault, gets, modify,
  mtx_destroy, mtx_init, mtx_lock, mtx_unlock, none, null, null_pointer, ok, pure, some, true, ℕ,
  ◌%◌, ◌*◌, ◌==◌, ◌^◌, ◌||◌, ◌∷◌, ◌>>=◌, ◌>>◌,
}
use framework_kmod.Kernel.{Kernel, InputApi}
use framework_kmod.Cdevs.{Match, matchcdev_drv1}
use framework_kmod.Evthread.{Handle, Ethread, evdev_oninput, setcb, Others}
use framework_kmod.Evthread.Calls.{at_handle, registerclient, unregisterclient}
use framework_kmod.Evthread.Calls as Calls
use framework_kmod.Evdev.{Evdev, Binding, put_lock}
use framework_kmod.Evdev.Names.{matchname}

-- `framework_evdev`, and the kernel.
pub record EvdevSys (E : Type 0) : Type 0 where
  pub evdev : Evdev
  pub env : E

module _ {E : Type 0} where
  abbrev pub put_evdev : Evdev → EvdevSys E → EvdevSys E
  put_evdev v s = record s { evdev = v }

  abbrev pub set_lock : Mutex → EvdevSys E → EvdevSys E
  set_lock m s = put_evdev (put_lock m s.evdev) s

  abbrev lock : Action (EvdevSys E) (Unit {0})
  lock = mtx_lock (λ s. s.evdev.lock) set_lock

  abbrev unlock : Action (EvdevSys E) (Unit {0})
  unlock = mtx_unlock (λ s. s.evdev.lock) set_lock

  abbrev pub put_bindings : List Binding → EvdevSys E → EvdevSys E
  put_bindings bs s = put_evdev (record (s.evdev) { bindings = bs }) s

  module _ {A : Type 0} where
    abbrev headed :
        List Binding → Binding → Outcome (Handle E) A → EvdevSys E → Outcome (EvdevSys E) A
    headed bs b (ok a h) s =
        ok a
          (record (put_bindings (record b { listener_thread = h.pointer } ∷ bs) s) { env = h.env })
    headed bs b (fault f) s = fault f

    abbrev at_head : Action (Handle E) A → List Binding → Action (EvdevSys E) A
    at_head m [] s = fault null_pointer
    at_head m (b ∷ bs) s = headed bs b (m (record { pointer = b.listener_thread; env = s.env })) s

    -- A call with the thread of the binding that was inserted last.
    abbrev pub on_head : Action (Handle E) A → Action (EvdevSys E) A
    on_head m s = at_head m s.evdev.bindings s

    abbrev kept : Outcome (Handle E) A → EvdevSys E → Outcome (EvdevSys E) A
    kept (ok a h) s = ok a (record s { env = h.env })
    kept (fault f) s = fault f

    -- A call with a thread that stands in no list any more.
    abbrev pub detached : Slot Ethread → Action (Handle E) A → Action (EvdevSys E) A
    detached p m s = kept (m (record { pointer = p; env = s.env })) s

-- DEF_RING_REPORTS
abbrev ring_reports : ℕ
ring_reports = 8

abbrev pub size_of : ℕ → ℕ
size_of ev_report_size = ev_report_size * ring_reports % 2 ^ 64

module _ {E : Type 0} (i : InputApi E) where
  -- The thread of a new binding, with its callback. The pointer to it is never null.
  pub create : ℕ → E → Outcome (Handle E) (Unit {0})
  create dev e =
      at_handle (setcb (some evdev_oninput)) (Calls.init i (size_of (i.ev_report_size dev)) dev e)

  pub insert : ℕ → Outcome (Handle E) (Unit {0}) → Action (EvdevSys E) (Unit {0})
  insert dev (fault f) s = fault f
  insert dev (ok _ h) s =
      (do
        modify (λ s. record s { env = h.env })
        lock
        modify (λ s.
            put_bindings
              (record { evdev_device = some dev; listener_thread = h.pointer } ∷ s.evdev.bindings)
              s)
        unlock)
        s

  pub bind : ℕ → Action (EvdevSys E) ℕ
  unfolding create insert
  bind dev = do
    (λ s. insert dev (create dev s.env) s)
    on_head (at_handle (registerclient i dev))
    pure 0

  abbrev pub listened : ℕ → Bool
  listened dev = matchname (i.ev_shortname dev) false || matchname (i.ev_name dev) true

  unfoldable pub matchdevs : Match (EvdevSys E)
  unfolding bind
  matchdevs name drv_data = do dev ← deref drv_data; branch (listened dev) (bind dev) (pure 0)

module _ {E : Type 0} (k : Kernel E) (i : InputApi E) where
  unfoldable pub init : Action (EvdevSys E) ℕ
  unfolding matchdevs
  init = do
    modify (λ s. put_evdev (record (s.evdev) { bindings = []; cbfunc = none; active = true }) s)
    mtx_init (λ s. s.evdev.lock) set_lock
    devices ← gets (λ s. k.cdevp_list s.env)
    error ← matchcdev_drv1 (codes "input/event") (some (matchdevs i)) devices
    modify (λ s. put_evdev (record (s.evdev) { state = 1 }) s)
    pure error

module _ {E : Type 0} (i : InputApi E) (others : Others E) where
  -- `framework_evthread_unregisterclient` and `framework_evthread_destroy`
  abbrev end_thread : Action (Handle E) ℕ
  end_thread = do at_handle (unregisterclient i); Calls.destroy i others

  pub unbind : Slot Ethread → Action (EvdevSys E) (Unit {0})
  unbind null = pure tt
  unbind p = do unlock; detached p end_thread; lock

  -- The `while` loop.
  pub unbind_all : List Binding → Action (EvdevSys E) (Unit {0})
  unfolding unbind
  unbind_all [] = pure tt
  unbind_all (b ∷ bs) = do modify (put_bindings bs); unbind b.listener_thread; unbind_all bs

  pub release : Action (EvdevSys E) ℕ
  unfolding unbind_all
  release = do
    lock
    modify (λ s. put_evdev (record (s.evdev) { cbfunc = none; active = false }) s)
    bindings ← gets (λ s. s.evdev.bindings)
    unbind_all bindings
    unlock
    mtx_destroy (λ s. s.evdev.lock) set_lock
    modify (λ s. put_evdev (record (s.evdev) { state = 0 }) s)
    pure 0

  unfoldable pub destroy : Action (EvdevSys E) ℕ
  unfolding release
  destroy = do state ← gets (λ s. s.evdev.state); branch (state == 0) (pure 0) release
