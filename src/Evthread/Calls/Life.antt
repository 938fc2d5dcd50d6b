-- ===== src/Evthread/Calls/Life.antt =====
-- A session from its start to its end.
use framework_kmod.Base.{
  Action, Bool, Mutex, Option, arith, false, free, freed, if◌then◌else◌, live, modify, none, ok,
  pure, refl, some, true, ℕ, ◌>>◌, ◌≡◌,
}
use framework_kmod.Kernel.{InputApi, Answer}
use framework_kmod.Evthread.{
  Client, emptied, new_client, Session, Handle, Ethread, CbFunc, evdev_oninput, setcb, getflags,
  clearkqueue,
}
use framework_kmod.Evthread.Calls.{
  at_handle, init, registerclient, unregisterclient, destroy, stop_thread, close, dispose_locked,
  dispose, dtor, await, msleep, deregister,
}
use framework_kmod.Evthread.Listener.{Callback, begin, resume, finish}

-- The client of a device, with its mutex free.
abbrev pub owned : ℕ → Client → Client
owned dev c = record c { ec_evdev = some dev; ec_buffer_mtx = free }

-- A session, field by field.
abbrev pub ethread_at : Mutex → Bool → Client → Option CbFunc → ℕ → Ethread
ethread_at session active client cbfunc flags = record {
  session = session;
  active = active;
  evdev_client = live client;
  cbfunc = cbfunc;
  flags = flags;
}

abbrev pub at : {E : Type 0} → Mutex → Bool → Client → Option CbFunc → ℕ → E → Session E
at m a c f g e = record { ethread = ethread_at m a c f g; env = e }

module _ {E : Type 0} (i : InputApi E) where
  -- After `clearkqueue`.
  abbrev pub cleared : Option ℕ → E → E
  cleared client e = if i.knlist_empty client e then e else i.knlist_clear client e

  pub clearkqueue_lem :
      (m : Mutex) (a : Bool) (c : Client) (f : Option CbFunc) (g : ℕ) (e : E)
      → clearkqueue i (at m a c f g e) ≡ ok tt (at m a (emptied c) f g (cleared c.ec_evdev e))
  unfolding clearkqueue
  clearkqueue_lem m a c f g e = ground arith

  -- The device forgets the client.
  abbrev pub disposed : ℕ → E → Answer Bool E
  disposed dev e = i.evdev_revoke_client false (i.evdev_dispose_client dev (i.list_lock dev e))

  abbrev pub revoked_client : Bool → Client → Client
  revoked_client b c = record c { ec_revoked = b }

  pub unregister_lem :
      (dev : ℕ) (a : Bool) (c : Client) (f : Option CbFunc) (e : E)
      → unregisterclient i (
          at free a
            (record c { ec_evdev = some dev; ec_revoked = false; ec_buffer_mtx = free })
            f
            7
            e)
        ≡ ok 0 (
            at free a
              (emptied (record c {
                ec_evdev = some dev;
                ec_revoked = (disposed dev e).value;
                ec_buffer_mtx = free;
              }))
              f
              6
              (cleared (some dev) (i.list_unlock dev (disposed dev e).env)))
  unfolding unregisterclient getflags dtor dispose_locked dispose
  unregister_lem dev a c f e = simp clearkqueue_lem refl

  -- The listener, woken up for the last time.
  abbrev pub ending : Callback E → Action (Session E) (Unit {0})
  ending cb = resume i cb (pure tt) 0 >> finish i

  ending_lem :
      (cb : Callback E) (dev : ℕ) (c : Client) (e : E)
      → ending cb (at free false (owned dev c) none 6 e)
        ≡ ok tt (at free false (emptied (owned dev c)) none 10 (i.wakeup (cleared (some dev) e)))
  unfolding resume finish
  ending_lem cb dev c e = simp clearkqueue_lem refl

  -- What the kernel is asked for when a session without a registration is destroyed.
  abbrev pub closed : ℕ → E → E
  closed dev e =
      i.knlist_destroy (some dev) (cleared (some dev) (i.wakeup (cleared (some dev) (i.wakeup e))))

  pub destroy_lem :
      (cb : Callback E) (dev : ℕ) (c : Client) (f : Option CbFunc) (e : E)
      → destroy i
          (ending cb)
          (record { pointer = live (ethread_at free true (owned dev c) f 6); env = e })
        ≡ ok 0 (record { pointer = freed; env = closed dev e })
  unfolding destroy stop_thread getflags await msleep close deregister
  destroy_lem cb dev c f e = simp (ending_lem, clearkqueue_lem) refl

  -- What the kernel is asked for by `init`, by the registration, and by its end.
  abbrev pub started : ℕ → E → E
  started dev e = (i.kthread_add (i.devfs_set_cdevpriv (i.knlist_init_mtx (some dev) e))).env

  abbrev pub registered : ℕ → E → E
  registered dev e = i.list_unlock dev (i.evdev_register_client dev (i.list_lock_sig dev e)).env

  abbrev pub unregistered : ℕ → E → E
  unregistered dev e = cleared (some dev) (i.list_unlock dev (disposed dev e).env)

  -- The calls of `framework_evdev_matchdevs` and `framework_evdev_destroy` on one session, with the
  -- listener asleep from its first turn on.
  abbrev pub life : Callback E → ℕ → ℕ → Action (Handle E) ℕ
  life cb buffer_size dev = do
    modify (λ h. init i buffer_size dev h.env)
    at_handle (begin i)
    at_handle (setcb (some evdev_oninput))
    at_handle (registerclient i dev)
    at_handle (unregisterclient i)
    destroy i (ending cb)

  -- A session from `framework_evthread_init` to `framework_evthread_destroy`, whatever the kernel
  -- answers, if the listener has begun before the rest and is asleep when it is told to stop: the
  -- destruction returns 0, both structures are freed, no lock is misused, and the device has seen one
  -- registration and one disposal of the client, in that order.
  pub life-freed :
      (cb : Callback E) (buffer_size dev : ℕ) (h : Handle E)
      → life cb buffer_size dev h
        ≡ ok 0 (record {
          pointer = freed;
          env = closed dev (unregistered dev (registered dev (started dev h.env)));
        })
  unfolding init begin setcb registerclient
  life-freed cb buffer_size dev h =
      let e = registered dev (started dev h.env) in
      let c = new_client buffer_size dev in
      let d = emptied (record c { ec_revoked = (disposed dev e).value }) in
      simp
        (
          unregister_lem dev true c (some evdev_oninput) e,
          destroy_lem cb dev d (some evdev_oninput) (unregistered dev e),
        )
        refl
