-- ===== src/Evthread/Calls.antt =====
-- kmod/framework_evdev_thread.c: the functions that set up a session, register its client, and destroy
-- both.
pub mod Life
use framework_kmod.Base.{
  Action, Outcome, Slot, branch, deref, false, fault, freed, gets, live, modify, mtx_destroy, none,
  null, Option, null_pointer, ok, pure, some, use_after_free, ℕ, ◌>>◌, ◌>>=◌,
}
use framework_kmod.Kernel.{InputApi, einval}
use framework_kmod.Evthread.{
  Ethread, Session, Handle, Others, flag_clientreg, flag_kqueue, flag_thread, flag_shutdown,
  set_flag, clear_flag, has_flag, put_ethread, change_env, change_flags, session_lock,
  session_unlock, on_client, thread_lock, thread_unlock, getflags, new_ethread, clearkqueue,
}

module _ {E : Type 0} (i : InputApi E) where
  -- `evdev_dispose_client` and `evdev_revoke_client`, unless that is done.
  pub dispose : ℕ → Action (Session E) (Unit {0})
  dispose dev = do
    revoked ← on_client (gets (λ c. c.ec_revoked))
    branch revoked (pure tt) (do
      change_env (i.evdev_dispose_client dev)
      answer ← gets (λ s. i.evdev_revoke_client false s.env)
      change_env (λ e. answer.env)
      on_client (modify (λ c. record c { ec_revoked = answer.value })))

  pub dispose_locked : Action (Session E) (Unit {0})
  unfolding dispose
  dispose_locked = do
    client ← on_client (gets (λ c. c.ec_evdev))
    dev ← deref client
    change_env (i.list_lock dev)
    dispose dev
    change_env (i.list_unlock dev)

  unfoldable pub dtor : Action (Session E) (Unit {0})
  unfolding dispose_locked clearkqueue
  dtor = do dispose_locked; thread_lock; clearkqueue i; thread_unlock

  -- The structure is returned even if no thread was started.
  unfoldable pub init : ℕ → ℕ → E → Handle E
  init buffer_size evdev e =
      let noted = i.devfs_set_cdevpriv (i.knlist_init_mtx (some evdev) e) in
      record { pointer = live (new_ethread buffer_size evdev); env = (i.kthread_add noted).env }

  register : ℕ → Action (Session E) ℕ
  register dev = do
    change_env (i.list_lock_sig dev)
    answer ← gets (λ s. i.evdev_register_client dev s.env)
    change_env (λ e. answer.env)
    change_env (i.list_unlock dev)
    session_lock
    change_flags (set_flag flag_clientreg)
    session_unlock
    pure answer.error

  unfoldable pub registerclient : ℕ → Action (Session E) ℕ
  unfolding getflags register
  registerclient dev = do
    flags ← getflags
    branch (has_flag flag_clientreg flags) (pure 0) (register dev)

  unfoldable pub unregisterclient : Action (Session E) ℕ
  unfolding getflags dtor
  unregisterclient = do
    flags ← getflags
    branch (has_flag flag_clientreg flags)
        (do dtor; session_lock; change_flags (clear_flag flag_clientreg); session_unlock; pure 0)
        (pure 0)

  -- `msleep` on that channel and that mutex.
  unfoldable pub msleep : Others E → Action (Session E) (Unit {0})
  msleep others = do thread_unlock; others; thread_lock

  -- `if (… & FRAMEWORK_EVSESSION_FLAG_THREAD)` and what it guards
  unfoldable pub await : Others E → ℕ → Action (Session E) (Unit {0})
  unfolding msleep
  await others flags =
      branch (has_flag flag_thread flags)
        (do
          change_env i.wakeup
          now ← gets (λ s. s.ethread.flags)
          branch (has_flag flag_shutdown now) (pure tt) (msleep others))
        (pure tt)

  -- Up to `FRAMEWORK_EVTHREAD_UNLOCK`: the thread is told to stop.
  unfoldable pub stop_thread : Others E → Action (Session E) (Unit {0})
  unfolding getflags await
  stop_thread others = do
    session_lock
    modify (λ s. put_ethread (record (s.ethread) { active = false; cbfunc = none }) s)
    session_unlock
    thread_lock
    flags ← getflags
    await others flags
    thread_unlock

  deregister : Option ℕ → Action (Session E) (Unit {0})
  unfolding getflags dispose_locked
  deregister none = pure tt
  deregister (some dev) = do
    flags ← getflags
    branch (has_flag flag_clientreg flags)
        (do dispose_locked; session_lock; change_flags (clear_flag flag_clientreg); session_unlock)
        (pure tt)

  -- From there to the destruction of the mutexes; the client is freed.
  pub close : Action (Session E) (Unit {0})
  unfolding deregister clearkqueue
  close = do
    client ← on_client (gets (λ c. c.ec_evdev))
    deregister client
    thread_lock
    clearkqueue i
    thread_unlock
    session_lock
    change_flags (clear_flag flag_kqueue)
    session_unlock
    change_env (i.knlist_destroy client)
    mtx_destroy (λ s. s.ethread.session) (λ m s. put_ethread (record (s.ethread) { session = m }) s)
    on_client (mtx_destroy (λ c. c.ec_buffer_mtx) (λ m c. record c { ec_buffer_mtx = m }))
    modify (λ s. put_ethread (record (s.ethread) { evdev_client = freed }) s)

  abbrev told : Outcome (Session E) ℕ → Outcome (Handle E) ℕ
  told (ok r s) = ok r (record { pointer = freed; env = s.env })
  told (fault f) = fault f

  destroy_at : Others E → Slot Ethread → Action (Handle E) ℕ
  destroy_at others null h = ok einval h
  destroy_at others freed h = fault use_after_free
  destroy_at others (live t) h =
      told ((stop_thread others >> close >> pure 0) (record { ethread = t; env = h.env }))

  -- The structure is freed at the end.
  unfoldable pub destroy : Others E → Action (Handle E) ℕ
  unfolding destroy_at stop_thread close
  destroy others h = destroy_at others h.pointer h

module _ {E A : Type 0} where
  abbrev back : Outcome (Session E) A → Outcome (Handle E) A
  back (ok a s) = ok a (record { pointer = live s.ethread; env = s.env })
  back (fault f) = fault f

  abbrev pub at_pointer : Action (Session E) A → Slot Ethread → Action (Handle E) A
  at_pointer m null h = fault null_pointer
  at_pointer m freed h = fault use_after_free
  at_pointer m (live t) h = back (m (record { ethread = t; env = h.env }))

  -- A call with a pointer that is not tested.
  abbrev pub at_handle : Action (Session E) A → Action (Handle E) A
  at_handle m h = at_pointer m h.pointer h
