-- ===== src/Evthread/Listener.antt =====
-- kmod/framework_evdev_thread.c: what the listener thread runs, `framework_evthread_func`.
use framework_kmod.Base.{
  Action, Bool, List, Option, [], branch, deref, false, gets, modify, none, pure, some, true, ℕ,
  ◌==◌, ◌>>◌, ◌∷◌, ◌>>=◌,
}
use framework_kmod.Kernel.{InputApi}
use framework_kmod.Evthread.{
  Session, CbFunc, flag_thread, flag_shutdown, set_flag, clear_flag, change_env, change_flags,
  session_lock, session_unlock, on_client, thread_lock, thread_unlock, readkeycode, clearkqueue,
}

-- The callback: `framework_evdev_oninput` with the context of the session.
abbrev pub Callback : Type 0 → Type 0
Callback E = CbFunc → Option ℕ → Action (Session E) (Unit {0})

-- `msleep` on the channel of the client: its result, and what others do meanwhile.
abbrev pub Wait : Type 0 → Type 0
Wait E = Action (Session E) ℕ

module _ {E : Type 0} (i : InputApi E) where
  unfoldable pub begin : Action (Session E) (Unit {0})
  begin = do session_lock; change_flags (set_flag flag_thread); session_unlock

  -- The call goes through the structure again, not through the copy that was tested. `window` is what
  -- others do after the mutex is given back.
  unfoldable pub call_back :
      Callback E
      → Action (Session E) (Unit {0})
      → Option ℕ
      → Option CbFunc
      → Action (Session E) (Unit {0})
  call_back cb window keycode none = pure tt
  call_back cb window keycode (some local_cbfunc) = do
    thread_unlock
    window
    cbfunc ← (λ s. deref s.ethread.cbfunc s)
    cb cbfunc keycode
    thread_lock

  -- After a sleep without an error.
  unfoldable pub awake : Callback E → Action (Session E) (Unit {0}) → Action (Session E) (Unit {0})
  unfolding clearkqueue call_back
  awake cb window = do
    keycode ← on_client (gets readkeycode)
    clearkqueue i
    session_lock
    local_cbfunc ← gets (λ s. s.ethread.cbfunc)
    session_unlock
    call_back cb window keycode local_cbfunc

  -- From the return of `msleep` to the end of the body; the result is `local_active`.
  unfoldable pub resume : Callback E → Action (Session E) (Unit {0}) → ℕ → Action (Session E) Bool
  unfolding awake
  resume cb window error = do
    thread_lock
    branch (error == 0) (awake cb window) (pure tt)
    local_active ← gets (λ s. s.ethread.active)
    thread_unlock
    pure local_active

  -- The body of the `while`; false for the `break` too.
  unfoldable pub turn :
      Wait E → Callback E → Action (Session E) (Unit {0}) → Action (Session E) Bool
  unfolding resume
  turn wait cb window = do
    thread_lock
    active ← gets (λ s. s.ethread.active)
    branch active
        (do
          on_client (modify (λ c. record c { ec_blocked = true }))
          thread_unlock
          error ← wait
          resume cb window error)
        (thread_unlock >> pure false)

  -- After the `while`.
  unfoldable pub finish : Action (Session E) (Unit {0})
  finish = do
    session_lock
    change_flags (set_flag flag_shutdown)
    session_unlock
    thread_lock
    session_lock
    change_flags (clear_flag flag_thread)
    session_unlock
    change_env i.wakeup
    thread_unlock

  -- The `while`, for sleeps and windows given in order; true if it ends among them.
  turns : List (Wait E × Action (Session E) (Unit {0})) → Callback E → Action (Session E) Bool
  unfolding turn
  turns [] cb = pure false
  turns ((wait, window) ∷ ws) cb = do
    local_active ← turn wait cb window
    branch local_active (turns ws cb) (pure true)

  unfoldable pub func :
      List (Wait E × Action (Session E) (Unit {0})) → Callback E → Action (Session E) Bool
  unfolding begin turns finish
  func ws cb = do begin; ended ← turns ws cb; branch ended (finish >> pure true) (pure false)
