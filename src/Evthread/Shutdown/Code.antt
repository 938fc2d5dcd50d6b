-- ===== src/Evthread/Shutdown/Code.antt =====
-- kmod/framework_evdev_thread.c: the code that the two threads run between one place of
-- `framework_kmod.Evthread.Shutdown` and the next one, on the session itself.
pub mod Flags
pub mod Running
pub mod Follows
pub mod Executions
pub mod Matching
pub mod Reaching
pub mod Paths
use framework_kmod.Base.{
  Action, Bool, Mutex, Option, branch, false, free, gets, held, live, modify, none, null_pointer,
  pure, some, stop, true, ℕ, ◌>>◌, ◌>>=◌,
}
use framework_kmod.Kernel.{InputApi}
use framework_kmod.Evthread.{
  CbFunc, Client, Session, change_env, change_flags, clear_flag, clearkqueue, evdev_oninput,
  flag_shutdown, flag_thread, getflags, has_flag, on_client, put_ethread, readkeycode, session_lock,
  session_unlock, set_flag, setcb, thread_lock, thread_unlock,
}
use framework_kmod.Evthread.Listener.{begin}
use framework_kmod.Evthread.Shutdown.{
  Actor, Destroyer, Listener, Shared, arming, asleep, before, born, calling, checking, closing_turn,
  crashed, destroyer, device, done, ending, flagged, gone, idle, leaving, listener, locking,
  loop_head, marked, past, released, roused, roused_destroyer, roused_listener, setter, sleeping,
  switched, tested, unflagged, window, woken, working,
}

-- Where the two threads stand, with the key code that the listener has read.
pub record Places : Type 0 where
  pub listener : Listener
  pub destroyer : Destroyer
  pub keycode : Option ℕ

abbrev pub goes : Listener → Places → Places
goes l p = record p { listener = l }

abbrev pub moves : Destroyer → Places → Places
moves d p = record p { destroyer = d }

-- `wakeup` on the channel of the client.
abbrev pub all_roused : Places → Places
all_roused p = record p {
  listener = roused_listener p.listener;
  destroyer = roused_destroyer p.destroyer;
}

module _ {E A : Type 0} (i : InputApi E) (next : Places → Action (Session E) A) where
  -- What follows the test of the copy of `cbfunc`, and what follows its second read.
  unfoldable pub where_set : Places → Listener → Listener → Option CbFunc → Action (Session E) A
  where_set p l m none = next (goes m p)
  where_set p l m (some cbfunc) = next (goes l p)

  -- The copy of `cbfunc` and its test.
  unfoldable pub copied : Places → Action (Session E) A
  unfolding where_set
  copied p = do
    session_lock
    local_cbfunc ← gets (λ s. s.ethread.cbfunc)
    session_unlock
    where_set p tested closing_turn local_cbfunc

  -- The code from one place of the listener to the next. It does not leave the places `sleeping`
  -- and `gone` by itself. At `calling` the callback has returned.
  unfoldable pub at_listener : Listener → Places → Action (Session E) A
  unfolding begin clearkqueue where_set copied
  at_listener born p = begin i >> next (goes loop_head p)
  at_listener loop_head p = thread_lock >> next (goes checking p)
  at_listener checking p = do
    active ← gets (λ s. s.ethread.active)
    branch active (next (goes arming p)) (thread_unlock >> next (goes leaving p))
  at_listener arming p = do
    on_client (modify (λ c. record c { ec_blocked = true }))
    thread_unlock
    next (goes sleeping p)
  at_listener sleeping p = next (goes woken p)
  at_listener woken p = thread_lock >> next (goes working p)
  at_listener working p = do
    keycode ← on_client (gets readkeycode)
    clearkqueue i
    copied (record p { keycode = keycode })
  at_listener tested p = thread_unlock >> next (goes window p)
  at_listener window p = do
    cbfunc ← gets (λ s. s.ethread.cbfunc)
    where_set p calling crashed cbfunc
  at_listener calling p = thread_lock >> next (goes closing_turn p)
  at_listener crashed p = stop null_pointer
  at_listener closing_turn p = do
    local_active ← gets (λ s. s.ethread.active)
    thread_unlock
    branch local_active (next (goes loop_head p)) (next (goes leaving p))
  at_listener leaving p = do
    session_lock
    change_flags (set_flag flag_shutdown)
    session_unlock
    next (goes marked p)
  at_listener marked p = thread_lock >> next (goes ending p)
  at_listener ending p = do
    session_lock
    change_flags (clear_flag flag_thread)
    session_unlock
    next (goes unflagged p)
  at_listener unflagged p = do change_env i.wakeup; thread_unlock; next (goes gone (all_roused p))
  at_listener gone p = next p

  -- The same for the destroyer. It does not leave `asleep` by itself; what follows `released` is
  -- `close` of `framework_kmod.Evthread.Calls`.
  unfoldable pub at_destroyer : Destroyer → Places → Action (Session E) A
  unfolding getflags
  at_destroyer idle p = do
    session_lock
    modify (λ s. put_ethread (record (s.ethread) { active = false; cbfunc = none }) s)
    session_unlock
    next (moves switched p)
  at_destroyer switched p = thread_lock >> next (moves locking p)
  at_destroyer locking p = do
    flags ← getflags
    branch (has_flag flag_thread flags) (change_env i.wakeup >> next (moves flagged (all_roused p)))
        (next (moves (past false) p))
  at_destroyer flagged p = do
    now ← gets (λ s. s.ethread.flags)
    branch (has_flag flag_shutdown now) (next (moves (past false) p))
        (thread_unlock >> next (moves asleep p))
  at_destroyer asleep p = next (moves roused p)
  at_destroyer roused p = thread_lock >> next (moves (past true) p)
  at_destroyer (past slept) p = thread_unlock >> next (moves (released slept) p)
  at_destroyer (released slept) p = next p
  at_destroyer (done slept) p = next p
