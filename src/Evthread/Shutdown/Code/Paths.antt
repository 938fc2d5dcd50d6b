-- ===== src/Evthread/Shutdown/Code/Paths.antt =====
-- kmod/framework_evdev_thread.c: the pieces of code between the places, one after the other.
use framework_kmod.Base.{
  deadlock, stop, and_then_cong, and_then_unit, elim_cong, elim_then, gets, ◌>>=◌, deref, modify,
  Action, Bool, Option, and_then, and_then_split, branch, false, none, pure, refl, some, suc, true,
  zero, ℕ, ◌>>◌, ◌≡◌,
}
use framework_kmod.Kernel.{InputApi}
use framework_kmod.Evthread.{
  put_ethread, put_env, set_flag, clear_flag, has_flag, flag_thread, flag_shutdown, change_env,
  on_client, readkeycode, clearkqueue, session_lock, session_unlock, thread_lock, thread_unlock,
  Session, Others, evdev_oninput, CbFunc, getflags,
}
use framework_kmod.Evthread.Calls.{await, msleep, stop_thread}
use framework_kmod.Evthread.Listener.{Callback, finish, turn, awake, resume, call_back}
use framework_kmod.Evthread.Shutdown.{
  past, roused, flagged, locking, switched, crashed, working, woken, Destroyer, Listener, asleep,
  calling, gone, idle, leaving, loop_head, released, sleeping, window, tested, closing_turn,
}
use framework_kmod.Evthread.Shutdown.Code.{
  moves, all_roused, Places, at_destroyer, at_listener, copied, where_set, goes,
}

module _ {E : Type 0} where
  abbrev with_flags : (ℕ → ℕ) → Session E → Session E
  with_flags f s = put_ethread (record (s.ethread) { flags = f s.ethread.flags }) s

module _ {E : Type 0} (i : InputApi E) where
  module _ (wait : Others E) (cb : Callback E) (pause : Others E) where
    -- What is done before the code of a place: others run while the listener sleeps, and between
    -- its test of the callback and its call; then the callback runs.
    unfoldable meanwhile : Listener → Places → Action (Session E) (Unit {0})
    meanwhile sleeping p = wait
    meanwhile window p = pause
    meanwhile calling p = cb evdev_oninput p.keycode
    meanwhile l p = pure tt

    -- The listener, from a place until it comes to the head of the loop (true), or out of the loop
    -- (false); a fault if that takes more than this number of places.
    unfoldable walk : ℕ → Listener → Places → Action (Session E) Bool
    unfolding meanwhile
    walk n loop_head p = pure true
    walk n leaving p = pure false
    walk n gone p = pure false
    walk zero l p = stop deadlock
    walk (suc n) l p = meanwhile l p >> at_listener i (λ q. walk n q.listener q) l p

    unfoldable walked : ℕ → Places → Action (Session E) Bool
    unfolding walk
    walked n q = walk n q.listener q

    abbrev closing : Action (Session E) Bool
    closing = do local_active ← gets (λ s. s.ethread.active); thread_unlock; pure local_active

    told_lem :
        (b : Bool) (n : ℕ) (p : Places) (s : Session E)
        → branch b (walked n (goes loop_head p)) (walked n (goes leaving p)) s ≡ pure b s
    unfolding walked
    told_lem true n p s = refl
    told_lem false n p s = refl

    closing_lem :
        (n : ℕ) (p : Places) (s : Session E) → walked (suc n) (goes closing_turn p) s ≡ closing s
    unfolding walked at_listener
    closing_lem n p s =
        and_then_cong (thread_unlock s) _ _ (λ u s1. told_lem s.ethread.active n p s1)

    called_lem :
        (f : Option CbFunc) (p : Places) (s : Session E)
        → where_set i (walked 2) p calling crashed f s
          ≡ and_then (and_then (deref f s) (λ c. cb c p.keycode >> thread_lock)) (λ _. closing)
    unfolding walked at_listener where_set
    called_lem none p s = refl
    called_lem (some evdev_oninput) p s =
        and_then_split (cb evdev_oninput p.keycode s) _ _ _
          (λ u s1. and_then_cong (thread_lock s1) _ _ (λ v s2. closing_lem 0 p s2))

    called_back :
        (f : Option CbFunc) (p : Places) (s : Session E)
        → where_set i (walked 4) p tested closing_turn f s
          ≡ and_then (call_back i cb pause p.keycode f s) (λ _. closing)
    unfolding walked at_listener call_back where_set
    called_back none p s = closing_lem 3 p s
    called_back (some f) p s =
        and_then_split (thread_unlock s) _ _ _
          (λ u s1. and_then_split (pause s1) _ _ _ (λ v s2. called_lem s2.ethread.cbfunc p s2))

    awake_lem :
        (p : Places) (s : Session E)
        → at_listener i (walked 4) working p s ≡ and_then (awake i cb pause s) (λ _. closing)
    unfolding walked at_listener copied awake
    awake_lem p s = and_then_split (on_client (gets readkeycode) s) _ _ _ λ k s1.
        and_then_split (clearkqueue i s1) _ _ _ λ u s2.
          and_then_split (session_lock s2) _ _ _ λ v s3.
            and_then_split (session_unlock s3) _ _ _
              λ w s4. called_back s3.ethread.cbfunc (record (goes working p) { keycode = k }) s4

    resume_lem :
        (p : Places) (s : Session E) → at_listener i (walked 5) woken p s ≡ resume i cb pause 0 s
    unfolding walked at_listener resume
    resume_lem p s = and_then_cong (thread_lock s) _ _ (λ u s1. awake_lem (goes working p) s1)

    asleep_lem :
        (p : Places) (s : Session E)
        → walked 7 (goes sleeping p) s
          ≡ and_then (and_then (wait s) (λ _. pure 0)) (resume i cb pause)
    unfolding walked at_listener
    asleep_lem p s = and_then_split (wait s) _ _ _ (λ u s1. resume_lem p s1)

    -- The body of the `while`, for a sleep that ends without an error.
    turn-walk :
        (p : Places) (s : Session E)
        → at_listener i (walked 9) loop_head p s ≡ turn i (wait >> pure 0) cb pause s
    unfolding turn walked at_listener
    turn-walk p s = and_then_cong (thread_lock s) _ _ λ u s1.
        elim_cong s1.ethread.active _ _ _ _
          (and_then_cong (on_client (modify (λ c. record c { ec_blocked = true })) s1) _ _
            (λ v s2. and_then_cong (thread_unlock s2) _ _ (λ w s3. asleep_lem p s3)))
          refl

    -- The rest of the function, after the `while`.
    finish-walk :
        (p : Places) (s : Session E)
        → at_listener i (walked 3) leaving p s ≡ (finish i >> pure false) s
    unfolding walked at_listener finish
    finish-walk p s = and_then_split (session_lock s) _ _ _ λ u s1.
        and_then_split (session_unlock (with_flags (set_flag flag_shutdown) s1)) _ _ _ λ v s2.
          and_then_split (thread_lock s2) _ _ _ λ w s3.
            and_then_split (session_lock s3) _ _ _ λ x s4.
              and_then_split (session_unlock (with_flags (clear_flag flag_thread) s4)) _ _ _
                (λ y s5. refl)

  -- The destroyer, from a place until it comes to what follows `FRAMEWORK_EVTHREAD_UNLOCK`; a fault
  -- if that takes more than this number of places.
  unfoldable hasten : Others E → ℕ → Destroyer → Places → Action (Session E) (Unit {0})
  hasten others n (released slept) p = pure tt
  hasten others zero d p = stop deadlock
  hasten others (suc n) asleep p =
      others >> at_destroyer i (λ q. hasten others n q.destroyer q) asleep p
  hasten others (suc n) d p = at_destroyer i (λ q. hasten others n q.destroyer q) d p

  unlocking :
      (others : Others E) (b : Bool) (n : ℕ) (p : Places) (s : Session E)
      → hasten others (suc n) (past b) p s ≡ thread_unlock s
  unfolding hasten at_destroyer
  unlocking others b n p s = and_then_unit (thread_unlock s)

  asleep_rest :
      (others : Others E) (p : Places) (s : Session E)
      → hasten others 3 asleep p s
        ≡ and_then (and_then (others s) (λ _. thread_lock)) (λ _. thread_unlock)
  unfolding hasten at_destroyer
  asleep_rest others p s = and_then_split (others s) _ _ _ λ u s1.
      and_then_cong (thread_lock s1) _ _
        (λ v s2. unlocking others true 0 (moves (past true) (moves roused p)) s2)

  await_lem :
      (others : Others E) (flags : ℕ) (p : Places) (s : Session E)
      → branch
          (has_flag flag_thread flags)
          (change_env i.wakeup >> hasten others 4 flagged (moves flagged (all_roused p)))
          (hasten others 4 (past false) (moves (past false) p))
          s
        ≡ and_then (await i others flags s) (λ _. thread_unlock)
  unfolding hasten at_destroyer await msleep
  await_lem others flags p s =
      let q = moves flagged (all_roused p) in
      let t = put_env (i.wakeup s.env) s in
      elim_then (has_flag flag_thread flags) _ _ _ _ _
        (elim_then (has_flag flag_shutdown s.ethread.flags) _ _ _ _ _
          (unlocking others false 2 (moves (past false) q) t)
          (and_then_split (thread_unlock t) _ _ _ (λ u s1. asleep_rest others (moves asleep q) s1)))
        (unlocking others false 3 (moves (past false) p) s)

  -- `framework_evthread_destroy`, up to the release of the mutex.
  stop_thread-hasten :
      (others : Others E) (p : Places) (s : Session E)
      → hasten others 7 idle p s ≡ stop_thread i others s
  unfolding hasten at_destroyer stop_thread
  stop_thread-hasten others p s = and_then_cong (session_lock s) _ _ λ u s1.
      and_then_cong
        (session_unlock (put_ethread (record (s1.ethread) { active = false; cbfunc = none }) s1)) _
        _
        λ v s2. and_then_cong (thread_lock s2) _ _ λ w s3.
          and_then_cong (getflags s3) _ _
            λ flags s4. await_lem others flags (moves locking (moves switched p)) s4

  -- The pieces of code between the places, run one after the other, are the functions of the
  -- source: from the head of the loop the body of the `while`, for a sleep that ends without an
  -- error; from its end the rest of the listener; and the destruction up to the release of the
  -- mutex of the client. What others do during a sleep, and between the test of the callback
  -- and its call, is arbitrary.
  places-code :
      (wait others pause : Others E) (cb : Callback E) (p : Places) (s : Session E)
      → (at_listener i (walked wait cb pause 9) loop_head p s ≡ turn i (wait >> pure 0) cb pause s)
        × (at_listener i (walked wait cb pause 3) leaving p s ≡ (finish i >> pure false) s)
        × (hasten others 7 idle p s ≡ stop_thread i others s)
  places-code wait others pause cb p s =
      (turn-walk wait cb pause p s, finish-walk wait cb pause p s, stop_thread-hasten others p s)
