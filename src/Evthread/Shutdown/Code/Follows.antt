-- ===== src/Evthread/Shutdown/Code/Follows.antt =====
-- kmod/framework_evdev_thread.c: every step of the interleaving model is what the code of its place
-- does to the session.
use framework_kmod.Base.{
  ap, and_then, Bool, Option, arith, branch, deadlock, false, if◌then◌else◌, none, ok, pure, refl,
  some, true, ℕ, ◌<◌, ◌≡◌, not,
}
use framework_kmod.Kernel.{InputApi}
use framework_kmod.Evthread.{
  CbFunc, Client, Session, clearkqueue, emptied, flag_shutdown, flag_thread, has_flag, put_env,
  change_env, set_flag, readkeycode, clear_flag,
}
use framework_kmod.Evthread.Shutdown.{
  Destroyer, Listener, arming, asleep, born, calling, checking, closing_turn, crashed, destroyer,
  done, ending, flagged, gone, idle, leaving, listener, locking, loop_head, marked, past, released,
  roused, sleeping, step, switched, tested, unflagged, window, woken, working,
}
use framework_kmod.Evthread.Shutdown.Shape.{destroyer_holds, listener_holds}
use framework_kmod.Evthread.Shutdown.Code.{all_roused, moves, copied, at_destroyer, at_listener}
use framework_kmod.Evthread.Shutdown.Code.Flags.{byte-Kept}
use framework_kmod.Evthread.Shutdown.Code.Running.{
  Follows, Running, pauses, reaches, running, stands, state, stopped, view, waits, Reaches-branch,
}

module _ {E : Type 0} (i : InputApi E) where
  branch_env :
      (b : Bool) (f : E → E) (s : Session E)
      → branch b (change_env f) (pure tt) s ≡ ok tt (put_env (if b then f s.env else s.env) s)
  branch_env true f s = refl
  branch_env false f s = refl

  clearkqueue_lem :
      (x : Running E)
      → (e : E) × (clearkqueue i (running x)
          ≡ ok tt (running (record x { client = emptied x.client; env = e })))
  unfolding clearkqueue
  clearkqueue_lem x = (
    _,
    branch_env (not (i.knlist_empty x.client.ec_evdev x.env)) (i.knlist_clear x.client.ec_evdev) _,
  )

  pub on_listener :
      (l : Listener) (d : Destroyer) (k : Option ℕ) (c : Client) (m a : Bool) (f : Option CbFunc)
      (n : ℕ) (e : E)
      → n < 256
      → waits l ≡ false
      → (listener_holds l ≡ true → m ≡ true)
      → Follows
          (stopped l)
          (step listener (view (stands l d k) (state c m a f n e)))
          (at_listener i pure l (stands l d k) (running (state c m a f n e)))
  unfolding step at_listener copied readkeycode clearkqueue_lem
  on_listener born d k c m a f n e h w g = record {
    places = _;
    state = state c m a f (set_flag flag_thread n) e;
    same = refl;
    byte = omega arith;
    seen = rw ((byte-Kept n h).sets, (byte-Kept n h).keeps) refl;
  }
  on_listener loop_head d k c true a f n e h w g = refl
  on_listener loop_head d k c false a f n e h w g = reaches _ (state c true a f n e) h
  on_listener checking d k c m true f n e h w g = reaches _ (state c m true f n e) h
  on_listener checking d k c true false f n e h w g = reaches _ (state c false false f n e) h
  on_listener arming d k c true a f n e h w g =
      reaches _ (state (record c { ec_blocked = true }) false a f n e) h
  on_listener woken d k c true a f n e h w g = refl
  on_listener woken d k c false a f n e h w g = reaches _ (state c true a f n e) h
  on_listener working d k c m a none n e h w g =
      let q = clearkqueue_lem (state c m a none n e) in
      let there = record (stands working d k) { keycode = readkeycode c } in
      record {
        places = _;
        state = state (emptied c) m a none n q.0;
        same = ap (λ o. and_then o (λ _. copied i pure there)) q.1;
        byte = h;
        seen = refl;
      }
  on_listener working d k c m a (some f) n e h w g =
      let q = clearkqueue_lem (state c m a (some f) n e) in
      let there = record (stands working d k) { keycode = readkeycode c } in
      record {
        places = _;
        state = state (emptied c) m a (some f) n q.0;
        same = ap (λ o. and_then o (λ _. copied i pure there)) q.1;
        byte = h;
        seen = refl;
      }
  on_listener tested d k c true a f n e h w g = reaches _ (state c false a f n e) h
  on_listener window d k c m a none n e h w g = reaches _ (state c m a none n e) h
  on_listener window d k c m a (some f) n e h w g = reaches _ (state c m a (some f) n e) h
  on_listener calling d k c true a f n e h w g = refl
  on_listener calling d k c false a f n e h w g = reaches _ (state c true a f n e) h
  on_listener crashed d k c m a f n e h w g = refl
  on_listener closing_turn d k c true true f n e h w g = reaches _ (state c false true f n e) h
  on_listener closing_turn d k c true false f n e h w g = reaches _ (state c false false f n e) h
  on_listener leaving d k c m a f n e h w g = record {
    places = _;
    state = state c m a f (set_flag flag_shutdown n) e;
    same = refl;
    byte = omega arith;
    seen = rw ((byte-Kept n h).shuts, (byte-Kept n h).leaves) refl;
  }
  on_listener marked d k c true a f n e h w g = refl
  on_listener marked d k c false a f n e h w g = reaches _ (state c true a f n e) h
  on_listener ending d k c m a f n e h w g = record {
    places = _;
    state = state c m a f (clear_flag flag_thread n) e;
    same = refl;
    byte = (byte-Kept n h).fits;
    seen = rw ((byte-Kept n h).clears, (byte-Kept n h).spares) refl;
  }
  on_listener unflagged d k c true a f n e h w g = reaches _ (state c false a f n (i.wakeup e)) h
  on_listener sleeping d k c m a f n e h w g = ground arith
  on_listener gone d k c m a f n e h w g = ground arith
  on_listener _ d k c false a f n e h w g = let v = g refl in ground arith

  pub on_destroyer :
      (d : Destroyer) (l : Listener) (k : Option ℕ) (c : Client) (m a : Bool) (f : Option CbFunc)
      (n : ℕ) (e : E)
      → n < 256
      → pauses d ≡ false
      → (destroyer_holds d ≡ true → m ≡ true)
      → Follows deadlock
          (step destroyer (view (stands l d k) (state c m a f n e)))
          (at_destroyer i pure d (stands l d k) (running (state c m a f n e)))
  unfolding step at_destroyer
  on_destroyer idle l k c m a f n e h w g = reaches _ (state c m false none n e) h
  on_destroyer switched l k c true a f n e h w g = refl
  on_destroyer switched l k c false a f n e h w g = reaches _ (state c true a f n e) h
  on_destroyer locking l k c m a f n e h w g =
      let p = stands l locking k in
      Reaches-branch deadlock (has_flag flag_thread n) _ _ _ _
        (reaches (moves flagged (all_roused p)) (state c m a f n (i.wakeup e)) h)
        (reaches (moves (past false) p) (state c m a f n e) h)
  on_destroyer flagged l k c true a f n e h w g =
      let p = stands l flagged k in
      Reaches-branch deadlock (has_flag flag_shutdown n) _ _ _ _
        (reaches (moves (past false) p) (state c true a f n e) h)
        (reaches (moves asleep p) (state c false a f n e) h)
  on_destroyer roused l k c true a f n e h w g = refl
  on_destroyer roused l k c false a f n e h w g = reaches _ (state c true a f n e) h
  on_destroyer (past b) l k c true a f n e h w g = reaches _ (state c false a f n e) h
  on_destroyer asleep l k c m a f n e h w g = ground arith
  on_destroyer (released b) l k c m a f n e h w g = ground arith
  on_destroyer (done b) l k c m a f n e h w g = ground arith
  on_destroyer _ l k c false a f n e h w g = let v = g refl in ground arith
