-- ===== src/Evthread/Shutdown/Code/Matching.antt =====
-- kmod/framework_evdev_thread.c: every execution of the code of the two threads, in terms of the interleaving model.
use framework_kmod.Base.{
  ◌||◌, Fault, deadlock, Bool, false, later, live, none, ok, refl, some, start, true, ℕ, ◌<◌, ◌≡◌,
  Option, Outcome, sym, ◌∙◌, subst, ap, arith, fault,
}
use framework_kmod.Kernel.{InputApi}
use framework_kmod.Evthread.{Client, Session, evdev_oninput, new_client, put_env}
use framework_kmod.Evthread.Shutdown.{
  Actor, Destroyer, Listener, Reachable, Shared, destroyer, device, idle, listener, setter, step,
}
use framework_kmod.Evthread.Shutdown.Shape.{
  Reachable-Shaped, begun, listener_holds, destroyer_holds,
}
use framework_kmod.Evthread.Shutdown.Code.{Places, all_roused}
use framework_kmod.Evthread.Shutdown.Code.Running.{
  reaches, Follows, Running, running, stands, state, mutex, view,
}
use framework_kmod.Evthread.Shutdown.Code.Follows.{on_destroyer, on_listener}
use framework_kmod.Evthread.Shutdown.Code.Executions.{
  Execution, code, elsewhere, filled, is_unlocked, notified, rests, runs, started, stops,
}

module _ {E : Type 0} (i : InputApi E) where
  -- What a session is in terms of the interleaving model.
  record Modelled (p : Places) (s : Session E) : Type 0 where
    pub state : Running E
    pub same : s ≡ running state
    pub byte : state.flags < 256
    pub seen : Reachable (view p state)

  locked_lem :
      (p : Places) (x : Running E)
      → Reachable (view p x)
      → x.locked ≡ listener_holds p.listener || destroyer_holds p.destroyer
  locked_lem p x r = ap (λ s. s.locked) (Reachable-Shaped r).same

  on_setter :
      (d : Destroyer) (l : Listener) (k : Option ℕ) (x : Running E)
      → begun d ≡ false
      → x.flags < 256
      → Follows deadlock
          (step setter (view (stands l d k) x))
          (code i setter (stands l d k) (running x))
  unfolding code step
  on_setter idle l k x w h = reaches (stands l idle k) (record x { cbfunc = some evdev_oninput }) h
  on_setter _ l k x w h = ground arith

  pub on_actor :
      (a : Actor) (p : Places) (x : Running E)
      → x.flags < 256
      → rests a p ≡ false
      → Reachable (view p x)
      → Follows (stops a p.listener) (step a (view p x)) (code i a p (running x))
  unfolding code
  on_actor listener p x h w r =
      let e = locked_lem p x r in
      on_listener i p.listener p.destroyer p.keycode x.client x.locked x.active x.cbfunc x.flags
        x.env h w (λ g. ground (arith, e, g))
  on_actor destroyer p x h w r =
      let e = locked_lem p x r in
      on_destroyer i p.destroyer p.listener p.keycode x.client x.locked x.active x.cbfunc x.flags
        x.env h w (λ g. ground (arith, e, g))
  on_actor setter p x h w r = on_setter p.destroyer p.listener p.keycode x w h
  on_actor device p x h w r = ground arith

  abbrev place : Places → Outcome (Session E) Places → Places
  place p (ok q s) = q
  place p (fault f) = p

  abbrev left : Session E → Outcome (Session E) Places → Session E
  left s (ok q t) = t
  left s (fault f) = s

  abbrev is_ok : Outcome (Session E) Places → Bool
  is_ok (ok q t) = true
  is_ok (fault f) = false

  -- A step of the code that returns is a step of the model.
  stepped :
      (fl : Fault) (a : Actor) (o : Option Shared) (r : Outcome (Session E) Places) {v : Shared}
      {q : Places} {t : Session E}
      → Reachable v
      → step a v ≡ o
      → r ≡ ok q t
      → Follows fl o r
      → Modelled q t
  stepped fl a none r {v} {q} {t} w e g f = let x = ap is_ok (sym g ∙ f) in ground arith
  stepped fl a (some u) r {v} {q} {t} w e g f =
      let same = sym g ∙ f.same in
      record {
        state = f.state;
        same = ap (left t) same;
        byte = f.byte;
        seen =
            subst (λ z. Reachable (view z f.state)) (sym (ap (place q) same))
              (subst Reachable (sym f.seen) (later a w e));
      }

  unlocked_lem :
      (m : Bool) (c : Client)
      → is_unlocked (live (record c { ec_buffer_mtx = mutex m })) ≡ true
      → m ≡ false
  unlocked_lem true c h = ground arith
  unlocked_lem false c h = refl

  notice :
      (p : Places) (x : Running E) (c : Client)
      → p.destroyer ≡ idle
      → x.locked ≡ false
      → step device (view p x)
        ≡ some (view (all_roused p) (record x { client = c; locked = false }))
  unfolding step
  notice p x c f o = rw (f, o) refl

  Execution-Modelled :
      {size evdev : ℕ} {p : Places} {s : Session E} → Execution i size evdev p s → Modelled p s
  Execution-Modelled {size} {evdev} (started e) = record {
    state = state (new_client size evdev) false true none 2 e;
    same = refl;
    byte = omega arith;
    seen = start;
  }
  Execution-Modelled (runs {p} {q} {s} {t} x a w e) =
      let m = Execution-Modelled x in
      stepped (stops a p.listener) a (step a (view p m.state)) (code i a p (running m.state)) m.seen
        refl (subst (λ z. code i a p z ≡ ok q t) m.same e) (on_actor a p m.state m.byte w m.seen)
  Execution-Modelled (elsewhere x e) =
      let m = Execution-Modelled x in
      record {
        state = record (m.state) { env = e };
        same = ap (put_env e) m.same;
        byte = m.byte;
        seen = m.seen;
      }
  Execution-Modelled (notified {p} {s} x f l c) =
      let m = Execution-Modelled x in
      let o =
        unlocked_lem m.state.locked m.state.client
          (subst (λ z. is_unlocked z.ethread.evdev_client ≡ true) m.same l) in
      record {
        state = record (m.state) { client = c; locked = false };
        same = ap (filled c) m.same;
        byte = m.byte;
        seen = later device m.seen (notice p m.state c f o);
      }

  -- A session in terms of the interleaving model, with a step from it.
  pub record Matches (a : Actor) (p : Places) (s : Session E) : Type 0 where
    pub state : Running E
    pub same : s ≡ running state
    pub seen : Reachable (view p state)
    pub next : Follows (stops a p.listener) (step a (view p state)) (code i a p s)

  -- In every execution of the code of the two threads, the session is one that the interleaving
  -- model describes, in a reachable state. From there a thread that is not at rest does what
  -- its step in the model says: the code of its place goes on to the place and the state of the
  -- step, or, where there is no step, it waits for the mutex of the client, or calls null at
  -- `crashed`.
  pub code-Matches :
      {size evdev : ℕ} {p : Places} {s : Session E}
      → Execution i size evdev p s
      → (a : Actor) → rests a p ≡ false
      → Matches a p s
  code-Matches {size} {evdev} {p} {s} x a w =
      let m = Execution-Modelled x in
      record {
        state = m.state;
        same = m.same;
        seen = m.seen;
        next =
            subst (λ z. Follows (stops a p.listener) (step a (view p m.state)) (code i a p z))
              (sym m.same) (on_actor a p m.state m.byte w m.seen);
      }
