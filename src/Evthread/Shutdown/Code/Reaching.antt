-- ===== src/Evthread/Shutdown/Code/Reaching.antt =====
-- kmod/framework_evdev_thread.c: executions of the code of the two threads for the states of the
-- interleaving model.
use framework_kmod.Base.{
  Bool, Bool-cases, Option, ap, arith, false, inl, inr, later, none, not, refl, some, start, subst,
  sym, true, ℕ, ◌<◌, ◌||◌, ◌≡◌,
}
use framework_kmod.Kernel.{InputApi}
use framework_kmod.Evthread.{new_client}
use framework_kmod.Evthread.Shutdown.{
  Actor, Destroyer, Listener, Reachable, Shared, born, destroyer, device, gone, idle, listener,
  released, setter, sleeping, step,
}
use framework_kmod.Evthread.Shutdown.Shape.{Reachable-Shaped, begun, everywhere, everywhere_sound}
use framework_kmod.Evthread.Shutdown.Ending.{is_done}
use framework_kmod.Evthread.Shutdown.Code.{Places, all_roused}
use framework_kmod.Evthread.Shutdown.Code.Running.{
  Follows, Running, pauses, running, stands, state, view, waits,
}
use framework_kmod.Evthread.Shutdown.Code.Executions.{
  Execution, code, notified, rests, runs, started, stops,
}
use framework_kmod.Evthread.Shutdown.Code.Matching.{on_actor}

abbrev found : Shared → Option Shared → Shared
found s none = s
found s (some t) = t

abbrev stays : Bool → Option Shared → Bool
stays b none = true
stays b (some t) = not b || is_done t.destroyer

abbrev keeps_done : Actor → Shared → Bool
keeps_done a s = stays (is_done s.destroyer) (step a s)

keeps_done_all : everywhere keeps_done ≡ true
unfolding step
keeps_done_all = refl

-- Memory that is freed stays freed.
done_lem :
    (a : Actor) (s t : Shared)
    → Reachable s
    → step a s ≡ some t
    → is_done t.destroyer ≡ false
    → is_done s.destroyer ≡ false
done_lem a s t r e n =
    let w =
      subst (λ o. stays (is_done s.destroyer) o ≡ true) e
        (everywhere_sound keeps_done s a keeps_done_all (Reachable-Shaped r)) in
    ground arith

module _ {E : Type 0} (i : InputApi E) (size evdev : ℕ) where
  -- An execution of the code that ends in this state of the model.
  pub record Executed (s : Shared) : Type 0 where
    pub places : Places
    pub state : Running E
    pub run : Execution i size evdev places (running state)
    pub byte : state.flags < 256
    pub seen : view places state ≡ s

  noticed :
      (d : Destroyer) (l : Listener) (k : Option ℕ) (m : Bool) (y : Running E) (t : Shared)
      → Execution i size evdev (stands l d k) (running (record y { locked = m }))
      → y.flags < 256
      → step device (view (stands l d k) (record y { locked = m })) ≡ some t
      → Executed t
  unfolding step
  noticed idle l k false y t x h f = record {
    places = all_roused (stands l idle k);
    state = record y { locked = false };
    run = notified x refl refl y.client;
    byte = h;
    seen = ap (found t) f;
  }
  noticed _ l k m y t x h f = ground arith

  listener_rests :
      (l : Listener) (d : Destroyer) (k : Option ℕ) (y : Running E) (t : Shared)
      → waits l ≡ true
      → step listener (view (stands l d k) y) ≡ some t
      → ⊥
  unfolding step
  listener_rests sleeping d k y t w f = ground arith
  listener_rests gone d k y t w f = ground arith
  listener_rests _ d k y t w f = ground arith

  destroyer_rests :
      (d : Destroyer) (l : Listener) (k : Option ℕ) (y : Running E) (t : Shared)
      → pauses d ≡ true
      → step destroyer (view (stands l d k) y) ≡ some t
      → is_done t.destroyer ≡ false
      → ⊥
  unfolding step
  destroyer_rests (released b) l k y t w f n = let e = ap (stays true) f in ground arith
  destroyer_rests _ l k y t w f n = ground arith

  setter_rests :
      (d : Destroyer) (l : Listener) (k : Option ℕ) (y : Running E) (t : Shared)
      → begun d ≡ true
      → step setter (view (stands l d k) y) ≡ some t
      → ⊥
  unfolding step
  setter_rests idle l k y t w f = ground arith
  setter_rests _ l k y t w f = ground arith

  -- A step that no thread of the code takes.
  resting :
      (a : Actor) (p : Places) (y : Running E) (t : Shared)
      → rests a p ≡ true
      → step a (view p y) ≡ some t
      → is_done t.destroyer ≡ false
      → Execution i size evdev p (running y)
      → y.flags < 256
      → Executed t
  resting listener p y t w f n x h =
      absurd (listener_rests p.listener p.destroyer p.keycode y t w f)
  resting destroyer p y t w f n x h =
      absurd (destroyer_rests p.destroyer p.listener p.keycode y t w f n)
  resting setter p y t w f n x h = absurd (setter_rests p.destroyer p.listener p.keycode y t w f)
  resting device p y t w f n x h = noticed p.destroyer p.listener p.keycode y.locked y t x h f

  -- A step of a thread.
  taken :
      (a : Actor) (p : Places) (y : Running E) (t : Shared)
      → rests a p ≡ false
      → Reachable (view p y)
      → step a (view p y) ≡ some t
      → Execution i size evdev p (running y)
      → y.flags < 256
      → Executed t
  taken a p y t w r f x h =
      let u =
        subst (λ o. Follows (stops a p.listener) o (code i a p (running y))) f
          (on_actor i a p y h w r) in
      record {
        places = u.places;
        state = u.state;
        run = runs x a w u.same;
        byte = u.byte;
        seen = u.seen;
      }

  -- Every reachable state of the interleaving model in which the memory is not freed is what
  -- that model keeps of the session at the end of some execution of the code of the two
  -- threads, from `framework_evthread_init` on with any buffer and device. So what the model
  -- can do, the code can do.
  pub Reachable-Executed : {t : Shared} → E → Reachable t → is_done t.destroyer ≡ false → Executed t
  Reachable-Executed e start n = record {
    places = stands born idle none;
    state = state (new_client size evdev) false true none 2 e;
    run = started e;
    byte = omega arith;
    seen = refl;
  }
  Reachable-Executed {t} e (later {s} a r f) n =
      let x = Reachable-Executed e r (done_lem a s t r f n) in
      let q = subst Reachable (sym x.seen) r in
      let g = subst (λ z. step a z ≡ some t) (sym x.seen) f in
      elim (Bool-cases (rests a x.places)) [
        | inl w ↦ resting a x.places x.state t w g n x.run x.byte
        | inr w ↦ taken a x.places x.state t w q g x.run x.byte
      ]
