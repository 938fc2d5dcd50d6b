-- ===== src/Callout/Stopping/Code/Paths.antt =====
-- kmod/framework_callout.c: the pieces of code between the places, one after the other.
use framework_kmod.Base.{
  Action, Bool, Option, Outcome, and_then, and_then_cong, and_then_split, and_then_unit, branch,
  deadlock, elim_then, fault, false, mtx_destroy, none, ok, pure, refl, some, stop, suc, true, zero,
  ℕ, ◌>>◌, ◌≡◌, ◌∙◌, ap, live, sym, and_then_assoc, replace,
}
use framework_kmod.Kernel.{Kernel, InputApi}
use framework_kmod.Evdev.{Evdev, IntrFunc, callout_inputintr, oninput, setintrfunc}
use framework_kmod.Callout.{
  CalloutSys, accept, inputintr, lock, on_evdev, put_callout, put_display, put_lock, put_rwlock,
  unlock,
}
use framework_kmod.Callout.Wakeup.{call_back, on_input}
use framework_kmod.Callout.Setup.{
  await, close, destroy, destroy_at, noted, pointed, released as freed,
}
use framework_kmod.Callout.Timed.{launch, woken as wakes_up}
use framework_kmod.Callout.Stopping.{
  Destroyer, Input, asleep, away, born, idle, locking, past, released, roused, roused_runner,
  telling, woken, unwired,
}
use framework_kmod.Callout.Stopping.Code.{Places, at_destroyer, at_input, copied, moves}
use framework_kmod.Callout.Stopping.Code.Walking.{launch-walk, walk, woken-walk}

module _ {E : Type 0} where
  -- What is left of the destruction.
  abbrev destroys : Action (CalloutSys E) (Unit {0})
  destroys =
      mtx_destroy (λ s. s.callout.rwlock) put_rwlock >> mtx_destroy (λ s. s.callout.lock) put_lock

module _ {E : Type 0} (k : Kernel E) (i : InputApi E) where
  -- `active` is cleared, and the thread is woken up.
  abbrev told : CalloutSys E → CalloutSys E
  told s =
      put_callout (record (s.callout) { active = false })
        (put_display (record (s.display) { env = i.wakeup s.display.env }) s)

  -- The destroyer, from a place until it has given the mutex back; others run while it sleeps.
  unfoldable hasten :
      Action (CalloutSys E) (Unit {0}) → ℕ → Destroyer → Places → Action (CalloutSys E) (Unit {0})
  hasten others n (released slept) p = pure tt
  hasten others zero d p = stop deadlock
  hasten others (suc n) asleep p =
      others >> at_destroyer k i (λ q. hasten others n q.destroyer q) asleep p
  hasten others (suc n) d p = at_destroyer k i (λ q. hasten others n q.destroyer q) d p

  unlocking :
      (others : Action (CalloutSys E) (Unit {0})) (b : Bool) (n : ℕ) (p : Places) (s : CalloutSys E)
      → hasten others (suc n) (past b) p s ≡ unlock s
  unfolding hasten at_destroyer
  unlocking others b n p s = and_then_unit (unlock s)

  asleep_rest :
      (others : Action (CalloutSys E) (Unit {0})) (p : Places) (s : CalloutSys E)
      → hasten others 3 asleep p s ≡ and_then (and_then (others s) (λ _. lock)) (λ _. unlock)
  unfolding hasten at_destroyer
  asleep_rest others p s = and_then_split (others s) _ _ _ λ u s1.
      and_then_cong (lock s1) _ _
        (λ v s2. unlocking others true 0 (moves (past true) (moves roused p)) s2)

  await-hasten :
      (others : Action (CalloutSys E) (Unit {0})) (p : Places) (s : CalloutSys E)
      → hasten others 4 telling p s ≡ and_then (await i others s) (λ _. unlock)
  unfolding hasten at_destroyer await
  await-hasten others p s =
      elim_then s.callout.active _ _ _ _ _
        (and_then_split (unlock (told s)) _ _ _ (λ u s1.
          asleep_rest others (record p { runner = roused_runner p.runner; destroyer = asleep }) s1))
        (unlocking others false 2 (moves (past false) p) s)

  close-hasten :
      (others : Action (CalloutSys E) (Unit {0})) (p : Places) (s : CalloutSys E)
      → close i others s ≡ and_then (hasten others 5 locking p s) (λ _. destroys)
  unfolding hasten at_destroyer close
  close-hasten others p s = and_then_split (lock s) _ _ _ λ u s1. sym (
      ap (λ o. and_then o (λ _. destroys)) (await-hasten others (moves telling p) s1)
      ∙ and_then_assoc (await i others s1) (λ _. unlock) (λ _. destroys))

  taken_away :
      (o : Outcome Evdev (Unit {0})) (others : Action (CalloutSys E) (Unit {0})) (p : Places)
      (s : CalloutSys E)
      → and_then (noted i o (pointed (live s.callout) s)) (λ _ h. destroy_at i others h.callout h)
        ≡ freed (
            and_then
              (and_then
                (replace (λ e t. record t { evdev = e }) s o)
                (λ _ t. hasten others 5 locking p (record t { drop = true })))
              (λ _. destroys))
  unfolding destroy_at
  taken_away (ok u e) others p s =
      ap freed (close-hasten others p (record s { evdev = e; drop = true }))
  taken_away (fault f) others p s = refl

  destroy-hasten :
      (others : Action (CalloutSys E) (Unit {0})) (p : Places) (s : CalloutSys E)
      → destroy i others (pointed (live s.callout) s)
        ≡ freed (and_then (hasten others 7 idle p s) (λ _. destroys))
  unfolding destroy hasten at_destroyer
  destroy-hasten others p s =
      taken_away (setintrfunc none s.evdev) others (moves locking (moves unwired p)) s

  -- A listener, from a place until it is away again.
  unfoldable attend : ℕ → Input → Places → Action (CalloutSys E) (Unit {0})
  attend n away p = pure tt
  attend zero j p = stop deadlock
  attend (suc n) j p = at_input k i (λ q. attend n q.input q) j p

  called_lem :
      (b : Bool) (p : Places) (s : CalloutSys E)
      → branch b (pure tt) (accept k p.keycode >> pure tt) s
        ≡ branch b (pure tt) (accept k p.keycode) s
  called_lem true p s = refl
  called_lem false p s = and_then_unit (accept k p.keycode s)

  copied_lem :
      (cb : Option IntrFunc) (p : Places) (s : CalloutSys E)
      → copied k i (λ q. attend 2 q.input q) p cb s ≡ call_back k p.keycode cb s
  unfolding attend at_input copied inputintr call_back
  copied_lem none p s = refl
  copied_lem (some callout_inputintr) p s = called_lem s.drop p s

  input-attend :
      (p : Places) (s : CalloutSys E)
      → at_input k i (λ q. attend 2 q.input q) away p s ≡ on_input k p.keycode s
  unfolding attend at_input on_input copied
  input-attend p s =
      and_then_cong (on_evdev (oninput (k.time_uptime s.display.env)) s) _ _
        (λ cb s1. copied_lem cb p s1)

  -- The pieces of code between the places of thread, destroyer and listener, run one after the
  -- other, are the functions of the source: the thread from its start, and from the end of a
  -- sleep, to its next sleep or its end; the destruction of a structure that is allocated,
  -- whatever others do while it sleeps; and a report of input with its call of the interrupt
  -- function.
  pieces-code :
      (others : Action (CalloutSys E) (Unit {0})) (p : Places) (s : CalloutSys E)
      → (walk k i 10 born p s ≡ launch k i s)
        × (walk k i 8 woken p s ≡ wakes_up k i s)
        × (destroy i others (pointed (live s.callout) s)
            ≡ freed (and_then (hasten others 7 idle p s) (λ _. destroys)))
        × (at_input k i (λ q. attend 2 q.input q) away p s ≡ on_input k p.keycode s)
  pieces-code others p s =
      (launch-walk k i p s, woken-walk k i p s, destroy-hasten others p s, input-attend p s)
