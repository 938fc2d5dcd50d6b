-- ===== src/Callout/Stopping/Code/Ending.antt =====
-- kmod/framework_callout.c: the end of the destruction of the callout structure, on the code of the
-- thread, the destroyer and a listener.
use framework_kmod.Base.{
  Bool, Bool-cases, Option, Outcome, ap, arith, false, fault, inl, inr, moves, moves_lem, none, not,
  ok, refl, some, subst, suc, sym, true, zero, ℕ, ◌&&◌, ◌<◌, ◌||◌, ◌∙◌, ◌≡◌, ◌≤◌,
}
use framework_kmod.Kernel.{Kernel, InputApi}
use framework_kmod.Power.{PowerType}
use framework_kmod.Callout.{CalloutSys}
use framework_kmod.Callout.Timed.Steady.{IsSteady}
use framework_kmod.Callout.Stopping.{Actor, Shared, destroyer, runner, step, timer}
use framework_kmod.Callout.Stopping.Shape.{
  Reachable-Shaped, Shaped, everywhere, everywhere_sound, told,
}
use framework_kmod.Callout.Stopping.Told.{advance_lem, is_over, listens_lem, rank}
use framework_kmod.Callout.Stopping.Code.{Places, Who, actor, clock, closer, reporter, thread}
use framework_kmod.Callout.Stopping.Code.Running.{Follows, code, rests, timeout_after, view}
use framework_kmod.Callout.Stopping.Code.Matching.{
  Execution, code-Follows, configured, elsewhere, reports, runs,
}
use framework_kmod.Callout.Stopping.Code.Finishing.{
  Finishes, Meanwhile, Movable, changes, goes, is_reporter, listens, over, presses, still, stores,
}

-- Before the end, once the thread is told, somebody has a step.
abbrev can_go : Actor → Shared → Bool
can_go a v =
    not (told v.destroyer)
    || is_over v.destroyer
    || (not (rests thread v) && moves (step (runner true) v) && moves (step (runner false) v))
    || (not (rests clock v) && moves (step timer v))
    || (not (rests closer v) && moves (step destroyer v))

all_can : everywhere can_go ≡ true
unfolding step
all_can = refl

either_step :
    (b : Bool) (v : Shared)
    → moves (step (runner true) v) ≡ true
    → moves (step (runner false) v) ≡ true
    → moves (step (runner b) v) ≡ true
either_step true v h g = h
either_step false v h g = g

module _ {E : Type 0} (k : Kernel E) (i : InputApi E) {hz : ℕ} {pass : E → E} {m : PowerType}
    (st : IsSteady k hz pass m) where
  abbrev is_ok : Outcome (CalloutSys E) Places → Bool
  is_ok (ok q t) = true
  is_ok (fault f) = false

  abbrev seen_in : Shared → Outcome (CalloutSys E) Places → Shared
  seen_in v (ok q t) = view q t
  seen_in v (fault f) = v

  -- The step that the code took.
  taken :
      (n : ℕ) (o : Option Shared) (r : Outcome (CalloutSys E) Places) (q : Places)
      (t : CalloutSys E)
      → r ≡ ok q t
      → Follows n o r
      → o ≡ some (view q t)
  taken n none r q t g f = let x = ap is_ok (sym g ∙ f) in ground arith
  taken n (some u) r q t g f = ap some (sym f.seen ∙ sym (ap (seen_in u) (sym g ∙ f.same)))

  step_of :
      {p q : Places} {s t : CalloutSys E}
      → Execution k i p s
      → (a : Who) → rests a (view p s) ≡ false
      → code k i a p s ≡ ok q t
      → step (actor a p) (view p s) ≡ some (view q t)
  step_of {p} {q} {s} {t} x a h e =
      taken (timeout_after k i a p s) (step (actor a p) (view p s)) (code k i a p s) q t e
        ((code-Follows k i st x).1 a h)

  shaped : {p : Places} {s : CalloutSys E} → Execution k i p s → Shaped (view p s)
  shaped x = Reachable-Shaped (code-Follows k i st x).0

  record Stays (p : Places) (s : CalloutSys E) (q : Places) (t : CalloutSys E) : Type 0 where
    pub run : Execution k i q t
    pub is_told : told q.destroyer ≡ told p.destroyer
    pub same_over : is_over q.destroyer ≡ is_over p.destroyer
    pub near : rank (view q t) ≤ rank (view p s)

  meanwhile_lem :
      {p q : Places} {s t : CalloutSys E}
      → Execution k i p s
      → Meanwhile k i p s q t
      → Stays p s q t
  meanwhile_lem x still = record { run = x; is_told = refl; same_over = refl; near = omega arith }
  meanwhile_lem x (listens {p} {q} {r} {s} {t} {u} w h e) =
      let y = meanwhile_lem x w in
      let f = listens_lem (view q t) (view r u) (shaped y.run) (step_of y.run reporter h e) in
      record {
        run = runs y.run reporter h e;
        is_told = f.0 ∙ y.is_told;
        same_over = f.1 ∙ y.same_over;
        near = omega (arith, f.2, y.near);
      }
  meanwhile_lem x (changes w e) =
      let y = meanwhile_lem x w in
      record {
        run = elsewhere y.run e;
        is_told = y.is_told;
        same_over = y.same_over;
        near = y.near;
      }
  meanwhile_lem x (stores w c r) =
      let y = meanwhile_lem x w in
      record {
        run = configured y.run c r;
        is_told = y.is_told;
        same_over = y.same_over;
        near = y.near;
      }
  meanwhile_lem x (presses w h c) =
      let y = meanwhile_lem x w in
      record {
        run = reports y.run h c;
        is_told = y.is_told;
        same_over = y.same_over;
        near = y.near;
      }

  goes_lem :
      {p : Places} {s : CalloutSys E}
      → Execution k i p s
      → (a : Who) → is_reporter a ≡ false
      → rests a (view p s) ≡ false
      → moves (step (actor a p) (view p s)) ≡ true
      → Movable k i p s
  goes_lem {p} {s} x a o h g =
      let f = moves_lem (step (actor a p) (view p s)) g in
      let r =
        subst (λ o. Follows (timeout_after k i a p s) o (code k i a p s)) f.1
          ((code-Follows k i st x).1 a h) in
      record { who = a; other = o; awake = h; places = r.places; state = r.state; comes = r.same }

  movable_lem :
      {p : Places} {s : CalloutSys E}
      → Execution k i p s
      → told p.destroyer ≡ true
      → is_over p.destroyer ≡ false
      → Movable k i p s
  movable_lem {p} {s} x u n =
      let v = view p s in
      let c = everywhere_sound can_go v destroyer all_can (shaped x) in
      elim (Bool-cases (not (rests clock v) && moves (step timer v))) [
        | inl y ↦ goes_lem x clock refl (ground arith) (ground arith)
        | inr z ↦ elim (Bool-cases (not (rests closer v) && moves (step destroyer v))) [
          | inl y ↦ goes_lem x closer refl (ground arith) (ground arith)
          | inr q ↦
              goes_lem x thread refl (ground arith) (either_step _ v (ground arith) (ground arith))
        ]
      ]

  nearer_step :
      (a : Who) (q : Places) (v u : Shared)
      → Shaped v
      → told v.destroyer ≡ true
      → is_reporter a ≡ false
      → step (actor a q) v ≡ some u
      → (told u.destroyer ≡ true) × (rank u < rank v)
  nearer_step thread q v u w g o e = advance_lem (actor thread q) v u w g e
  nearer_step closer q v u w g o e = advance_lem destroyer v u w g e
  nearer_step clock q v u w g o e = advance_lem timer v u w g e
  nearer_step reporter q v u w g o e = ground arith

  finish :
      (n : ℕ) (p : Places) (s : CalloutSys E)
      → Execution k i p s
      → told p.destroyer ≡ true
      → rank (view p s) < n
      → Finishes k i p s
  finish zero p s x u l = absurd (omega (arith, l))
  finish (suc n) p s x u l = elim (Bool-cases (is_over p.destroyer)) [
    | inl y ↦ over y
    | inr z ↦
        goes
          (λ q t w.
            let y = meanwhile_lem x w in movable_lem y.run (y.is_told ∙ u) (y.same_over ∙ z))
          (λ q r t v a w o h e.
            let y = meanwhile_lem x w in
            let f =
              nearer_step a q (view q t) (view r v) (shaped y.run) (y.is_told ∙ u) o
                (step_of y.run a h e) in
            finish n r v (runs y.run a h e) f.0 (omega (arith, f.1, y.near, l)))
  ]

  -- On a machine as `IsSteady` says (ACPI answers with one known source of power, so that no query
  -- leaves the power mutex locked): in every execution of the code (as for `code-Follows`) in which
  -- the destroyer has tested `active`, its wait for the thread comes to an end (`Finishes`).
  -- Whoever of thread, destroyer and timer runs next, and whatever listeners, the kernel and the
  -- sysctls do in between, one of the three is not at rest and its code comes to its next place,
  -- until the destroyer has given the mutex back and has only the mutexes to destroy and the memory
  -- to free; and no order of theirs goes on without end before it.
  pub told-Finishes :
      {p : Places} {s : CalloutSys E}
      → Execution k i p s
      → told p.destroyer ≡ true
      → Finishes k i p s
  told-Finishes {p} {s} x u = finish (suc (rank (view p s))) p s x u (omega arith)
