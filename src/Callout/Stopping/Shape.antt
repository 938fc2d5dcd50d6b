-- ===== src/Callout/Stopping/Shape.antt =====
-- The shape of every reachable state: where the thread and the destroyer stand determines who holds
-- the mutex and whether the structure is active, and some pairs of places never occur together.
use framework_kmod.Base.{
  bool_finite, Reach-keeps, Bool, Option, all_four, all_four_at, arith, eqb, eqb_eq, false,
  if◌then◌else◌, none, not, refl, some, subst, sym, true, ◌&&◌, ◌||◌, ◌≡◌,
}
use framework_kmod.Callout.Stopping.{
  Runner, testing, judging, comparing, scheduling, leaving, gone, Destroyer, idle, unwired, locking,
  telling, asleep, roused, past, released, done, Shared, Actor, step, Reachable,
}
use framework_kmod.Callout.Stopping.Values.{
  runner_finite, destroyer_finite, actor_finite, rest_finite, Rest,
}

abbrev pub runner_holds : Runner → Bool
runner_holds testing = true
runner_holds judging = true
runner_holds comparing = true
runner_holds scheduling = true
runner_holds r = false

abbrev pub destroyer_holds : Destroyer → Bool
destroyer_holds telling = true
destroyer_holds (past slept) = true
destroyer_holds d = false

-- The thread is out of its loop.
abbrev pub is_out : Runner → Bool
is_out leaving = true
is_out gone = true
is_out r = false

abbrev is_gone : Runner → Bool
is_gone gone = true
is_gone r = false

-- The destroyer has found the structure active or not, and made it inactive.
abbrev pub told : Destroyer → Bool
told idle = false
told unwired = false
told locking = false
told telling = false
told d = true

-- The state for two places and what they leave open.
abbrev pub shape : Runner → Destroyer → Rest → Shared
shape r d x = record {
  active = not (is_out r) && not (told d);
  cbfunc = x.cbfunc;
  drop = x.drop;
  locked = runner_holds r || destroyer_holds d;
  runner = r;
  destroyer = d;
  input = x.input;
}

-- Which places occur together.
abbrev pub fits : Runner → Destroyer → Bool
fits r idle = true
fits r unwired = true
fits r locking = true
fits r telling = not (runner_holds r)
fits r asleep = not (is_gone r)
fits r roused = is_gone r
fits r (past true) = is_gone r
fits r (past false) = is_out r
fits r (released true) = is_gone r
fits r (released false) = is_out r
fits r (done true) = is_gone r
fits r (done false) = is_out r

abbrev is_shaped : Shared → Bool
is_shaped t =
    eqb t.active (not (is_out t.runner) && not (told t.destroyer))
    && eqb t.locked (runner_holds t.runner || destroyer_holds t.destroyer)
    && fits t.runner t.destroyer

abbrev pub rest_of : Shared → Rest
rest_of s = record { cbfunc = s.cbfunc; drop = s.drop; input = s.input }

pub record Shaped (s : Shared) : Type 0 where
  pub same : s ≡ shape s.runner s.destroyer (rest_of s)
  pub fit : fits s.runner s.destroyer ≡ true

shaped_lem : (t : Shared) → is_shaped t ≡ true → Shaped t
shaped_lem t h = record {
  same = ground (
    arith,
    eqb_eq t.active (not (is_out t.runner) && not (told t.destroyer)),
    eqb_eq t.locked (runner_holds t.runner || destroyer_holds t.destroyer),
  );
  fit = ground arith;
}

abbrev keeps : Option Shared → Bool
keeps none = true
keeps (some t) = is_shaped t

-- A property of steps, tested at every shape that fits.
abbrev pub everywhere : (Actor → Shared → Bool) → Bool
everywhere p = all_four λ a r d x. if fits r d then p a (shape r d x) else true

pub everywhere_sound :
    (p : Actor → Shared → Bool) (s : Shared) (a : Actor)
    → everywhere p ≡ true
    → Shaped s
    → p a s ≡ true
everywhere_sound p s a h w =
    let test = λ (a : Actor) (r : Runner) (d : Destroyer) (x : Rest).
      if fits r d then p a (shape r d x) else true in
    let r = s.runner in
    let d = s.destroyer in
    let x = rest_of s in
    subst (λ t. p a t ≡ true) (sym w.same)
      (subst (λ b. (if b then p a (shape r d x) else true) ≡ true) w.fit
        (all_four_at test h a r d x))

steps_keep : everywhere (λ a s. keeps (step a s)) ≡ true
unfolding step
steps_keep = refl

pub step-Shaped : (a : Actor) (s t : Shared) → Shaped s → step a s ≡ some t → Shaped t
step-Shaped a s t w e =
    shaped_lem t
      (subst (λ o. keeps o ≡ true) e (everywhere_sound (λ a s. keeps (step a s)) s a steps_keep w))

pub Reachable-Shaped : {s : Shared} → Reachable s → Shaped s
Reachable-Shaped r = Reach-keeps step Shaped step-Shaped (record { same = refl; fit = refl }) r
