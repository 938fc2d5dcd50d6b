-- ===== src/Callout/Stopping/Code/Matching.antt =====
-- kmod/framework_callout.c: executions of the code of the thread, the destroyer and a listener, and
-- what the interleaving model says of them.
use framework_kmod.Base.{
  Bool, Option, Outcome, ap, arith, false, fault, free, later, none, ok, pure, refl, some, start,
  subst, sym, true, ℕ, ◌||◌, ◌∙◌, ◌≡◌,
}
use framework_kmod.Kernel.{Kernel, InputApi}
use framework_kmod.Power.{PowerType}
use framework_kmod.Screen.{Screen}
use framework_kmod.Screen.Bounds as Bounds
use framework_kmod.Display.{put_screen}
use framework_kmod.Callout.{CalloutSys, put_display}
use framework_kmod.Callout.Timed.Steady.{IsSteady}
use framework_kmod.Callout.Stopping.{
  Reachable, Runner, Shared, away, born, idle, sleeping, step, timer,
}
use framework_kmod.Callout.Stopping.Shape.{Reachable-Shaped, destroyer_holds, runner_holds}
use framework_kmod.Callout.Stopping.Code.{
  Places, Who, actor, at_runner, clock, closer, reporter, thread,
}
use framework_kmod.Callout.Stopping.Code.Running.{
  Follows, Sound, code, display-Sound, is_asleep, is_held, mutex, reaches, rests, timeout_after,
  view,
}
use framework_kmod.Callout.Stopping.Code.Follows.{initialised, on_destroyer, on_input, on_runner}

-- The thread was started, and nobody else runs here.
abbrev pub at_start : Places
at_start = record {
  runner = born;
  destroyer = idle;
  input = away;
  current_timeout = 0;
  last_input = 0;
  elapsed_time = 0;
  next_wait = 0;
  keycode = none;
}

module _ {E : Type 0} where
  -- As `framework_callout_init` leaves the system, with the evdev connector at work.
  pub record IsStarted (s : CalloutSys E) : Type 0 where
    pub sound : Sound s
    pub unlocked : s.callout.lock ≡ free
    pub active : s.callout.active ≡ true
    pub unset_func : s.evdev.cbfunc ≡ none
    pub drops : s.drop ≡ true

  abbrev pub put_env : E → CalloutSys E → CalloutSys E
  put_env e s = put_display (record (s.display) { env = e }) s

module _ {E : Type 0} (k : Kernel E) (i : InputApi E) where
  -- The three run in any order, the kernel changes, the sysctls write the levels and timeouts, and
  -- listeners come with any key or none.
  pub data Execution : Places → CalloutSys E → Type 0 where
    started : (s : CalloutSys E) → IsStarted s → Execution at_start s
    runs :
        {p q : Places} {s t : CalloutSys E}
        → Execution p s
        → (a : Who) → rests a (view p s) ≡ false
        → code k i a p s ≡ ok q t
        → Execution q t
    elsewhere :
        {p : Places} {s : CalloutSys E} → Execution p s → (e : E) → Execution p (put_env e s)
    configured :
        {p : Places} {s : CalloutSys E}
        → Execution p s
        → (t : Screen) → Bounds.IsReady t
        → Execution p (put_display (put_screen t s.display) s)
    reports :
        {p : Places} {s : CalloutSys E}
        → Execution p s
        → p.input ≡ away
        → (keycode : Option ℕ) → Execution (record p { keycode = keycode }) s

module _ {E : Type 0} (k : Kernel E) (i : InputApi E) {hz : ℕ} {pass : E → E} {m : PowerType}
    (st : IsSteady k hz pass m) where
  pub record Modelled (p : Places) (s : CalloutSys E) : Type 0 where
    pub sound : Sound s
    pub initialised : s.callout.lock ≡ mutex (is_held s.callout.lock)
    pub seen : Reachable (view p s)

  held_by :
      (p : Places) (s : CalloutSys E)
      → Reachable (view p s)
      → is_held s.callout.lock ≡ runner_holds p.runner || destroyer_holds p.destroyer
  held_by p s r = ap (λ t. t.locked) (Reachable-Shaped r).same

  on_clock :
      (r : Runner) (p : Places) (s : CalloutSys E)
      → p.runner ≡ r
      → is_asleep r ≡ true
      → Modelled p s
      → Follows p.current_timeout (step timer (view p s)) (at_runner k i pure sleeping p s)
  unfolding step at_runner
  on_clock sleeping p s e h w = rw e (reaches _ _ w.sound w.initialised)
  on_clock _ p s e h w = ground arith

  on_actor :
      (a : Who) (p : Places) (s : CalloutSys E)
      → Modelled p s
      → rests a (view p s) ≡ false
      → Follows (timeout_after k i a p s) (step (actor a p) (view p s)) (code k i a p s)
  unfolding code
  on_actor thread p s w h =
      let e = held_by p s w.seen in
      on_runner k i st p.runner p s (is_held s.callout.lock) refl w.initialised w.sound h
        (λ g. ground (arith, e, g))
  on_actor closer p s w h =
      let e = held_by p s w.seen in
      on_destroyer k i st p.destroyer p s (is_held s.callout.lock) refl w.initialised w.sound h
        (λ g. ground (arith, e, g))
  on_actor clock p s w h = on_clock p.runner p s refl (ground arith) w
  on_actor reporter p s w h =
      on_input k i st p.input p s (is_held s.callout.lock) refl w.initialised w.sound h

  abbrev place : Places → Outcome (CalloutSys E) Places → Places
  place p (ok q s) = q
  place p (fault f) = p

  abbrev left : CalloutSys E → Outcome (CalloutSys E) Places → CalloutSys E
  left s (ok q t) = t
  left s (fault f) = s

  abbrev is_ok : Outcome (CalloutSys E) Places → Bool
  is_ok (ok q t) = true
  is_ok (fault f) = false

  stepped :
      (n : ℕ) (a : Who) (p : Places) (o : Option Shared) (r : Outcome (CalloutSys E) Places)
      {v : Shared} {q : Places} {t : CalloutSys E}
      → Reachable v
      → step (actor a p) v ≡ o
      → r ≡ ok q t
      → Follows n o r
      → Modelled q t
  stepped n a p none r {v} {q} {t} w e g f = let x = ap is_ok (sym g ∙ f) in ground arith
  stepped n a p (some u) r {v} {q} {t} w e g f =
      let same = sym g ∙ f.same in
      let to_q = sym (ap (place q) same) in
      let to_t = sym (ap (left t) same) in
      record {
        sound = subst Sound to_t f.sound;
        initialised =
            subst (λ x. x.callout.lock ≡ mutex (is_held x.callout.lock)) to_t f.initialised;
        seen =
            subst (λ x. Reachable (view x t)) to_q
              (subst (λ x. Reachable (view f.places x)) to_t
                (subst Reachable (sym f.seen) (later (actor a p) w e)));
      }

  start-Modelled : (s : CalloutSys E) → IsStarted s → Modelled at_start s
  start-Modelled s w = record {
    sound = w.sound;
    initialised = initialised false w.unlocked;
    seen = rw (w.unlocked, w.active, w.unset_func, w.drops) start;
  }

  pub Execution-Modelled : {p : Places} {s : CalloutSys E} → Execution k i p s → Modelled p s
  Execution-Modelled (started s w) = start-Modelled s w
  Execution-Modelled (runs {p} {q} {s} {t} x a h e) =
      let w = Execution-Modelled x in
      stepped (timeout_after k i a p s) a p (step (actor a p) (view p s)) (code k i a p s) w.seen
        refl e (on_actor a p s w h)
  Execution-Modelled (elsewhere {p} {s} x e) =
      let w = Execution-Modelled x in
      record {
        sound = display-Sound _ s w.sound (record {
          power_free = w.sound.ready.power_free;
          screen_ready = w.sound.ready.screen_ready;
        });
        initialised = w.initialised;
        seen = w.seen;
      }
  Execution-Modelled (configured {p} {s} x t r) =
      let w = Execution-Modelled x in
      record {
        sound =
            display-Sound _ s w.sound
              (record { power_free = w.sound.ready.power_free; screen_ready = r });
        initialised = w.initialised;
        seen = w.seen;
      }
  Execution-Modelled (reports {p} {s} x h keycode) =
      let w = Execution-Modelled x in
      record { sound = w.sound; initialised = w.initialised; seen = w.seen }

  -- On a machine as `IsSteady` says: in every execution of the code of the thread, the
  -- destroyer and a listener, from a start as `framework_callout_init` leaves it with a display
  -- that is ready (`IsStarted`), in any order, with any keys, writes to the configurations that
  -- keep the display ready, and changes of the kernel's state in between, what the interleaving
  -- model keeps of the system is one of its reachable states. Whoever is not at rest there does
  -- what the step in the model says: the code of the place goes on to the place and the state
  -- of the step, or, where there is no step, it waits for the mutex. When the thread asks for
  -- the timeout, it holds that of the configuration in use.
  pub code-Follows :
      {p : Places} {s : CalloutSys E}
      → Execution k i p s
      → Reachable (view p s)
        × ((a : Who)
            → rests a (view p s) ≡ false
            → Follows (timeout_after k i a p s) (step (actor a p) (view p s)) (code k i a p s))
  code-Follows {p} {s} x = let w = Execution-Modelled x in (w.seen, λ a h. on_actor a p s w h)
