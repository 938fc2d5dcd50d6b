-- ===== src/Callout/Stopping/Freed.antt =====
-- Who may still use the callout structure when it is freed.
use framework_kmod.Base.{Bool, List, [], arith, false, refl, subst, true, ◌∷◌, ◌≡◌}
use framework_kmod.Callout.Stopping.{
  Runner, leaving, gone, done, Shared, Actor, runner, destroyer, listener, Reachable,
}
use framework_kmod.Callout.Stopping.Shape.{is_out, fits, Reachable-Shaped}

done_lem :
    (r : Runner) (b : Bool) → fits r (done b) ≡ true → (is_out r ≡ true) × (b ≡ true → r ≡ gone)
done_lem gone b h = (refl, λ e. refl)
done_lem leaving true h = ground arith
done_lem leaving false h = (refl, λ e. cc)
done_lem _ true h = ground arith
done_lem _ false h = ground arith

-- When the memory of the callout structure is freed, the thread is out of its loop and has given
-- the mutex back, so that nothing is left for it but to wake up others by the address; and if the
-- destroyer has slept, that is done too.
pub done-is_out :
    {s : Shared} (b : Bool)
    → Reachable s
    → s.destroyer ≡ done b
    → (is_out s.runner ≡ true) × (b ≡ true → s.runner ≡ gone)
done-is_out {s} b r e =
    done_lem s.runner b (subst (λ d. fits s.runner d ≡ true) e (Reachable-Shaped r).fit)

-- A thread that starts only now, and input after it.
abbrev late : List Actor
late =
    destroyer
    ∷ destroyer
    ∷ destroyer
    ∷ destroyer
    ∷ runner true
    ∷ runner true
    ∷ runner true
    ∷ runner true
    ∷ runner true
    ∷ destroyer
    ∷ destroyer
    ∷ destroyer
    ∷ listener
    ∷ listener
    ∷ []

-- The thread is asleep, and input is being handled.
abbrev early : List Actor
early =
    destroyer
    ∷ destroyer
    ∷ destroyer
    ∷ destroyer
    ∷ runner true
    ∷ runner true
    ∷ runner true
    ∷ destroyer
    ∷ destroyer
    ∷ destroyer
    ∷ []
