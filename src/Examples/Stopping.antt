-- ===== src/Examples/Stopping.antt =====
-- Runs of the callout thread, of its destruction, and of input.
use framework_kmod.Base.{Bool, List, [], false, refl, run, run-Reach, start, true, ◌∷◌, ◌≡◌}
use framework_kmod.Callout.Stopping.{
  Actor, born, gone, asleep, done, away, runner, destroyer, step, Reachable,
}
use framework_kmod.Callout.Stopping.Values.{Rest}
use framework_kmod.Callout.Stopping.Shape.{is_out, shape}
use framework_kmod.Callout.Stopping.Freed.{done-is_out}

abbrev unset_rest : Rest
unset_rest = record { cbfunc = false; drop = true; input = away }

-- The destroyer comes before the thread.
told_reach : Reachable (shape born asleep unset_rest)
unfolding run step
told_reach = run-Reach step (destroyer ∷ destroyer ∷ destroyer ∷ destroyer ∷ []) start refl

-- It sleeps until the thread has seen that it is to stop.
abbrev stopped : List Actor
stopped =
    runner true
    ∷ runner true
    ∷ runner true
    ∷ runner true
    ∷ runner true
    ∷ destroyer
    ∷ destroyer
    ∷ destroyer
    ∷ []

abbrev left_rest : Rest
left_rest = record { cbfunc = true; drop = false; input = away }

stopped_reach : Reachable (shape gone (done true) left_rest)
unfolding run step
stopped_reach = run-Reach step stopped told_reach refl

done-is_out_example :
    (is_out (shape gone (done true) left_rest).runner ≡ true)
    × (◌≡◌ {A = Bool} true true → (shape gone (done true) left_rest).runner ≡ gone)
done-is_out_example = done-is_out true stopped_reach refl
