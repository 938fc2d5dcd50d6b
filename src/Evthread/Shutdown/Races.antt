-- ===== src/Evthread/Shutdown/Races.antt =====
-- Where the destruction does not wait.
use framework_kmod.Base.{Bool, List, [], arith, refl, subst, true, ◌∷◌, ◌≡◌}
use framework_kmod.Evthread.Shutdown.{
  Listener, gone, done, Shared, Actor, listener, destroyer, Reachable,
}
use framework_kmod.Evthread.Shutdown.Shape.{fits, Reachable-Shaped}

gone_lem : (l : Listener) (c : Bool) → fits l (done true) c ≡ true → l ≡ gone
gone_lem gone c h = refl
gone_lem _ c h = ground arith

-- In a reachable state where the memory of a session is freed after the destroyer has slept, the
-- listener is at its end.
pub waited-gone : {s : Shared} → Reachable s → s.destroyer ≡ done true → s.listener ≡ gone
waited-gone {s} r e =
    gone_lem s.listener s.cbfunc
      (subst (λ d. fits s.listener d s.cbfunc ≡ true) e (Reachable-Shaped r).fit)

-- The destroyer alone, up to the end of the destruction.
abbrev alone : List Actor
alone = destroyer ∷ destroyer ∷ destroyer ∷ destroyer ∷ []
