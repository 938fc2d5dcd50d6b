-- ===== src/Callout/Stopping/Code/Reaching.antt =====
-- kmod/framework_callout.c: every reachable state of the interleaving model, in terms of executions of
-- the code.
use framework_kmod.Base.{Bool, if◌then◌else◌, not, true, ℕ, ◌==◌, ◌≡◌}
use framework_kmod.Kernel.{Kernel, InputApi}
use framework_kmod.Power.{PowerType}
use framework_kmod.Display.{put_screen}
use framework_kmod.Callout.{CalloutSys, put_display}
use framework_kmod.Callout.Timed.Steady.{IsSteady}
use framework_kmod.Callout.Stopping.{Actor, Shared, runner}
use framework_kmod.Callout.Stopping.Code.{Places}
use framework_kmod.Callout.Stopping.Code.Running.{view}
use framework_kmod.Callout.Stopping.Code.Matching.{Execution}
use framework_kmod.Callout.Stopping.Code.Moving.{is_judging, retimed}

module _ {E : Type 0} (k : Kernel E) (i : InputApi E) {hz : ℕ} {pass : E → E} {m : PowerType}
    (st : IsSteady k hz pass m) where
  -- An execution to this state; where the timeout is tested next, there is one, or none.
  record Executed (some_timeout : Bool) (v : Shared) : Type 0 where
    pub places : Places
    pub state : CalloutSys E
    pub run : Execution k i places state
    pub seen : view places state ≡ v
    pub timed : is_judging v.runner ≡ true → (places.current_timeout == 0) ≡ not some_timeout

  abbrev seconds : Bool → ℕ
  seconds b = if b then 1 else 0

  abbrev retimed_sys : ℕ → CalloutSys E → CalloutSys E
  retimed_sys n s = put_display (put_screen (retimed n s.display.screen) s.display) s

  -- The timeout that the thread is to have before this step.
  abbrev chosen : Actor → Bool → Bool
  chosen (runner t) b = t
  chosen a b = b

  abbrev Timed : Bool → Places → Type 0
  Timed b p = is_judging p.runner ≡ true → (p.current_timeout == 0) ≡ not b
