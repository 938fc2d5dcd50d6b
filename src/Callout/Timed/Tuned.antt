-- ===== src/Callout/Timed/Tuned.antt =====
-- kmod/framework_callout.c and kmod/framework_sysctl.c together: the callout system second by second,
-- while the sysctls change its levels and timeouts.
pub mod Up
pub mod Kept
pub mod Capped
pub mod Over
pub mod Spent
use framework_kmod.Base.{Action, List, Outcome, ℕ, [], and_then, pure, some, zoom, ◌>>◌, ◌>>=◌, ◌∷◌}
use framework_kmod.Kernel.{Kernel, InputApi}
use framework_kmod.Screen.{ScreenPtr}
use framework_kmod.Display.{on_screen}
use framework_kmod.Sysctl.{Request, Variable, screen_config}
use framework_kmod.Callout.{on_display}
use framework_kmod.Callout.Setup.{CalloutHandle}
use framework_kmod.Callout.Timed.{Clocked, Event, put_sys, step}
use framework_kmod.Callout.Timed.New.{run_init}

-- What happens to the machine, or a write to a variable of one of the two configurations.
pub data Change : Type 0 where
  happens : Event → Change
  write : Variable → ScreenPtr → Request → Change

module _ {E : Type 0} (k : Kernel E) (i : InputApi E) (hz : ℕ) (pass : E → E) where
  unfoldable pub change : Change → Action (Clocked E) (Unit {0})
  change (happens e) = step k i hz pass e
  change (write v p req) =
      zoom (λ c. c.sys) put_sys (on_display (on_screen (screen_config v (some p) req))) >> pure tt

  unfoldable pub changes : List Change → Action (Clocked E) (Unit {0})
  unfolding change
  changes [] = pure tt
  changes (c ∷ cs) = change c >> changes cs

  -- `framework_callout_init`, the start of the thread, and then these changes.
  unfoldable pub changes_from_init : List Change → CalloutHandle E → Outcome (Clocked E) (Unit {0})
  unfolding changes
  changes_from_init cs h = and_then (run_init k i hz pass [] h) (λ _. changes cs)
