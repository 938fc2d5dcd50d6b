-- ===== src/Callout/Stopping/Code/Moving.antt =====
-- The steps of the interleaving model of kmod/framework_callout.c: who runs, and which timeout
-- matters.
use framework_kmod.Base.{
  Bool, Option, ap, arith, false, if◌then◌else◌, none, not, refl, some, subst, true, ℕ, ◌&&◌, ◌==◌,
  ◌||◌, ◌≡◌, ◌≢◌,
}
use framework_kmod.Power.{PowerType, bat, pwr, ivl}
use framework_kmod.Screen.{Screen, ScreenConfig}
use framework_kmod.Screen.Bounds as Bounds
use framework_kmod.Callout.Wanted.{in_use, timeout}
use framework_kmod.Callout.Stopping.{
  Actor, Runner, Shared, asking, destroyer, judging, listener, runner, runner_step, step, timer,
}
use framework_kmod.Callout.Stopping.Shape.{Shaped, everywhere, everywhere_sound}
use framework_kmod.Callout.Stopping.Told.{is_done}
use framework_kmod.Callout.Stopping.Code.{Who, clock, closer, reporter, thread}
use framework_kmod.Callout.Stopping.Code.Running.{rests}

abbrev pub who : Actor → Who
who (runner t) = thread
who destroyer = closer
who timer = clock
who listener = reporter

abbrev pub is_judging : Runner → Bool
is_judging judging = true
is_judging r = false

abbrev pub is_asking : Runner → Bool
is_asking asking = true
is_asking r = false

-- From where the thread comes to test its timeout.
abbrev pub comes : Actor → Runner → Bool
comes (runner t) r = is_asking r
comes a r = is_judging r

-- Who has a step runs, and the memory is not freed before.
abbrev runs_on : Actor → Shared → Option Shared → Bool
runs_on a v none = true
runs_on a v (some u) =
    (is_done u.destroyer || (not (rests (who a) v) && not (is_done v.destroyer)))
    && (not (is_judging u.runner) || comes a v.runner)

runs_everywhere : everywhere (λ a v. runs_on a v (step a v)) ≡ true
unfolding step
runs_everywhere = refl

pub runs_lem :
    (a : Actor) (v u : Shared)
    → Shaped v
    → step a v ≡ some u
    → is_done u.destroyer ≡ false
    → (rests (who a) v ≡ false)
      × (is_done v.destroyer ≡ false)
      × (is_judging u.runner ≡ true → comes a v.runner ≡ true)
runs_lem a v u w e n =
    let h : runs_on a v (some u) ≡ true =
      subst (λ o. runs_on a v o ≡ true) e
        (everywhere_sound (λ a v. runs_on a v (step a v)) v a runs_everywhere w) in
    ground (arith, h, n)

pub second_lem : (b : Bool) → ((if b then 1 else 0) == 0) ≡ not b
second_lem b = ground arith

-- The timeout matters only where it is tested.
same_at :
    (c d : Bool) (r : Runner) (v : Shared)
    → (is_judging r ≡ true → c ≡ d)
    → runner_step c r v ≡ runner_step d r v
unfolding runner_step
same_at c d judging v h = ap (λ t. runner_step t judging v) (h refl)
same_at c d _ v h = refl

pub same_step :
    (c d : Bool) (v : Shared)
    → (is_judging v.runner ≡ true → c ≡ d)
    → step (runner c) v ≡ step (runner d) v
unfolding step
same_step c d v h = same_at c d v.runner v h

-- Both timeouts.
abbrev pub retimed : ℕ → Screen → Screen
retimed n t = record t {
  settings = record (t.settings) {
    battery = record (t.settings.battery) { timeout_secs = n };
    power = record (t.settings.power) { timeout_secs = n };
  };
}

retimed-IsScaled :
    (n : ℕ) (c : ScreenConfig) → Bounds.IsScaled c → Bounds.IsScaled (record c { timeout_secs = n })
retimed-IsScaled n c r = record {
  low_capped = r.low_capped;
  high_capped = r.high_capped;
  step_small = r.step_small;
  back = r.back;
}

pub retimed-IsReady : (n : ℕ) (t : Screen) → Bounds.IsReady t → Bounds.IsReady (retimed n t)
retimed-IsReady n t r = record {
  unlocked = r.unlocked;
  on_power = r.on_power;
  on_battery = r.on_battery;
  table = r.table;
  power_scaled = retimed-IsScaled n t.settings.power r.power_scaled;
  battery_scaled = retimed-IsScaled n t.settings.battery r.battery_scaled;
}

pub retimed_lem :
    (m : PowerType) (n : ℕ) (t : Screen) → m ≢ ivl → timeout (in_use m (retimed n t)) ≡ n
retimed_lem bat n t h = refl
retimed_lem pwr n t h = refl
retimed_lem ivl n t h = absurd (h refl)
