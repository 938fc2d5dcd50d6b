-- ===== src/Callout/Stopping/Code/Walking.antt =====
-- kmod/framework_callout.c: the thread from place to place.
use framework_kmod.Base.{
  Action, Bool, Option, and_then, and_then_cong, and_then_split, branch, deadlock, elim_then, false,
  none, pure, refl, some, stop, suc, true, zero, ℕ, ◌==◌, ◌>>◌, ◌>>=◌, ◌≡◌, leb,
}
use framework_kmod.Kernel.{Kernel, InputApi}
use framework_kmod.Backlight.{setbrightness}
use framework_kmod.Display.{on_backlight}
use framework_kmod.Evdev.{callout_inputintr, getlastinput, setintrfunc}
use framework_kmod.Callout.{
  CalloutSys, dim_if, elapsed, finish, getbrightnessfor, getcurrenttimeout, give_up, lock,
  on_display, on_evdev, put_callout, round, schedule, unlock, watch,
}
use framework_kmod.Callout.Timed.{launch, to_sleep, woken as wakes_up}
use framework_kmod.Callout.Stopping.{
  Runner, asking, born, entering, gone, judging, leaving, reading, setting, sleeping, testing,
  wired, woken,
}
use framework_kmod.Callout.Stopping.Code.{Places, at_runner, goes}

module _ {E : Type 0} (k : Kernel E) (i : InputApi E) where
  -- The thread, from a place until it sleeps (for this time) or ends; a fault if that takes more than
  -- this number of places.
  unfoldable pub walk : ℕ → Runner → Places → Action (CalloutSys E) (Option ℕ)
  walk n sleeping p = pure (some p.next_wait)
  walk n gone p = pure none
  walk zero r p = stop deadlock
  walk (suc n) r p = at_runner k i (λ q. walk n q.runner q) r p

  set_lem :
      (p : Places) (s : CalloutSys E)
      → walk 2 setting p s
        ≡ and_then
            (and_then (getbrightnessfor k s) (λ b.
              on_display (on_backlight (setbrightness k b)) >>= λ _.
              schedule k p.elapsed_time p.current_timeout))
            (to_sleep k i)
  unfolding walk at_runner schedule to_sleep
  set_lem p s = and_then_split (getbrightnessfor k s) _ _ _ λ b s1.
      and_then_split (on_display (on_backlight (setbrightness k b)) s1) _ _ _
        λ r s2. and_then_split (lock s2) _ _ _ λ u s3. refl

  watch-walk :
      (p : Places) (s : CalloutSys E)
      → (unlock >> walk 4 reading (goes reading p)) s
        ≡ and_then (watch k p.current_timeout s) (to_sleep k i)
  unfolding walk at_runner watch
  watch-walk p s = and_then_split (unlock s) _ _ _ λ u s1.
      and_then_split (on_evdev getlastinput s1) _ _ _ λ li s2.
        and_then_split (lock s2) _ _ _ λ v s3.
          and_then_split
            (dim_if (leb p.current_timeout (elapsed (k.time_uptime s3.display.env) li)) s3) _ _ _
            λ w s4. and_then_split (unlock s4) _ _ _ λ x s5.
              set_lem
                (record p {
                  runner = setting;
                  last_input = li;
                  elapsed_time = elapsed (k.time_uptime s3.display.env) li;
                })
                s5

  give_up-walk :
      (p : Places) (s : CalloutSys E)
      → (do give_up k; unlock; walk 4 leaving (goes leaving p)) s
        ≡ and_then (give_up k s) (to_sleep k i)
  unfolding walk at_runner give_up to_sleep finish
  give_up-walk p s =
      and_then_split (unlock (put_callout (record (s.callout) { active = false }) s)) _ _ _
        (λ u s1. refl)

  judged :
      (p : Places) (s : CalloutSys E)
      → walk 5 judging p s
        ≡ and_then
            (branch (p.current_timeout == 0) (give_up k) (watch k p.current_timeout) s)
            (to_sleep k i)
  unfolding walk at_runner
  judged p s = elim_then (p.current_timeout == 0) _ _ _ _ _ (give_up-walk p s) (watch-walk p s)

  tested :
      (b : Bool) (p : Places) (s : CalloutSys E)
      → and_then
          (unlock s)
          (λ _. branch b (walk 6 asking (goes asking p)) (walk 6 leaving (goes leaving p)))
        ≡ branch b (round k >>= to_sleep k i) (to_sleep k i none) s
  unfolding walk at_runner round to_sleep finish
  tested true p s = and_then_split (unlock s) _ _ _ λ u s1.
      and_then_split (getcurrenttimeout k s1) _ _ _ λ t s2.
        and_then_split (lock s2) _ _ _
          λ v s3. judged (record p { runner = judging; current_timeout = t }) s3
  tested false p s = and_then_split (unlock s) _ _ _ (λ u s1. refl)

  pub woken-walk : (p : Places) (s : CalloutSys E) → walk 8 woken p s ≡ wakes_up k i s
  unfolding walk at_runner wakes_up
  woken-walk p s = and_then_cong (lock s) _ _ (λ u s1. tested s1.callout.active (goes testing p) s1)

  pub launch-walk : (p : Places) (s : CalloutSys E) → walk 10 born p s ≡ launch k i s
  unfolding walk at_runner launch
  launch-walk p s =
      and_then_cong (on_evdev (setintrfunc (some callout_inputintr)) s) _ _
        (λ u s1. woken-walk (goes entering (goes wired p)) (record s1 { drop = false }))
