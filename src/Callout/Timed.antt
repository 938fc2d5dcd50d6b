-- ===== src/Callout/Timed.antt =====
-- The callout system of kmod/framework_callout.c second by second: the thread sleeps in its `msleep`
-- until its ticks are over, and input comes in between. `woken` and `launch` are the code of
-- `framework_callout_thread` between two sleeps, cut out of its loop.
pub mod Steady
pub mod Seconds
pub mod Begin
pub mod Level
pub mod Shown
pub mod Lit
pub mod New
pub mod Wired
pub mod Reports
pub mod Tuned
use framework_kmod.Base.{
  Action, Bool, List, Option, Outcome, [], and_then, and_then_assoc, and_then_split, branch, false,
  fault, gets, ltb, modify, none, ok, pure, some, suc, true, zoom, ℕ, ◌+◌, ◌-◌, ◌>>=◌, ◌>>◌, ◌∷◌,
  ◌≡◌, ◌∙◌,
}
use framework_kmod.Kernel.{Kernel, InputApi}
use framework_kmod.Evdev.{callout_inputintr, setintrfunc}
use framework_kmod.Callout.{
  CalloutSys, put_display, on_evdev, lock, unlock, round, rounds, finish, thread, Sleep,
}
use framework_kmod.Callout.Wakeup.{on_input}

-- The ticks that are left of the thread's sleep; `none` once the thread has ended.
pub record Clocked (E : Type 0) : Type 0 where
  pub sys : CalloutSys E
  pub left : Option ℕ

abbrev pub put_sys : {E : Type 0} → CalloutSys E → Clocked E → Clocked E
put_sys s c = record c { sys = s }

-- What happens to the machine: a second passes, or an input device reports.
pub data Event : Type 0 where
  second : Event
  input : Option ℕ → Event

module _ {E : Type 0} (k : Kernel E) (i : InputApi E) where
  -- After a round: to `msleep`, or out of the loop and to the end.
  unfoldable pub to_sleep : Option ℕ → Action (CalloutSys E) (Option ℕ)
  to_sleep none = finish i >> pure none
  to_sleep (some next_wait) = unlock >> pure (some next_wait)

  -- From the return of `msleep` to the next one; the result is that sleep, or `none`.
  unfoldable pub woken : Action (CalloutSys E) (Option ℕ)
  unfolding to_sleep
  woken = do
    lock
    active ← gets (λ s. s.callout.active)
    branch active (round k >>= to_sleep) (to_sleep none)

  -- From the start of the thread to its first sleep.
  unfoldable pub launch : Action (CalloutSys E) (Option ℕ)
  unfolding woken
  launch = do
    on_evdev (setintrfunc (some callout_inputintr))
    modify (λ s. record s { drop = false })
    woken

  -- `framework_callout_thread` from the return of a sleep on.
  again : ℕ → Sleep k → Action (CalloutSys E) Bool
  again fuel msleep = do
    lock
    ended ← rounds k fuel msleep
    branch ended (finish i >> pure true) (pure false)

  then_sleep : ℕ → Sleep k → Option ℕ → Action (CalloutSys E) Bool
  unfolding again
  then_sleep fuel msleep none = pure true
  then_sleep fuel msleep (some w) = msleep w >> again fuel msleep

  -- The code behind a round in the loop, and behind the loop.
  abbrev turn : ℕ → Sleep k → Option ℕ → Action (CalloutSys E) Bool
  turn fuel msleep next_wait = elim next_wait [
    | none ↦ pure true
    | some w ↦ do unlock; msleep w; lock; rounds k fuel msleep
  ]

  abbrev ending : Bool → Action (CalloutSys E) Bool
  ending ended = branch ended (finish i >> pure true) (pure false)

  turn_lem :
      (fuel : ℕ) (msleep : Sleep k) (next_wait : Option ℕ) (s : CalloutSys E)
      → and_then (turn fuel msleep next_wait s) ending
        ≡ and_then (to_sleep next_wait s) (then_sleep fuel msleep)
  unfolding to_sleep then_sleep
  turn_lem fuel msleep none s = simp and_then_assoc
  turn_lem fuel msleep (some w) s = simp and_then_assoc

  loop_lem :
      (active : Bool) (fuel : ℕ) (msleep : Sleep k) (s : CalloutSys E)
      → and_then (branch active (round k >>= turn fuel msleep) (pure true) s) ending
        ≡ and_then (branch active (round k >>= to_sleep) (to_sleep none) s) (then_sleep fuel msleep)
  loop_lem true fuel msleep s =
      and_then_assoc (round k s) (turn fuel msleep) ending
      ∙ and_then_split (round k s) _ to_sleep (then_sleep fuel msleep) (turn_lem fuel msleep)
  loop_lem false fuel msleep s = turn_lem fuel msleep none s

  again-woken :
      (fuel : ℕ) (msleep : Sleep k) (s : CalloutSys E)
      → again (suc fuel) msleep s ≡ (woken >>= then_sleep fuel msleep) s
  unfolding again rounds woken
  again-woken fuel msleep s =
      and_then_split (lock s) _ _ (then_sleep fuel msleep)
        (λ u t. loop_lem t.callout.active fuel msleep t)

  -- The thread is `launch`, and then `woken` after each sleep.
  thread-launch :
      (fuel : ℕ) (msleep : Sleep k) (s : CalloutSys E)
      → thread k i (suc fuel) msleep s ≡ (launch >>= then_sleep fuel msleep) s
  unfolding thread launch again
  thread-launch fuel msleep s =
      and_then_split (on_evdev (setintrfunc (some callout_inputintr)) s) _ _
        (then_sleep fuel msleep) (λ u t. again-woken fuel msleep (record t { drop = false }))

module _ {E : Type 0} (k : Kernel E) (i : InputApi E) (hz : ℕ) (pass : E → E) where
  pub to_clock : Outcome (CalloutSys E) (Option ℕ) → Outcome (Clocked E) (Unit {0})
  to_clock (ok w s) = ok tt (record { sys = s; left = w })
  to_clock (fault f) = fault f

  -- A second of `hz` ticks is over. The thread is woken up in the second in which its ticks end.
  pub sleep_on : Option ℕ → Action (Clocked E) (Unit {0})
  unfolding to_clock
  sleep_on none c = ok tt c
  sleep_on (some w) c =
      branch (ltb w (hz + hz)) (λ c. to_clock (woken k i c.sys))
        (modify (λ c. record c { left = some (w - hz) })) c

  unfoldable pub step : Event → Action (Clocked E) (Unit {0})
  unfolding sleep_on
  step second = do
    modify (λ c.
        put_sys (put_display (record (c.sys.display) { env = pass c.sys.display.env }) c.sys) c)
    left ← gets (λ c. c.left)
    sleep_on left
  step (input keycode) = zoom (λ c. c.sys) put_sys (on_input k keycode)

  pub run : List Event → Action (Clocked E) (Unit {0})
  unfolding step
  run [] = pure tt
  run (e ∷ es) = step e >> run es

  -- The thread starts, and these events follow.
  unfoldable pub run_thread : List Event → CalloutSys E → Outcome (Clocked E) (Unit {0})
  unfolding to_clock run
  run_thread es s = and_then (to_clock (launch k i s)) (λ _. run es)
