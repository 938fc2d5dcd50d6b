-- ===== src/Callout/Stopping/Code.antt =====
-- kmod/framework_callout.c: the code that the thread, the destroyer and a listener run between one
-- place of `framework_kmod.Callout.Stopping` and the next one, on the callout system itself.
pub mod Running
pub mod Follows
pub mod Matching
pub mod Moving
pub mod Reaching
pub mod Walking
pub mod Paths
pub mod Finishing
pub mod Ending
use framework_kmod.Base.{
  Action, Bool, Option, branch, false, gets, leb, modify, none, pure, some, true, u32, ℕ, ◌+◌, ◌==◌,
  ◌>>◌, ◌>>=◌,
}
use framework_kmod.Kernel.{Kernel, InputApi}
use framework_kmod.Backlight as Backlight
use framework_kmod.Display.{on_backlight}
use framework_kmod.Evdev.{IntrFunc, callout_inputintr, getlastinput, oninput, setintrfunc}
use framework_kmod.Callout.{
  sec2tick, CalloutSys, accept, dim_if, elapsed, getbrightnessfor, getcurrenttimeout, give_up, lock,
  next_seconds, on_display, on_evdev, put_callout, put_display, unlock,
}
use framework_kmod.Callout.Stopping.{
  Actor, Destroyer, Input, Runner, asking, asleep, away, born, called, comparing, destroyer, done,
  entering, gone, idle, judging, leaving, listener, locking, past, reading, released, roused,
  roused_destroyer, roused_runner, runner, scheduling, setting, sleeping, telling, testing, timer,
  unwired, using, wired, woken,
}

-- Where the three stand, with the local variables of the thread and the key of the listener.
pub record Places : Type 0 where
  pub runner : Runner
  pub destroyer : Destroyer
  pub input : Input
  pub current_timeout : ℕ
  pub last_input : ℕ
  pub elapsed_time : ℕ
  pub next_wait : ℕ
  pub keycode : Option ℕ

abbrev pub goes : Runner → Places → Places
goes r p = record p { runner = r }

abbrev pub moves : Destroyer → Places → Places
moves d p = record p { destroyer = d }

abbrev pub turns : Input → Places → Places
turns j p = record p { input = j }

module _ {E : Type 0} (i : InputApi E) where
  -- `wakeup` on the channel of the structure.
  abbrev pub wakes : Action (CalloutSys E) (Unit {0})
  wakes = modify (λ s. put_display (record (s.display) { env = i.wakeup s.display.env }) s)

module _ {E A : Type 0} (k : Kernel E) (i : InputApi E)
    (next : Places → Action (CalloutSys E) A) where
  -- The code from one place of the thread to the next. It does not leave `sleeping` and `gone` by
  -- itself; at `sleeping` the sleep is over.
  unfoldable pub at_runner : Runner → Places → Action (CalloutSys E) A
  unfolding give_up
  at_runner born p = on_evdev (setintrfunc (some callout_inputintr)) >> next (goes wired p)
  at_runner wired p = modify (λ s. record s { drop = false }) >> next (goes entering p)
  at_runner entering p = lock >> next (goes testing p)
  at_runner testing p = do
    active ← gets (λ s. s.callout.active)
    unlock
    branch active (next (goes asking p)) (next (goes leaving p))
  at_runner asking p = do
    current_timeout ← getcurrenttimeout k
    lock
    next (record p { runner = judging; current_timeout = current_timeout })
  at_runner judging p =
      branch (p.current_timeout == 0) (do give_up k; unlock; next (goes leaving p))
        (unlock >> next (goes reading p))
  at_runner reading p = do
    last_input ← on_evdev getlastinput
    lock
    next (record p { runner = comparing; last_input = last_input })
  at_runner comparing p = do
    elapsed_time ← gets (λ s. elapsed (k.time_uptime s.display.env) p.last_input)
    dim_if (leb p.current_timeout elapsed_time)
    unlock
    next (record p { runner = setting; elapsed_time = elapsed_time })
  at_runner setting p = do
    brightness ← getbrightnessfor k
    on_display (on_backlight (Backlight.setbrightness k brightness))
    lock
    next (goes scheduling p)
  at_runner scheduling p = do
    next_wait ← gets (λ s. sec2tick k (next_seconds p.elapsed_time p.current_timeout))
    modify (λ s.
        put_callout
          (record (s.callout) { expect_next_callout = u32 (k.tick s.display.env + next_wait) }) s)
    unlock
    next (record p { runner = sleeping; next_wait = next_wait })
  at_runner sleeping p = next (goes woken p)
  at_runner woken p = lock >> next (goes testing p)
  at_runner leaving p =
      wakes i >> next (record p { runner = gone; destroyer = roused_destroyer p.destroyer })
  at_runner gone p = next p

  -- The same for the destroyer. It does not leave `asleep` by itself; what follows `released` destroys
  -- the mutexes and frees the memory.
  unfoldable pub at_destroyer : Destroyer → Places → Action (CalloutSys E) A
  at_destroyer idle p = on_evdev (setintrfunc none) >> next (moves unwired p)
  at_destroyer unwired p = modify (λ s. record s { drop = true }) >> next (moves locking p)
  at_destroyer locking p = lock >> next (moves telling p)
  at_destroyer telling p = do
    active ← gets (λ s. s.callout.active)
    branch active
        (do
          modify (λ s. put_callout (record (s.callout) { active = false }) s)
          wakes i
          unlock
          next (record p { runner = roused_runner p.runner; destroyer = asleep }))
        (next (moves (past false) p))
  at_destroyer asleep p = next (moves roused p)
  at_destroyer roused p = lock >> next (moves (past true) p)
  at_destroyer (past slept) p = unlock >> next (moves (released slept) p)
  at_destroyer (released slept) p = next p
  at_destroyer (done slept) p = next p

  -- What follows the copy of the interrupt function.
  unfoldable pub copied : Places → Option IntrFunc → Action (CalloutSys E) A
  copied p none = next (turns away p)
  copied p (some callout_inputintr) = next (turns called p)

  -- The same for a listener that has input.
  unfoldable pub at_input : Input → Places → Action (CalloutSys E) A
  unfolding copied
  at_input away p = do
    now ← gets (λ s. k.time_uptime s.display.env)
    local_cbfunc ← on_evdev (oninput now)
    copied p local_cbfunc
  at_input called p = do
    drop ← gets (λ s. s.drop)
    branch drop (next (turns away p)) (next (turns using p))
  at_input using p = accept k p.keycode >> next (turns away p)

-- Who runs: the thread, the destroyer, the timer that ends the thread's sleep, or a listener with
-- input.
pub data Who : Type 0 where
  thread closer clock reporter : Who

-- In the words of the interleaving model.
abbrev pub actor : Who → Places → Actor
actor thread p = runner (elim (p.current_timeout == 0) [ true ↦ false | false ↦ true ])
actor closer p = destroyer
actor clock p = timer
actor reporter p = listener
