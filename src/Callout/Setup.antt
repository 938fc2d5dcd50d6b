-- ===== src/Callout/Setup.antt =====
-- kmod/framework_callout.c: `framework_callout_init` and `framework_callout_destroy`.
pub mod Started
use framework_kmod.Base.{
  Action, Bool, Bool-cases, Option, Outcome, Slot, branch, false, fault, free, freed, gets,
  if◌then◌else◌, inl, inr, live, modify, mtx_destroy, none, null, ok, pure, refl, suc, true,
  use_after_free, ℕ, ◌≡◌, ◌>>=◌, ◌>>◌,
}
use framework_kmod.Kernel.{Kernel, InputApi}
use framework_kmod.Screen.{ConfigPtr, power_config}
use framework_kmod.Backlight as Backlight
use framework_kmod.Display.{Display, on_backlight}
use framework_kmod.Keyhandler.{KeyHandler}
use framework_kmod.Evdev.{Evdev, setintrfunc}
use framework_kmod.Callout.{
  Callout, CalloutSys, high, put_callout, put_display, put_lock, put_rwlock, on_display,
  getbrightnessfor, rounds, finish, Sleep, lock, unlock,
}

-- `CalloutSys` behind the pointer to the callout structure.
pub record CalloutHandle (E : Type 0) : Type 0 where
  pub callout : Slot Callout
  pub drop : Bool
  pub evdev : Evdev
  pub display : Display E

module _ {E : Type 0} where
  abbrev pub behind : Callout → CalloutHandle E → CalloutSys E
  behind c h = record { callout = c; drop = h.drop; evdev = h.evdev; display = h.display }

  abbrev pub pointed : Slot Callout → CalloutSys E → CalloutHandle E
  pointed p s = record { callout = p; drop = s.drop; evdev = s.evdev; display = s.display }

  abbrev allocated : {A : Type 0} → Outcome (CalloutSys E) A → Outcome (CalloutHandle E) A
  allocated (ok a s) = ok a (pointed (live s.callout) s)
  allocated (fault f) = fault f

  abbrev pub released : {A : Type 0} → Outcome (CalloutSys E) A → Outcome (CalloutHandle E) A
  released (ok a s) = ok a (pointed freed s)
  released (fault f) = fault f

-- The structure as `malloc` zeroed it, with what is stored before the brightness is set.
abbrev pub new_callout : Option ConfigPtr → Slot KeyHandler → Callout
new_callout config keyhandler = record {
  power_config = config;
  current_level = high;
  expect_next_callout = 0;
  active = true;
  lock = free;
  rwlock = free;
  keyhandler = keyhandler;
}

module _ {E : Type 0} (k : Kernel E) (i : InputApi E) where
  -- The pointer that is returned is in the new state, and never null.
  unfoldable pub init : Option ConfigPtr → Slot KeyHandler → Action (CalloutHandle E) (Unit {0})
  init config keyhandler h = allocated (
      (do
        brightness ← getbrightnessfor k
        on_display (on_backlight (Backlight.setbrightness k brightness))
        modify
            (λ s. put_display (record (s.display) { env = (i.kthread_add s.display.env).env }) s))
        (behind (new_callout config keyhandler) h))

module _ {E : Type 0} (k : Kernel E) (i : InputApi E) where
  -- What the thread does once it is woken up, and does not sleep again: it takes the mutex, and the
  -- loop ends by its test.
  unfoldable pub thread_end : ℕ → Sleep k → Action (CalloutSys E) (Unit {0})
  unfolding rounds finish
  thread_end fuel msleep = do lock; ended ← rounds k fuel msleep; branch ended (finish i) (pure tt)

module _ {E : Type 0} (i : InputApi E) where
  -- `if (co->active)` and what it guards; `others` run while `msleep` waits for the thread.
  unfoldable pub await : Action (CalloutSys E) (Unit {0}) → Action (CalloutSys E) (Unit {0})
  await others = do
    active ← gets (λ s. s.callout.active)
    branch active
        (do
          modify (λ s. put_callout (record (s.callout) { active = false }) s)
          modify (λ s. put_display (record (s.display) { env = i.wakeup s.display.env }) s)
          unlock
          others
          lock)
        (pure tt)

  -- From the lock of the structure to its end.
  unfoldable pub close : Action (CalloutSys E) (Unit {0}) → Action (CalloutSys E) (Unit {0})
  unfolding await
  close others = do
    lock
    await others
    unlock
    mtx_destroy (λ s. s.callout.rwlock) put_rwlock
    mtx_destroy (λ s. s.callout.lock) put_lock

  abbrev pub noted : Outcome Evdev (Unit {0}) → Action (CalloutHandle E) (Unit {0})
  noted (ok a e) h = ok tt (record h { evdev = e; drop = true })
  noted (fault f) h = fault f

  unfoldable pub destroy_at :
      Action (CalloutSys E) (Unit {0}) → Slot Callout → Action (CalloutHandle E) (Unit {0})
  unfolding close
  destroy_at others null h = ok tt h
  destroy_at others freed h = fault use_after_free
  destroy_at others (live c) h = released (close others (behind c h))

  unfoldable pub destroy : Action (CalloutSys E) (Unit {0}) → Action (CalloutHandle E) (Unit {0})
  unfolding destroy_at
  destroy others = do
    (λ h. noted (setintrfunc none h.evdev) h)
    (λ h. destroy_at others h.callout h)

module _ {E : Type 0} (k : Kernel E) (i : InputApi E) where
  -- `framework_callout_destroy` with the mutexes free, and with the thread asleep in its loop if it
  -- is active: it returns with the structure freed and the interrupt function taken away, input is
  -- dropped from then on, and the thread has left its loop without another round.
  pub destroy-freed :
      (fuel : ℕ) (msleep : Sleep k) (c : Callout) (h : CalloutHandle E)
      → h.callout ≡ live c
      → c.lock ≡ free
      → c.rwlock ≡ free
      → h.evdev.lock ≡ free
      → destroy i (thread_end k i (suc fuel) msleep) h
        ≡ ok tt (record {
          callout = freed;
          drop = true;
          evdev = record (h.evdev) { cbfunc = none };
          display = record (h.display) {
            env = if c.active then i.wakeup (i.wakeup h.display.env) else h.display.env;
          };
        })
  unfolding destroy setintrfunc thread_end
  destroy-freed fuel msleep c h l f r e = elim (Bool-cases c.active) [
    | inl y ↦ simp (l, f, r, e, y) refl
    | inr n ↦ simp (l, f, r, e, n) refl
  ]
