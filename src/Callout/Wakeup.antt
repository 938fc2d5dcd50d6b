-- ===== src/Callout/Wakeup.antt =====
-- `framework_evdev_oninput` of kmod/framework_evdev.c with the interrupt function that it calls.
use framework_kmod.Base.{
  Action, Bool-cases, Option, false, free, gets, if◌then◌else◌, inl, inr, none, ok, pure, refl,
  some, true, ℕ, ◌∙◌, ◌≡◌, ◌>>=◌,
}
use framework_kmod.Kernel.{Kernel}
use framework_kmod.Power.Modes.{IsAcpi}
use framework_kmod.Evdev.{IntrFunc, callout_inputintr, oninput, oninput_lem, oninput_off}
use framework_kmod.Callout.{high, CalloutSys, put_level, on_evdev, inputintr}
use framework_kmod.Callout.Wanted.{wanted, config_now, queried, CanRun}
use framework_kmod.Callout.Input.{shown, inputintr-shown}

module _ {E : Type 0} (k : Kernel E) where
  -- `if (local_cbfunc) local_cbfunc(local_ctx, keycode);`
  unfoldable pub call_back : Option ℕ → Option IntrFunc → Action (CalloutSys E) (Unit {0})
  call_back keycode none = pure tt
  call_back keycode (some callout_inputintr) = inputintr k keycode

  unfoldable pub on_input : Option ℕ → Action (CalloutSys E) (Unit {0})
  unfolding call_back
  on_input keycode = do
    now ← gets (λ s. k.time_uptime s.display.env)
    local_cbfunc ← on_evdev (oninput now)
    call_back keycode local_cbfunc

  -- The time of the last input is now.
  abbrev pub touched : CalloutSys E → CalloutSys E
  touched s = record s { evdev = record (s.evdev) { last_input = k.time_uptime s.display.env } }

  pub touched-CanRun : (s : CalloutSys E) → CanRun s → CanRun (touched s)
  touched-CanRun s c = record {
    rw_free = c.rw_free;
    has_config = c.has_config;
    display_ready = c.display_ready;
  }

  pub noted_lem :
      (keycode : Option ℕ) (s : CalloutSys E)
      → s.evdev.lock ≡ free
      → s.evdev.active ≡ true
      → s.evdev.cbfunc ≡ some callout_inputintr
      → on_input keycode s ≡ inputintr k keycode (touched s)
  unfolding on_input call_back
  noted_lem keycode s f a b = simp (oninput_lem (k.time_uptime s.display.env) s.evdev f a, b) refl

  -- Input without a key, while the input callback is active and the thread has set its interrupt
  -- function: the time of the last input is now, the level is HIGH, ACPI is asked once, and the panel
  -- is set to `brightness_high` of the configuration in use, or to 100 where ACPI's answer leaves
  -- that open.
  on_input-shown :
      (s : CalloutSys E)
      → CanRun s
      → IsAcpi k
      → s.evdev.lock ≡ free
      → s.evdev.active ≡ true
      → s.evdev.cbfunc ≡ some callout_inputintr
      → s.drop ≡ false
      → on_input none s
        ≡ shown k (wanted high (config_now k s)) (queried k (put_level high (touched s)))
  on_input-shown s c a f on cb d =
      noted_lem none s f on cb ∙ inputintr-shown k (touched s) (touched-CanRun s c) a d

  -- Input while no interrupt function is set does not change the level or the panel; its time is
  -- noted if the input callback is active.
  pub on_input_early :
      (keycode : Option ℕ) (s : CalloutSys E)
      → s.evdev.lock ≡ free
      → s.evdev.cbfunc ≡ none
      → on_input keycode s ≡ ok tt (if s.evdev.active then touched s else s)
  unfolding on_input call_back
  on_input_early keycode s f unset_func = elim (Bool-cases s.evdev.active) [
    | inl on ↦ simp (on, oninput_lem (k.time_uptime s.display.env) s.evdev f on, unset_func) refl
    | inr off ↦ simp (off, oninput_off (k.time_uptime s.display.env) s.evdev off) refl
  ]
