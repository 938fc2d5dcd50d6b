-- ===== src/Callout/Setup/Started.antt =====
-- `framework_callout_init` on a display that is ready.
use framework_kmod.Base.{Mutex, Returns, Slot, free, held, inl, inr, live, refl, some, ◌≡◌, ◌⊎◌}
use framework_kmod.Kernel.{Kernel, InputApi}
use framework_kmod.Power.{PowerSys, PowerType, bat, pwr, ivl}
use framework_kmod.Power.Modes.{IsAcpi}
use framework_kmod.Power.Modes as Modes
use framework_kmod.Screen.{power_config}
use framework_kmod.Backlight.Panel.{setbrightness_returns}
use framework_kmod.Display.{IsReady, power_of, backlight_of}
use framework_kmod.Utils.Lookup.{mode_now}
use framework_kmod.Keyhandler.{KeyHandler}
use framework_kmod.Callout.{high}
use framework_kmod.Callout.Wanted.{wanted, config_now, queried, CanRun, getbrightnessfor-wanted}
use framework_kmod.Callout.Setup.{CalloutHandle, behind, new_callout, init}

-- A mutex that may be destroyed.
abbrev pub Idle : Mutex → Type 0
Idle m = (m ≡ free) ⊎ (m ≡ held)

module _ {E : Type 0} where
  -- What starting the callout system leaves.
  pub record Started (kh : Slot KeyHandler) (h t : CalloutHandle E) : Type 0 where
    pub allocated : t.callout ≡ live (new_callout (some power_config) kh)
    pub same_drop : t.drop ≡ h.drop
    pub same_evdev : t.evdev ≡ h.evdev
    pub same_screen : t.display.screen ≡ h.display.screen
    pub power_idle : Idle t.display.power.lock

module _ {E : Type 0} (k : Kernel E) (i : InputApi E) where
  after-Idle : (m : PowerType) (s : PowerSys E) → Idle (Modes.after k m s).power.lock
  after-Idle bat s = inl refl
  after-Idle pwr s = inl refl
  after-Idle ivl s = inr refl

  pub init-Started :
      (kh : Slot KeyHandler) (h : CalloutHandle E)
      → IsReady h.display
      → IsAcpi k
      → Returns (λ _ t. Started kh h t) (init k i (some power_config) kh h)
  unfolding init
  init-Started kh h r a =
      let s = behind (new_callout (some power_config) kh) h in
      let c : CanRun s = record { rw_free = refl; has_config = refl; display_ready = r } in
      let b = wanted high (config_now k s) in
      let set = setbrightness_returns k b (backlight_of (queried k s).display) in
      rw (getbrightnessfor-wanted k s c a, set.2)
        (record {
          allocated = refl;
          same_drop = refl;
          same_evdev = refl;
          same_screen = refl;
          power_idle = after-Idle (mode_now k h.display) (power_of h.display);
        })
