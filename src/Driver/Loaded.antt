-- ===== src/Driver/Loaded.antt =====
-- What `framework_init` leaves, on each branch.
use framework_kmod.Base.{
  List, [], codes, destroyed, free, freed, live, map, null, some, ℕ, ◌≡◌, ◌≢◌, ◌⊎◌,
}
use framework_kmod.State as State
use framework_kmod.Screen.{power_config}
use framework_kmod.Screen.Bounds as Bounds
use framework_kmod.Cdevs.{named}
use framework_kmod.Power.Modes.{IsAcpi}
use framework_kmod.Display.{IsReady}
use framework_kmod.Keyhandler as Keyhandler
use framework_kmod.Evdev.Bindings.Attached.{listeners}
use framework_kmod.Callout.Setup.{new_callout}
use framework_kmod.Callout.Setup.Started.{Idle}
use framework_kmod.Driver.{Driver, Outside}

module _ {E : Type 0} where
  -- Before the callout system is started.
  pub record Half (d : Driver E) : Type 0 where
    pub state_new : d.state ≡ State.init
    pub keyhandler_new : d.keyhandler ≡ Keyhandler.init (some power_config)
    pub ready : IsReady d.display
    pub no_callout : d.callout ≡ null

  -- After a failure: `rest` says whether the key handler and the power system were set up.
  pub record Undone (t : Driver E) : Type 0 where
    pub marked : t.status ≡ 2
    pub state_freed : t.state ≡ freed
    pub screen_destroyed : t.display.screen.config.lock ≡ destroyed
    pub no_callout : t.callout ≡ null
    pub rest :
        ((t.keyhandler ≡ null) × Idle t.display.power.lock)
        ⊎ ((t.keyhandler ≡ freed) × (t.display.power.lock ≡ destroyed))

module _ {E : Type 0} (o : Outside E) where
  -- What stands outside: ACPI's constants differ, and the input devices have the driver pointers
  -- `devs`, at all times.
  pub record Known (devs : List ℕ) : Type 0 where
    pub acpi : IsAcpi o.kernel
    pub devices :
        (e : E)
        → map (λ c. c.si_drv1) (named (codes "input/event") (o.kernel.cdevp_list e))
          ≡ map (λ d. some d) devs

  -- A loaded module.
  pub record Loaded (devs : List ℕ) (t : Driver E) : Type 0 where
    pub marked : t.status ≡ 1
    pub state_new : t.state ≡ State.init
    pub keyhandler_new : t.keyhandler ≡ Keyhandler.init (some power_config)
    pub screen_ready : Bounds.IsReady t.display.screen
    pub power_idle : Idle t.display.power.lock
    pub sysctl_free : t.sysctl.sysctl.lock ≡ free
    pub evdev_free : t.evdev.lock ≡ free
    pub evdev_up : t.evdev.state ≡ 1
    pub bound : t.evdev.bindings ≡ listeners o.input devs []
    pub callout_new :
        t.callout ≡ live (new_callout (some power_config) (Keyhandler.init (some power_config)))

  abbrev pub Loads : List ℕ → ℕ → Driver E → Type 0
  Loads devs error t = ((error ≡ 0) × Loaded devs t) ⊎ ((error ≢ 0) × Undone t)
