-- ===== src/Driver/Unloading.antt =====
-- Unloading the module: `framework_destroy`, with the threads asleep.
use framework_kmod.Base.{
  ok, true, inl, inr, List, Returns, [], destroyed, false, free, freed, if◌then◌else◌, live, map,
  none, refl, suc, ℕ, ◌≡◌,
}
use framework_kmod.Kernel.{Kernel, InputApi}
use framework_kmod.State.{flag_init}
use framework_kmod.State as State
use framework_kmod.Screen as Screen
use framework_kmod.Power.{Power}
use framework_kmod.Power as Power
use framework_kmod.Backlight as Backlight
use framework_kmod.Keyhandler.{KeyHandler}
use framework_kmod.Keyhandler as Keyhandler
use framework_kmod.Sysctl.Tree.{Entry}
use framework_kmod.Sysctl.Tree as Tree
use framework_kmod.Evdev.Bindings.{EvdevSys}
use framework_kmod.Evdev.Bindings.Attached.{at_work, shut, destroy-shut}
use framework_kmod.Evthread.{Client}
use framework_kmod.Evthread.Listener.{Callback}
use framework_kmod.Evthread.Calls.Life.{ending}
use framework_kmod.Callout.{Callout, Sleep}
use framework_kmod.Callout.Setup.Started.{Idle}
use framework_kmod.Callout.Setup.{CalloutHandle, thread_end, destroy-freed}
use framework_kmod.Driver.{Driver, Outside, mod_unload, modevent, destroy, teardown}

module _ {E : Type 0} (k : Kernel E) (i : InputApi E) where
  -- Threads that are asleep and end as soon as they are woken up, and a tree that can be freed or not.
  abbrev pub asleep : (List Entry → ℕ × List Entry) → Callback E → ℕ → Sleep k → Outside E
  asleep sysctl_ctx_free cb fuel msleep = record {
    kernel = k;
    input = i;
    sysctl_ctx_free = sysctl_ctx_free;
    listener = ending i cb;
    thread = thread_end k i (suc fuel) msleep;
  }

  -- A loaded module whose listeners have begun, the devices that they listen to with their
  -- clients, and no mutex held but perhaps that of the power system.
  pub record Running (devs : List (ℕ × Client)) (c : Callout) (count : ℕ) (kh : KeyHandler)
      (d : Driver E) : Type 0 where
    pub loaded : d.status ≡ 1
    pub callout_live : d.callout ≡ live c
    pub lock_free : c.lock ≡ free
    pub rwlock_free : c.rwlock ≡ free
    pub evdev_free : d.evdev.lock ≡ free
    pub evdev_up : d.evdev.state ≡ 1
    pub bound : d.evdev.bindings ≡ map (at_work i) devs
    pub sysctl_free : d.sysctl.sysctl.lock ≡ free
    pub keyhandler_live : d.keyhandler ≡ live kh
    pub power_idle : Idle d.display.power.lock
    pub screen_free : d.display.screen.config.lock ≡ free
    pub state_live :
        d.state ≡ live (record { lock = free; flags = flag_init; block_dim_count = count })

  -- After the wake-ups of the callout thread.
  abbrev pub stopped : Callout → E → E
  stopped c e = if c.active then i.wakeup (i.wakeup e) else e

  -- What is left.
  pub record Unloaded (devs : List (ℕ × Client)) (c : Callout) (d t : Driver E) : Type 0 where
    pub callout_freed : t.callout ≡ freed
    pub keyhandler_freed : t.keyhandler ≡ freed
    pub state_freed : t.state ≡ freed
    pub no_bindings : t.evdev.bindings ≡ []
    pub no_callback : t.evdev.cbfunc ≡ none
    pub dropped : t.drop ≡ true
    pub evdev_destroyed : t.evdev.lock ≡ destroyed
    pub sysctl_destroyed : t.sysctl.sysctl.lock ≡ destroyed
    pub no_cache : t.sysctl.sysctl_cache ≡ false
    pub power_destroyed : t.display.power.lock ≡ destroyed
    pub screen_destroyed : t.display.screen.config.lock ≡ destroyed
    pub same_settings : t.display.screen.settings ≡ d.display.screen.settings
    pub same_status : t.status ≡ 1
    pub sessions_shut : t.display.env ≡ shut i devs (stopped c d.display.env)

  power_lem :
      (p : Power) (e : E)
      → Idle p.lock
      → Power.destroy (record { power = p; env = e })
        ≡ ok 0 (record { power = record p { lock = destroyed }; env = e })
  unfolding Power.destroy
  power_lem p e (inl f) = rw f refl
  power_lem p e (inr h) = rw h refl

  -- `MOD_UNLOAD` of a loaded module, with no mutex held but perhaps that of the power system, the
  -- dim state with its flags as it was made, each listener asleep in its session, and the callout
  -- thread asleep in its loop if it is active: the call returns 0, whatever the kernel answers,
  -- with the dim state, the key handler and the callout structure freed, every mutex destroyed,
  -- the list of bindings empty, no callback left, and input dropped. The kernel has been asked to
  -- wake up the callout thread, if it was active, and then, device by device, to dispose of the
  -- client, to wake the listener, and to destroy the note list. The status stays 1, and the levels
  -- stay as they are.
  pub destroy-Unloaded :
      (f : List Entry → ℕ × List Entry) (cb : Callback E) (fuel : ℕ) (msleep : Sleep k)
      (devs : List (ℕ × Client)) (c : Callout) (count : ℕ) (kh : KeyHandler) (d : Driver E)
      → Running devs c count kh d
      → Returns
          (λ r t. (r ≡ 0) × Unloaded devs c d t)
          (modevent (asleep f cb fuel msleep) mod_unload d)
  unfolding modevent destroy teardown Tree.destroy Backlight.destroy Keyhandler.destroy
      Screen.destroy State.destroy
  destroy-Unloaded f cb fuel msleep devs c count kh d r =
      let h : CalloutHandle E = record {
        callout = d.callout;
        drop = d.drop;
        evdev = d.evdev;
        display = d.display;
      } in
      let e = stopped c d.display.env in
      let v : EvdevSys E = record { evdev = record (d.evdev) { cbfunc = none }; env = e } in
      simp
        (
          r.loaded,
          destroy-freed k i fuel msleep c h r.callout_live r.lock_free r.rwlock_free r.evdev_free,
          destroy-shut i cb devs v r.evdev_free r.evdev_up r.bound,
          r.sysctl_free,
          r.keyhandler_live,
          power_lem d.display.power (shut i devs e) r.power_idle,
          r.screen_free,
          r.state_live,
        )
        (
          refl,
          record {
            callout_freed = refl;
            keyhandler_freed = refl;
            state_freed = refl;
            no_bindings = refl;
            no_callback = refl;
            dropped = refl;
            evdev_destroyed = refl;
            sysctl_destroyed = refl;
            no_cache = refl;
            power_destroyed = refl;
            screen_destroyed = refl;
            same_settings = refl;
            same_status = refl;
            sessions_shut = refl;
          },
        )
