-- ===== src/Driver/Loading.antt =====
-- Loading the module: `framework_init`, on every branch.
use framework_kmod.Base.{
  List, Outcome, Returns, [], ap, arith, branch, false, free, inl, inr, live, modify, null, pure,
  refl, replace, Returns-behind, Returns-branch, Returns-zoom, some, subst, sym, ℕ, ◌==◌, ◌>>◌, ◌∙◌,
  ◌≡◌, ◌≢◌,
}
use framework_kmod.Kernel.{enxio}
use framework_kmod.State as State
use framework_kmod.Screen.{power_config}
use framework_kmod.Screen as Screen
use framework_kmod.Screen.Bounds as Bounds
use framework_kmod.Power.{PowerSys}
use framework_kmod.Power as Power
use framework_kmod.Power.Start.{Ends, init-Ends}
use framework_kmod.Backlight as Backlight
use framework_kmod.Backlight.Panel.{init_returns}
use framework_kmod.Display.{Display, power_of, put_power, backlight_of, put_backlight}
use framework_kmod.Keyhandler as Keyhandler
use framework_kmod.Sysctl.Tree as Tree
use framework_kmod.Evdev.Bindings.Attached.{listeners, init-listeners}
use framework_kmod.Callout.Setup.{CalloutHandle, new_callout}
use framework_kmod.Callout.Setup as Setup
use framework_kmod.Callout.Setup.Started.{Idle, Started, init-Started}
use framework_kmod.Driver.{
  Driver, Outside, init, cleared, modevent, mod_load, errorexit, start_callout, start_evdev,
  start_sysctl, start_backlight, start_keyhandler, start_power,
}
use framework_kmod.Driver.Loaded.{Half, Known, Loads}

module _ {E : Type 0} (o : Outside E) where
  callout_lem :
      (devs : List ℕ) (d : Driver E)
      → Known o devs
      → Half d
      → d.sysctl.sysctl.lock ≡ free
      → d.evdev.lock ≡ free
      → d.evdev.state ≡ 1
      → d.evdev.bindings ≡ listeners o.input devs []
      → Returns (Loads o devs) (start_callout o d)
  unfolding start_callout
  callout_lem devs d n h sf ef es eb =
      let s : CalloutHandle E = record {
        callout = d.callout;
        drop = d.drop;
        evdev = d.evdev;
        display = d.display;
      } in
      let put : CalloutHandle E → Driver E → Driver E = λ s t. record t {
        callout = s.callout;
        drop = s.drop;
        evdev = s.evdev;
        display = s.display;
      } in
      Returns-behind (λ _ t. Started d.keyhandler s t) (Loads o devs) put d
        (Setup.init o.kernel o.input (some power_config) d.keyhandler s)
        (λ _. modify (λ t. record t { status = 1 }) >> pure 0)
        (λ a t p. inl (
          refl,
          record {
            marked = refl;
            state_new = h.state_new;
            keyhandler_new = h.keyhandler_new;
            screen_ready = subst Bounds.IsReady (sym p.same_screen) h.ready.screen_ready;
            power_idle = p.power_idle;
            sysctl_free = sf;
            evdev_free = ap (λ v. v.lock) p.same_evdev ∙ ef;
            evdev_up = ap (λ v. v.state) p.same_evdev ∙ es;
            bound = ap (λ v. v.bindings) p.same_evdev ∙ eb;
            callout_new =
                p.allocated ∙ ap (λ kh. live (new_callout (some power_config) kh)) h.keyhandler_new;
          },
        ))
        (init-Started o.kernel o.input d.keyhandler s h.ready n.acpi)

  evdev_lem :
      (devs : List ℕ) (d : Driver E)
      → Known o devs
      → Half d
      → d.sysctl.sysctl.lock ≡ free
      → Returns (Loads o devs) (start_evdev o d)
  unfolding start_evdev
  evdev_lem devs d n h sf =
      rw
        (init-listeners o.kernel o.input devs (record { evdev = d.evdev; env = d.display.env })
          (n.devices d.display.env))
        (callout_lem devs _ n
          (record {
            state_new = h.state_new;
            keyhandler_new = h.keyhandler_new;
            ready = record { power_free = h.ready.power_free; screen_ready = h.ready.screen_ready };
            no_callout = h.no_callout;
          })
          sf refl refl refl)

  sysctl_lem :
      (devs : List ℕ) (d : Driver E)
      → Known o devs
      → Half d
      → Returns (Loads o devs) (start_sysctl o d)
  unfolding start_sysctl Tree.init
  sysctl_lem devs d n h =
      evdev_lem devs _ n
        (record {
          state_new = h.state_new;
          keyhandler_new = h.keyhandler_new;
          ready = h.ready;
          no_callout = h.no_callout;
        })
        refl

  -- Once the power system is up: the error exit with 3.
  undo_lem :
      (d : Driver E) (devs : List ℕ) (error : ℕ)
      → error ≢ 0
      → Half d
      → Returns (Loads o devs) (errorexit o 3 error d)
  unfolding errorexit Keyhandler.destroy Power.destroy Screen.destroy State.destroy State.init
      Keyhandler.init Backlight.destroy
  undo_lem d devs error ne h =
      simp (h.keyhandler_new, h.state_new, h.ready.power_free, h.ready.screen_ready.unlocked)
        (inr (
          ne,
          record {
            marked = refl;
            state_freed = refl;
            screen_destroyed = refl;
            no_callout = h.no_callout;
            rest = inr (refl, refl);
          },
        ))

  nonzero : (r : ℕ) → (r == 0) ≡ false → r ≢ 0
  nonzero r e = ground arith

  backlight_lem :
      (devs : List ℕ) (d : Driver E)
      → Known o devs
      → Half d
      → Returns (Loads o devs) (start_backlight o d)
  unfolding start_backlight
  backlight_lem devs d n h =
      let b = init_returns o.kernel (backlight_of d.display) in
      let t : Driver E = record d { display = put_backlight b.1 d.display } in
      let half : Half t = record {
        state_new = h.state_new;
        keyhandler_new = h.keyhandler_new;
        ready = record { power_free = h.ready.power_free; screen_ready = h.ready.screen_ready };
        no_callout = h.no_callout;
      } in
      rw (b.2) (
        Returns-branch (Loads o devs) (b.0 == 0) (start_sysctl o) (errorexit o 3 b.0) t
          (λ _. sysctl_lem devs t n half) (λ e. undo_lem t devs b.0 (nonzero b.0 e) half))

  -- The power system is not up: the error exit with 1.
  early_lem :
      (devs : List ℕ) (d : Driver E)
      → d.state ≡ State.init
      → Bounds.IsReady d.display.screen
      → d.callout ≡ null
      → d.keyhandler ≡ null
      → Idle d.display.power.lock
      → Returns (Loads o devs) (errorexit o 1 enxio d)
  unfolding errorexit Screen.destroy State.destroy State.init
  early_lem devs d st r c kh f =
      simp (st, r.unlocked)
        (inr (
          λ z. ground arith,
          record {
            marked = refl;
            state_freed = refl;
            screen_destroyed = refl;
            no_callout = c;
            rest = inl (kh, f);
          },
        ))

  power_lem :
      (devs : List ℕ) (d : Driver E)
      → Known o devs
      → d.state ≡ State.init
      → Bounds.IsReady d.display.screen
      → d.callout ≡ null
      → d.keyhandler ≡ null
      → Returns (Loads o devs) (start_power o d)
  unfolding start_power start_keyhandler
  power_lem devs d n st r c kh =
      let out : Outcome (PowerSys E) ℕ = Power.init o.kernel (power_of d.display) in
      let P : ℕ → Display E → Type 0 =
        λ e t. Ends o.kernel e (power_of t) × (t.screen ≡ d.display.screen) in
      Returns-behind P (Loads o devs) (λ t d. record d { display = t }) d
        (replace put_power d.display out)
        (λ error. branch (error == 0) (start_keyhandler o) (errorexit o 1 error))
        (λ a t q.
          let still : Bounds.IsReady t.screen = subst Bounds.IsReady (sym q.1) r in
          elim q.0 [
            | inl (z, f, _, _) ↦ rw (z) (
                backlight_lem devs _ n (record {
                  state_new = st;
                  keyhandler_new = refl;
                  ready = record { power_free = f; screen_ready = still };
                  no_callout = c;
                }))
            | inr (x, f) ↦ rw (x) (early_lem devs (record d { display = t }) st still c kh f)
          ])
        (Returns-zoom (Ends o.kernel) P put_power d.display out (λ a t p. (p, refl))
          (init-Ends o.kernel (power_of d.display) n.acpi))

  -- `MOD_LOAD`, where ACPI's constants differ and the input devices have the driver pointers
  -- `devs`, whatever the memory held before and whatever the kernel answers otherwise: the call
  -- returns. If with 0, the module is loaded: the screen configuration is ready, the mutexes of
  -- sysctl and evdev are free and that of the power system is free or held, the dim state, the key
  -- handler and the callout structure are new, and one session with the callback is bound to each
  -- device of `devs` with a listed name, the last one at the head. If with an error, the status is
  -- 2, the dim state is freed, the screen mutex destroyed, no callout structure is allocated, and
  -- either the key handler was never allocated and the power mutex still stands, free or held, or
  -- the key handler is freed and the power mutex destroyed.
  pub init-Loads :
      (devs : List ℕ) (d : Driver E) → Known o devs → Returns (Loads o devs) (modevent o mod_load d)
  unfolding modevent init
  init-Loads devs d n =
      let (s, e, r) = Bounds.init-IsReady (cleared d).display.screen in
      rw (e) (
        power_lem devs
          (record (cleared d) {
            state = State.init;
            display = record ((cleared d).display) { screen = s };
          })
          n refl r refl refl)
