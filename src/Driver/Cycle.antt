-- ===== src/Driver/Cycle.antt =====
-- Loading the module and unloading it again, kmod/framework.c with all parts.
use framework_kmod.Base.{
  Bool-cases, List, Outcome, Returns, Returns-map, Slot, [], fault, if◌then◌else◌, inl, inr, map,
  null, ok, refl, some, ℕ, ◌≡◌, ◌≢◌, ◌⊎◌, ◌∷◌, ◌∙◌, ap, freed, live, Bool, Option,
}
use framework_kmod.Kernel.{Kernel, InputApi}
use framework_kmod.State.{DimState}
use framework_kmod.State as State
use framework_kmod.Screen.{power_config, ScreenData}
use framework_kmod.Keyhandler as Keyhandler
use framework_kmod.Sysctl.Tree.{Entry}
use framework_kmod.Evthread.{Client, Ethread, Handle, new_client}
use framework_kmod.Evthread.Calls.{at_handle}
use framework_kmod.Evthread.Listener.{Callback, begin}
use framework_kmod.Evdev.{Binding, IntrFunc}
use framework_kmod.Evdev.Bindings.{listened, size_of}
use framework_kmod.Evdev.Bindings.Attached.{binding, listeners, at_work}
use framework_kmod.Callout.{BrightMode, Callout, Sleep}
use framework_kmod.Callout.Setup.{new_callout}
use framework_kmod.Driver.{Driver, modevent, mod_load, mod_unload}
use framework_kmod.Driver.Loaded.{Known, Loaded, Loads, Undone}
use framework_kmod.Driver.Loading.{init-Loads}
use framework_kmod.Driver.Unloading.{asleep, Running, Unloaded, destroy-Unloaded}

-- What the callout thread, the sysctls, the keys and the kernel may have changed since the loading.
pub record Meanwhile (E : Type 0) : Type 0 where
  pub cbfunc : Option IntrFunc
  pub drop : Bool
  pub last_input : ℕ
  pub level : BrightMode
  pub next : ℕ
  pub active : Bool
  pub count : ℕ
  pub settings : ScreenData
  pub env : E

abbrev pub slot_map : {S : Type 0} → (S → S) → Slot S → Slot S
slot_map f null = null
slot_map f (live s) = live (f s)
slot_map f freed = freed

module _ {E : Type 0} where
  abbrev pub callout_later : Meanwhile E → Callout → Callout
  callout_later w c = record c {
    current_level = w.level;
    expect_next_callout = w.next;
    active = w.active;
  }

  abbrev pub count_later : Meanwhile E → DimState → DimState
  count_later w s = record s { block_dim_count = w.count }

  abbrev pub pointer_after : Outcome (Handle E) (Unit {0}) → Slot Ethread
  pointer_after (ok _ h) = h.pointer
  pointer_after (fault f) = null

module _ {E : Type 0} (k : Kernel E) (i : InputApi E) where
  -- A binding after its listener has begun.
  abbrev pub begun : E → Binding → Binding
  begun e b = record b {
    listener_thread =
        pointer_after (at_handle (begin i) (record { pointer = b.listener_thread; env = e }));
  }

  -- The devices that are listened to, with their clients, the last one first.
  abbrev pub heard : List ℕ → List (ℕ × Client) → List (ℕ × Client)
  heard [] ps = ps
  heard (d ∷ ds) ps =
      heard ds (if listened i d then (d, new_client (size_of (i.ev_report_size d)) d) ∷ ps else ps)

  begun_lem :
      (e : E) (dev : ℕ)
      → begun e (binding i 3 dev) ≡ at_work i (dev, new_client (size_of (i.ev_report_size dev)) dev)
  unfolding begin
  begun_lem e dev = refl

  cons_lem : {b c : Binding} {bs cs : List Binding} → bs ≡ cs → b ≡ c → (b ∷ bs) ≡ (c ∷ cs)
  cons_lem h e = rw (h, e) refl

  heard_lem :
      (e : E) (devs : List ℕ) (bs : List Binding) (ps : List (ℕ × Client))
      → map (begun e) bs ≡ map (at_work i) ps
      → map (begun e) (listeners i devs bs) ≡ map (at_work i) (heard devs ps)
  heard_lem e [] bs ps h = h
  heard_lem e (d ∷ ds) bs ps h = elim (Bool-cases (listened i d)) [
    | inl y ↦ rw y (
        heard_lem e ds (binding i 3 d ∷ bs) ((d, new_client (size_of (i.ev_report_size d)) d) ∷ ps)
          (cons_lem h (begun_lem e d)))
    | inr n ↦ rw n (heard_lem e ds bs ps h)
  ]

  -- The driver when each listener has begun and sleeps for the first time, and `w` is the rest.
  abbrev pub later : Meanwhile E → Driver E → Driver E
  later w d = record d {
    callout = slot_map (callout_later w) d.callout;
    state = slot_map (count_later w) d.state;
    drop = w.drop;
    display = record (d.display) {
      screen = record (d.display.screen) { settings = w.settings };
      env = w.env;
    };
    evdev = record (d.evdev) {
      bindings = map (begun d.display.env) d.evdev.bindings;
      cbfunc = w.cbfunc;
      last_input = w.last_input;
    };
  }

  abbrev pub last_callout : Meanwhile E → Callout
  last_callout w =
      callout_later w (new_callout (some power_config) (Keyhandler.init (some power_config)))

  later-Running :
      (f : List Entry → ℕ × List Entry) (cb : Callback E) (fuel : ℕ) (msleep : Sleep k)
      (devs : List ℕ) (w : Meanwhile E) (t : Driver E)
      → Loaded (asleep k i f cb fuel msleep) devs t
      → Running k i
          (heard devs [])
          (last_callout w)
          w.count
          (record { flags = 1; power_config = some power_config })
          (later w t)
  unfolding State.init Keyhandler.init
  later-Running f cb fuel msleep devs w t l = record {
    loaded = l.marked;
    callout_live = ap (slot_map (callout_later w)) l.callout_new;
    lock_free = refl;
    rwlock_free = refl;
    evdev_free = l.evdev_free;
    evdev_up = l.evdev_up;
    bound = ap (map (begun t.display.env)) l.bound ∙ heard_lem t.display.env devs [] [] refl;
    sysctl_free = l.sysctl_free;
    keyhandler_live = l.keyhandler_new;
    power_idle = l.power_idle;
    screen_free = l.screen_ready.unlocked;
    state_live = ap (slot_map (count_later w)) l.state_new;
  }

  unload :
      (f : List Entry → ℕ × List Entry) (cb : Callback E) (fuel : ℕ) (msleep : Sleep k)
      (devs : List ℕ) (w : Meanwhile E) (t : Driver E)
      → Loaded (asleep k i f cb fuel msleep) devs t
      → Returns
          (λ r u. (r ≡ 0) × Unloaded k i (heard devs []) (last_callout w) (later w t) u)
          (modevent (asleep k i f cb fuel msleep) mod_unload (later w t))
  unload f cb fuel msleep devs w t l =
      destroy-Unloaded k i f cb fuel msleep (heard devs []) (last_callout w) w.count
        (record { flags = 1; power_config = some power_config }) (later w t)
        (later-Running f cb fuel msleep devs w t l)

  -- `MOD_LOAD`, and later `MOD_UNLOAD`, where ACPI's constants differ and the input devices
  -- have the driver pointers `devs`, whatever the memory held before and whatever the kernel
  -- answers. If the first call returns 0, let each listener begin and sleep for the first time,
  -- the callout thread sleep in its loop if it is active, and let the interrupt function, the
  -- drop flag, the time of the last input, the level and the time of the next round, whether
  -- the callout is active, the counter of the dim state, the levels and timeouts and the
  -- kernel's state be anything: the second call returns 0, with the dim state, the key handler
  -- and the callout structure freed, every mutex destroyed, no binding left, and just the
  -- sessions of the devices with a listed name shut, the last one first. If the first call
  -- returns an error, it has undone its steps: the status is 2, the dim state is freed, the
  -- screen mutex destroyed, and no callout structure is allocated.
  pub load_unload :
      (f : List Entry → ℕ × List Entry) (cb : Callback E) (fuel : ℕ) (msleep : Sleep k)
      (devs : List ℕ) (w : Meanwhile E) (d : Driver E)
      → Known (asleep k i f cb fuel msleep) devs
      → Returns
          (λ error t.
            ((error ≡ 0)
              × Returns
                  (λ r u. (r ≡ 0) × Unloaded k i (heard devs []) (last_callout w) (later w t) u)
                  (modevent (asleep k i f cb fuel msleep) mod_unload (later w t)))
            ⊎ ((error ≢ 0) × Undone t))
          (modevent (asleep k i f cb fuel msleep) mod_load d)
  load_unload f cb fuel msleep devs w d known =
      let o = asleep k i f cb fuel msleep in
      Returns-map (Loads o devs) _ (modevent o mod_load d)
        (λ error t. elim [
          | inl (zero, l) ↦ inl (zero, unload f cb fuel msleep devs w t l)
          | inr u ↦ inr u
        ])
        (init-Loads o devs d known)
