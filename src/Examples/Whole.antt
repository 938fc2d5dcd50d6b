-- ===== src/Examples/Whole.antt =====
-- Loading and unloading the module on the kernel of `Bench`, and one session of a listener.
use framework_kmod.Base.{
  begins, inl, Bool, Returns, [], codes, free, if◌then◌else◌, live, none, null, ok, refl, some,
  true, unset, ◌==◌, ◌∷◌, ◌≡◌, freed, ◌≢◌, ◌↔◌, ◌⊎◌,
}
use framework_kmod.Kernel.{InputApi}
use framework_kmod.State as State
use framework_kmod.Screen.{power_config}
use framework_kmod.Keyhandler as Keyhandler
use framework_kmod.Evthread.{Handle}
use framework_kmod.Evthread.Calls.Life.{life, life-freed}
use framework_kmod.Evthread.Listener.{Callback}
use framework_kmod.Evdev.Bindings.Attached.{at_work}
use framework_kmod.Callout.Setup.{new_callout}
use framework_kmod.Driver.{Driver, Outside, modevent, mod_load, mod_unload}
use framework_kmod.Driver.Loaded.{Known, Loads, Undone}
use framework_kmod.Driver.Loading.{init-Loads}
use framework_kmod.Driver.Unloading.{asleep, Running, Unloaded, destroy-Unloaded}
use framework_kmod.Evdev.Names.{Contains, Continues, Listed}
use framework_kmod.Evdev.Bindings.{listened}
use framework_kmod.Evdev.Bindings.Chosen.{listened-Listed}
use framework_kmod.Driver.Cycle.{Meanwhile, heard, last_callout, later, load_unload}
use framework_kmod.Evdev.{callout_inputintr}
use framework_kmod.Callout.{dim}
use framework_kmod.Evthread.{new_client}
use framework_kmod.Bench.{Bench, bench, bench-IsAcpi, env, display}

-- A keyboard with the driver pointer 20, and a button.
abbrev pub input : InputApi Bench
input = record {
  ev_report_size = λ dev. 6;
  ev_shortname = λ dev. some (if dev == 20 then codes "atkbd0" else codes "acpi_button0");
  ev_name = λ dev. some (if dev == 20 then codes "AT keyboard" else codes "Power Button");
  list_lock = λ dev e. e;
  list_lock_sig = λ dev e. e;
  list_unlock = λ dev e. e;
  evdev_register_client = λ dev e. record { error = 0; value = tt; env = e };
  evdev_dispose_client = λ dev e. e;
  evdev_revoke_client = λ revoked e. record { error = 0; value = true; env = e };
  knlist_init_mtx = λ client e. e;
  knlist_empty = λ client e. true;
  knlist_clear = λ client e. e;
  knlist_destroy = λ client e. e;
  devfs_set_cdevpriv = λ e. e;
  kthread_add = λ e. record { error = 0; value = tt; env = e };
  wakeup = λ e. e;
}

-- The callback does nothing here.
abbrev pub quiet : Callback Bench
quiet cbfunc keycode s = ok tt s

abbrev outside : Outside Bench
outside = asleep bench input (λ entries. (0, [])) quiet 0 (λ w s. ok tt s)

abbrev unloaded_driver : Driver Bench
unloaded_driver = record {
  sysctl = record {
    framework_sysctl_ctx = [];
    power_config = none;
    state = Bool.false;
    sysctl = record { lock = unset; debug = 0 };
    sysctl_cache = Bool.false;
  };
  callout = null;
  state = null;
  keyhandler = null;
  status = 0;
  display = display (1 ∷ []);
  evdev = record {
    bindings = [];
    last_input = 0;
    cbfunc = none;
    active = Bool.false;
    lock = unset;
    state = 0;
  };
  drop = true;
}

listened-Listed_example :
    (listened input 20 ≡ true)
    ↔ (Listed Continues (some (codes "atkbd0")) ⊎ Listed Contains (some (codes "AT keyboard")))
listened-Listed_example = listened-Listed input 20

outside-Known : Known outside (20 ∷ 21 ∷ [])
unfolding begins
outside-Known = record { acpi = bench-IsAcpi; devices = λ e. refl }

init-Loads_example :
    Returns (Loads outside (20 ∷ 21 ∷ [])) (modevent outside mod_load unloaded_driver)
init-Loads_example = init-Loads outside (20 ∷ 21 ∷ []) unloaded_driver outside-Known

abbrev loaded_driver : Driver Bench
loaded_driver = record {
  sysctl = record {
    framework_sysctl_ctx = [];
    power_config = some power_config;
    state = true;
    sysctl = record { lock = free; debug = 0 };
    sysctl_cache = true;
  };
  callout = live (new_callout (some power_config) (Keyhandler.init (some power_config)));
  state = State.init;
  keyhandler = Keyhandler.init (some power_config);
  status = 1;
  display = display (1 ∷ []);
  evdev = record {
    bindings = at_work input (20, new_client 48 20) ∷ [];
    last_input = 0;
    cbfunc = none;
    active = true;
    lock = free;
    state = 1;
  };
  drop = Bool.false;
}

loaded_driver-Running :
    Running bench input
      ((20, new_client 48 20) ∷ [])
      (new_callout (some power_config) (Keyhandler.init (some power_config)))
      0
      (record { flags = 1; power_config = some power_config })
      loaded_driver
unfolding State.init Keyhandler.init
loaded_driver-Running = record {
  loaded = refl;
  callout_live = refl;
  lock_free = refl;
  rwlock_free = refl;
  evdev_free = refl;
  evdev_up = refl;
  bound = refl;
  sysctl_free = refl;
  keyhandler_live = refl;
  power_idle = inl refl;
  screen_free = refl;
  state_live = refl;
}

destroy-Unloaded_example :
    Returns
      (λ r t.
        (r ≡ 0)
        × Unloaded bench input
            ((20, new_client 48 20) ∷ [])
            (new_callout (some power_config) (Keyhandler.init (some power_config)))
            loaded_driver
            t)
      (modevent outside mod_unload loaded_driver)
destroy-Unloaded_example =
    destroy-Unloaded bench input (λ entries. (0, [])) quiet 0 (λ w s. ok tt s)
      ((20, new_client 48 20) ∷ [])
      (new_callout (some power_config) (Keyhandler.init (some power_config))) 0
      (record { flags = 1; power_config = some power_config }) loaded_driver loaded_driver-Running

-- The thread has set its interrupt function and dimmed the panel, one player runs, and the levels are
-- those from before.
abbrev since : Meanwhile Bench
since = record {
  cbfunc = some callout_inputintr;
  drop = Bool.false;
  last_input = 7;
  level = dim;
  next = 30;
  active = true;
  count = 1;
  settings = (display (1 ∷ [])).screen.settings;
  env = env [];
}

load_unload_example :
    Returns
      (λ error t.
        ((error ≡ 0)
          × Returns
              (λ r u.
                (r ≡ 0)
                × Unloaded bench input
                    (heard bench input (20 ∷ 21 ∷ []) [])
                    (last_callout bench input since)
                    (later bench input since t)
                    u)
              (modevent outside mod_unload (later bench input since t)))
        ⊎ ((error ≢ 0) × Undone t))
      (modevent outside mod_load unloaded_driver)
load_unload_example =
    load_unload bench input (λ entries. (0, [])) quiet 0 (λ w s. ok tt s) (20 ∷ 21 ∷ []) since
      unloaded_driver outside-Known

abbrev no_session : Handle Bench
no_session = record { pointer = null; env = env [] }

life-freed_example :
    life input quiet 48 20 no_session ≡ ok 0 (record { pointer = freed; env = env [] })
life-freed_example = life-freed input quiet 48 20 no_session
