-- ===== src/Sysctl/Tree.antt =====
-- kmod/framework_sysctl.c: `framework_sysctl_init` and `framework_sysctl_destroy`. What the code adds
-- to its sysctl context is kept as a list, in order; a node or a variable is given by its full name.
use framework_kmod.Base.{
  Action, Bool, List, Option, Returns, [], codes, deref, false, gets, if◌then◌else◌, modify,
  mtx_destroy, mtx_init, none, pure, refl, same, some, true, ℕ, ◌&&◌, ◌++◌, ◌∷◌, ◌≡◌, ◌>>=◌, ◌>>◌,
}
use framework_kmod.Screen.{Screen, ScreenPtr, ConfigPtr, screen_power, screen_battery}
use framework_kmod.Sysctl.{Variable, brightness_low, brightness_high, timeout_secs, Sysctl}

-- The function of an entry, with its `arg1`; the others get no argument or the structure itself.
pub data Handler : Type 0 where
  node : Handler
  debug_handler : Handler
  dimblock_handler : Handler
  screen_brightness_handler : Handler
  power_source_handler : Handler
  screen_config_handler : Variable → Option ScreenPtr → Handler

pub record Entry : Type 0 where
  pub name : List (List ℕ)
  pub writable : Bool  -- CTLFLAG_RW
  pub handler : Handler

-- `struct framework_sysctl_t`, and whether `sysctl_cache` points to it. The two references to other
-- structures are kept as far as they are set.
pub record SysctlData : Type 0 where
  pub framework_sysctl_ctx : List Entry
  pub power_config : Option ConfigPtr
  pub state : Bool
  pub sysctl : Sysctl
  pub sysctl_cache : Bool

abbrev pub framework_tree : List (List ℕ)
framework_tree = codes "hw" ∷ codes "framework" ∷ []

abbrev pub below : List (List ℕ) → List ℕ → List (List ℕ)
below parent name = parent ++ name ∷ []

abbrev pub screen_tree : List (List ℕ)
screen_tree = below framework_tree (codes "screen")

abbrev pub power_tree : List (List ℕ)
power_tree = below framework_tree (codes "power")

-- `oid_framework_screen_power_tree` and `oid_framework_screen_battery_tree`
abbrev pub settings_tree : ScreenPtr → List (List ℕ)
settings_tree screen_power = below screen_tree (codes "power")
settings_tree screen_battery = below screen_tree (codes "battery")

abbrev pub variable_name : Variable → List ℕ
variable_name brightness_low = codes "brightness_low"
variable_name brightness_high = codes "brightness_high"
variable_name timeout_secs = codes "timeout_secs"

abbrev pub proc : List (List ℕ) → List ℕ → Bool → Handler → Entry
proc parent name writable handler = record {
  name = below parent name;
  writable = writable;
  handler = handler;
}

abbrev pub tree_node : List (List ℕ) → Entry
tree_node name = record { name = name; writable = false; handler = node }

-- `FRAMEWORK_SYSCTL_SCREENCONF_NODES`
screenconf_nodes : Variable → Option ScreenPtr → Option ScreenPtr → List Entry
screenconf_nodes v battery power =
    proc (settings_tree screen_battery) (variable_name v) true (screen_config_handler v battery)
    ∷ proc (settings_tree screen_power) (variable_name v) true (screen_config_handler v power)
    ∷ []

-- Everything that is added, with the two configurations of the power configuration.
entries : Option ScreenPtr → Option ScreenPtr → List Entry
unfolding screenconf_nodes
entries battery power =
    tree_node framework_tree
    ∷ proc framework_tree (codes "debug") true debug_handler
    ∷ tree_node screen_tree
    ∷ tree_node power_tree
    ∷ tree_node (settings_tree screen_power)
    ∷ tree_node (settings_tree screen_battery)
    ∷ proc screen_tree (codes "dimblock") true dimblock_handler
    ∷ proc screen_tree (codes "brightness_current") false screen_brightness_handler
    ∷ proc power_tree (codes "powermode") false power_source_handler
    ∷ (screenconf_nodes brightness_low battery power
        ++ screenconf_nodes brightness_high battery power
        ++ screenconf_nodes timeout_secs battery power)

-- `framework_sysctl_init`; the configuration is read through its pointer.
unfoldable pub init : Option ConfigPtr → Bool → Screen → Action SysctlData ℕ
unfolding entries
init power_config state screen = do
  modify (λ s. record s {
    power_config = power_config;
    state = state;
    sysctl = record (s.sysctl) { debug = 0 };
  })
  mtx_init (λ s. s.sysctl.lock) (λ m s. record s { sysctl = record (s.sysctl) { lock = m } })
  deref power_config
  modify (λ s. record s {
    framework_sysctl_ctx = entries screen.config.battery screen.config.power;
    sysctl_cache = true;
  })
  pure 0

-- `framework_sysctl_destroy`; `sysctl_ctx_free` is given as its error and the entries that it leaves.
unfoldable pub destroy : (List Entry → ℕ × List Entry) → Action SysctlData ℕ
destroy sysctl_ctx_free = do
  modify (λ s. record s { sysctl_cache = false })
  result ← gets (λ s. sysctl_ctx_free s.framework_sysctl_ctx)
  modify (λ s. record s { framework_sysctl_ctx = result.1; power_config = none })
  mtx_destroy (λ s. s.sysctl.lock) (λ m s. record s { sysctl = record (s.sysctl) { lock = m } })
  pure result.0

-- The handler of the entry of that name.
abbrev same_name : List (List ℕ) → List (List ℕ) → Bool
same_name [] [] = true
same_name [] (t ∷ ts) = false
same_name (s ∷ ss) [] = false
same_name (s ∷ ss) (t ∷ ts) = same s t && same_name ss ts

abbrev pub handlers : List (List ℕ) → List Entry → List Handler
handlers name [] = []
handlers name (e ∷ es) =
    let others = handlers name es in if same_name name e.name then e.handler ∷ others else others

entries_lem :
    (v : Variable) (p : ScreenPtr)
    → handlers
        (below (settings_tree p) (variable_name v))
        (entries (some screen_battery) (some screen_power))
      ≡ screen_config_handler v (some p) ∷ []
unfolding entries same
entries_lem brightness_low screen_power = refl
entries_lem brightness_low screen_battery = refl
entries_lem brightness_high screen_power = refl
entries_lem brightness_high screen_battery = refl
entries_lem timeout_secs screen_power = refl
entries_lem timeout_secs screen_battery = refl

-- After the initialisation, with the configurations that the driver's table has, each variable of
-- each of the two configurations has just one entry, whose handler works on that configuration.
pub init-handlers :
    (v : Variable) (p : ScreenPtr) (c : ConfigPtr) (state : Bool) (screen : Screen) (s : SysctlData)
    → screen.config.battery ≡ some screen_battery
    → screen.config.power ≡ some screen_power
    → Returns
        (λ r t.
          (r ≡ 0)
          × (handlers (below (settings_tree p) (variable_name v)) t.framework_sysctl_ctx
              ≡ screen_config_handler v (some p) ∷ []))
        (init (some c) state screen s)
unfolding init
init-handlers v p c state screen s hb hp = (refl, rw (hb, hp) (entries_lem v p))
