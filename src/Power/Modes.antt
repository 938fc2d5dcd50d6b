-- ===== src/Power/Modes.antt =====
-- What `framework_pwr_getpowermode` answers, and in which state it leaves the mutex.
use framework_kmod.Base.{
  Mutex, arith, deadlock, fault, free, held, if◌then◌else◌, ok, refl, ℕ, ◌==◌, ◌>>◌, ◌||◌, ◌≡◌, ◌≢◌,
}
use framework_kmod.Kernel.{Kernel}
use framework_kmod.Power.{PowerType, bat, pwr, ivl, PowerSys, getpowermode}

module _ {E : Type 0} (k : Kernel E) where
  -- The constants of acpiio.h are different, and none is 0.
  pub record IsAcpi : Type 0 where
    pub discharg-ne-zero : k.stat_discharg ≢ 0
    pub charging-ne-zero : k.stat_charging ≢ 0
    pub critical-ne-zero : k.stat_critical ≢ 0
    pub discharg-ne-charging : k.stat_discharg ≢ k.stat_charging
    pub critical-ne-charging : k.stat_critical ≢ k.stat_charging

  abbrev pub reported : PowerSys E → ℕ
  reported s = (k.get_battinfo 0 s.env).value

  -- What a battery state says about the source of power; `ivl` for a state that says nothing.
  abbrev pub mode_of : ℕ → PowerType
  mode_of st =
      if st == 0 || st == k.stat_charging
      then pwr
      else if st == k.stat_discharg || st == k.stat_critical
      then bat
      else ivl

  abbrev pub queried : Mutex → PowerSys E → PowerSys E
  queried l s = record {
    power = record (s.power) { battinfo = reported s; lock = l };
    env = (k.get_battinfo 0 s.env).env;
  }

  -- The state that a call leaves.
  abbrev pub after : PowerType → PowerSys E → PowerSys E
  after ivl s = queried held s
  after m s =
      let t = queried free s in
      record t { power = record (t.power) { power_state = m; last_update = k.time_uptime t.env } }

  -- With the power mutex free, and constants of ACPI that are different from each other and from 0
  -- (`IsAcpi`), `framework_pwr_getpowermode` ends, returns the mode of the reported battery state,
  -- and leaves that mode, the time of the query and the mutex as `after` says: free again, except
  -- for an unknown state.
  pub getpowermode-mode_of :
      (s : PowerSys E)
      → s.power.lock ≡ free
      → IsAcpi
      → getpowermode k s ≡ ok (mode_of (reported s)) (after (mode_of (reported s)) s)
  unfolding getpowermode
  getpowermode-mode_of s f a = ground arith

  -- After a battery state that the code does not know (one for which `mode_of` says `ivl`) the
  -- mutex stays locked: the call returns, and the next one, whatever ACPI answers then, locks a
  -- mutex that is held.
  pub unknown-deadlock :
      (s : PowerSys E)
      → s.power.lock ≡ free
      → IsAcpi
      → mode_of (reported s) ≡ ivl
      → (getpowermode k >> getpowermode k) s ≡ fault deadlock
  unfolding getpowermode
  unknown-deadlock s f a u = ground arith

  pub after_free : (m : PowerType) (s : PowerSys E) → m ≢ ivl → (after m s).power.lock ≡ free
  after_free bat s h = refl
  after_free pwr s h = refl
  after_free ivl s h = absurd (h refl)

  pub after_held : (m : PowerType) (s : PowerSys E) → m ≡ ivl → (after m s).power.lock ≡ held
  after_held bat s h = cc
  after_held pwr s h = cc
  after_held ivl s h = refl
