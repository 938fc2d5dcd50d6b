-- ===== src/Power.antt =====
-- kmod/framework_power.c and framework_power.h: the power source, as ACPI reports it.
-- Of `struct acpi_battinfo` only `state` is read, and is the field `battinfo` here.
pub mod Modes
pub mod Start
use framework_kmod.Base.{
  ℕ, Option, none, some, List, [], ok, Action, pure, gets, branch, modify, ◌>>◌, Mutex, unset,
  mtx_init, mtx_lock, mtx_unlock, mtx_destroy, if◌then◌else◌, ◌==◌, codes, take, ◌>>=◌,
}
use framework_kmod.Kernel.{Kernel, Answer, enxio, edom}
use framework_kmod.Cdevs.{lookupcdev_drv1}

-- `enum framework_power_type_t`
pub data PowerType : Type 0 where
  bat pwr ivl : PowerType

-- `struct framework_power_t`
pub record Power : Type 0 where
  pub power_state : PowerType
  pub sc : Option ℕ
  pub batt_dev : Option ℕ
  pub model : List ℕ
  pub battinfo : ℕ
  pub lock : Mutex
  pub last_update : ℕ

-- `framework_power`, and the kernel.
pub record PowerSys (E : Type 0) : Type 0 where
  pub power : Power
  pub env : E

-- After `bzero`. The enumeration starts with `BAT`.
abbrev pub zeroed : Power
zeroed = record {
  power_state = bat;
  sc = none;
  batt_dev = none;
  model = [];
  battinfo = 0;
  lock = unset;
  last_update = 0;
}

module _ {E : Type 0} where
  abbrev pub put_lock : Mutex → PowerSys E → PowerSys E
  put_lock m s = record s { power = record (s.power) { lock = m } }

  abbrev lock : Action (PowerSys E) (Unit {0})
  lock = mtx_lock (λ s. s.power.lock) put_lock

  abbrev unlock : Action (PowerSys E) (Unit {0})
  unlock = mtx_unlock (λ s. s.power.lock) put_lock

  -- A call of the kernel: its error and its value.
  abbrev pub ask : {A : Type 0} → (E → Answer A E) → Action (PowerSys E) (ℕ × A)
  ask f s = let a = f s.env in ok (a.error, a.value) (record s { env = a.env })

module _ {E : Type 0} (k : Kernel E) where
  -- `framework_pwr_loadbattmodel`; a NULL device is not passed on.
  loadbattmodel : ℕ → Action (PowerSys E) ℕ
  loadbattmodel dev = do
    (error, model) ← ask (k.batt_get_info dev)
    branch (error == 0)
        (do
          lock
          modify (λ s. record s { power = record (s.power) { model = take 7 model } })
          unlock
          pure 0)
        (pure error)

  -- The end of `framework_pwr_loadbattinfo` after a `break` of its `switch`.
  completed : PowerType → Action (PowerSys E) ℕ
  completed m = do
    modify (λ s. record s {
      power = record (s.power) { power_state = m; last_update = k.time_uptime s.env };
    })
    unlock
    pure 0

  -- The `switch` on the battery state; the last branch is `default`, with its `return`.
  switch : ℕ → Action (PowerSys E) ℕ
  unfolding completed
  switch state = branch (state == 0) (completed pwr) (
      branch (state == k.stat_critical) (completed bat) (
        branch (state == k.stat_discharg) (completed bat)
          (branch (state == k.stat_charging) (completed pwr) (pure edom))))

  -- `framework_pwr_loadbattinfo`
  unfoldable pub loadbattinfo : Action (PowerSys E) ℕ
  unfolding switch
  loadbattinfo = do
    (error, state) ← ask (k.get_battinfo 0)
    lock
    modify (λ s. record s { power = record (s.power) { battinfo = state } })
    switch state

  -- `framework_pwr_getpowermode`
  unfoldable pub getpowermode : Action (PowerSys E) PowerType
  unfolding loadbattinfo
  getpowermode = do
    error ← loadbattinfo
    branch (error == 0) (do lock; result ← gets (λ s. s.power.power_state); unlock; pure result)
        (pure ivl)

  -- The calls of `framework_pwr_init` behind the two searches.
  load : ℕ → Action (PowerSys E) ℕ
  unfolding loadbattmodel loadbattinfo
  load dev = do
    error ← loadbattmodel dev
    branch (error == 0) (do error' ← loadbattinfo; pure (if error' == 0 then 0 else enxio))
        (pure enxio)

  find_battery : Option ℕ → Action (PowerSys E) ℕ
  unfolding load
  find_battery none = pure enxio
  find_battery (some batt_dc) = do
    modify (λ s. record s {
      power = record (s.power) { batt_dev = k.devclass_get_device batt_dc 0 s.env };
    })
    dev ← gets (λ s. s.power.batt_dev)
    elim dev [ none ↦ pure enxio | some d ↦ load d ]

  find_acpi : Option ℕ → Action (PowerSys E) ℕ
  unfolding find_battery
  find_acpi none = pure enxio
  find_acpi (some sc) = do
    batt_dc ← gets (λ s. k.devclass_find (codes "battery") s.env)
    find_battery batt_dc

  -- `framework_pwr_init`
  unfoldable pub init : Action (PowerSys E) ℕ
  unfolding find_acpi
  init = do
    modify (λ s. record s { power = zeroed })
    mtx_init (λ s. s.power.lock) put_lock
    modify (λ s. record s {
      power = record (s.power) { sc = lookupcdev_drv1 (codes "acpi") (k.cdevp_list s.env) };
    })
    sc ← gets (λ s. s.power.sc)
    find_acpi sc

module _ {E : Type 0} where
  -- `framework_pwr_destroy`
  unfoldable pub destroy : Action (PowerSys E) ℕ
  destroy = mtx_destroy (λ s. s.power.lock) put_lock >> pure 0
