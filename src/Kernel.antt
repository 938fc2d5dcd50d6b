-- ===== src/Kernel.antt =====
-- What the driver takes from the kernel and from other drivers: ACPI, the device list, the backlight
-- device, the clock. It stands outside the repository, so it is a parameter: a type of states, and
-- the calls that the driver makes.
use framework_kmod.Base.{Bool, List, Option, ℕ}

-- An entry of `cdevp_list`; a pointer is `none` or the number of some object.
pub record Cdev : Type 0 where
  pub si_name : List ℕ
  pub si_drv1 : Option ℕ

pub record Answer (A E : Type 0) : Type 0 where
  pub error : ℕ
  pub value : A
  pub env : E

pub record Kernel (E : Type 0) : Type 0 where
  -- `ACPI_BATT_STAT_…` of acpiio.h
  pub stat_discharg : ℕ
  pub stat_charging : ℕ
  pub stat_critical : ℕ
  -- `acpi_battery_get_battinfo`, with the field `state` of the structure that it is given
  pub get_battinfo : ℕ → E → Answer ℕ E
  -- `ACPI_BATT_GET_INFO`, with the field `model`
  pub batt_get_info : ℕ → E → Answer (List ℕ) E
  pub cdevp_list : E → List Cdev
  pub devclass_find : List ℕ → E → Option ℕ
  pub devclass_get_device : ℕ → ℕ → E → Option ℕ
  -- `BACKLIGHT_GET_STATUS` and `BACKLIGHT_UPDATE_STATUS`: the device, and the field `brightness` of
  -- the structure that they are given
  pub backlight_get_status : ℕ → ℕ → E → Answer ℕ E
  pub backlight_update_status : ℕ → ℕ → E → Answer (Unit {0}) E
  pub time_uptime : E → ℕ
  pub tick : E → ℕ
  -- Of so many whole seconds; an int, as its bit pattern
  pub tvtohz : ℕ → ℕ

-- <errno.h>
abbrev pub enxio : ℕ
enxio = 6

abbrev pub einval : ℕ
einval = 22

abbrev pub edom : ℕ
edom = 33

abbrev pub eopnotsupp : ℕ
eopnotsupp = 45

-- The input system, kqueue and kthread(9). A device is a number; the client of a device is named by
-- that device, which is what `ec_evdev` holds.
pub record InputApi (E : Type 0) : Type 0 where
  -- `ev_report_size`, `ev_shortname` and `ev_name` of a `struct evdev_dev`
  pub ev_report_size : ℕ → ℕ
  pub ev_shortname : ℕ → Option (List ℕ)
  pub ev_name : ℕ → Option (List ℕ)
  -- `EVDEV_LIST_LOCK`, `EVDEV_LIST_LOCK_SIG` and `EVDEV_LIST_UNLOCK`
  pub list_lock : ℕ → E → E
  pub list_lock_sig : ℕ → E → E
  pub list_unlock : ℕ → E → E
  pub evdev_register_client : ℕ → E → Answer (Unit {0}) E
  pub evdev_dispose_client : ℕ → E → E
  -- with the field `ec_revoked` of the client, before and after
  pub evdev_revoke_client : Bool → E → Answer Bool E
  -- on the note list of the client of a device
  pub knlist_init_mtx : Option ℕ → E → E
  pub knlist_empty : Option ℕ → E → Bool
  pub knlist_clear : Option ℕ → E → E
  pub knlist_destroy : Option ℕ → E → E
  pub devfs_set_cdevpriv : E → E
  -- The error, or 0; the thread itself is no part of this.
  pub kthread_add : E → Answer (Unit {0}) E
  pub wakeup : E → E
