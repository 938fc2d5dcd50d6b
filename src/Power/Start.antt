-- ===== src/Power/Start.antt =====
-- `framework_pwr_init`, on every branch.
use framework_kmod.Base.{
  Option, Option-cases, Returns, arith, codes, free, held, inl, inr, none, refl, some, ℕ, ◌≡◌, ◌≢◌,
  ◌⊎◌,
}
use framework_kmod.Kernel.{Kernel, enxio}
use framework_kmod.Cdevs.{lookupcdev_drv1}
use framework_kmod.Power.{ivl, PowerSys, init, load, find_battery, find_acpi}
use framework_kmod.Power.Modes.{IsAcpi, mode_of}

module _ {E : Type 0} (k : Kernel E) where
  -- How it ends: ready, or with the mutex in place.
  abbrev pub Ends : ℕ → PowerSys E → Type 0
  Ends e t =
      ((e ≡ 0)
        × (t.power.lock ≡ free)
        × (t.power.power_state ≡ mode_of k t.power.battinfo)
        × (mode_of k t.power.battinfo ≢ ivl))
      ⊎ ((e ≡ enxio) × ((t.power.lock ≡ free) ⊎ (t.power.lock ≡ held)))

  load_lem :
      (dev : ℕ) (s : PowerSys E) → s.power.lock ≡ free → IsAcpi k → Returns Ends (load k dev s)
  unfolding load
  load_lem dev s f a = ground arith

  find_battery_lem :
      (dc : Option ℕ) (s : PowerSys E)
      → s.power.lock ≡ free
      → IsAcpi k
      → Returns Ends (find_battery k dc s)
  unfolding find_battery
  find_battery_lem none s f a = ground arith
  find_battery_lem (some dc) s f a = elim (Option-cases (k.devclass_get_device dc 0 s.env)) [
    | inl e ↦ rw (e, find_battery) (inr (refl, inl f))
    | inr (d, e) ↦ rw (e, find_battery) (load_lem d _ f a)
  ]

  find_acpi_lem :
      (sc : Option ℕ) (s : PowerSys E)
      → s.power.lock ≡ free
      → IsAcpi k
      → Returns Ends (find_acpi k sc s)
  unfolding find_acpi
  find_acpi_lem none s f a = inr (refl, inl f)
  find_acpi_lem (some sc) s f a = find_battery_lem (k.devclass_find (codes "battery") s.env) s f a

  -- Whatever stood in the structure, whatever devices there are and whatever ACPI answers, the call
  -- returns 0 or ENXIO. If 0, the mutex is free and the power state is what the battery state says.
  -- If ENXIO, the mutex has been initialised and is left so: free, or held.
  pub init-Ends : (s : PowerSys E) → IsAcpi k → Returns Ends (init k s)
  unfolding init
  init-Ends s a = find_acpi_lem (lookupcdev_drv1 (codes "acpi") (k.cdevp_list s.env)) _ refl a
