-- ===== src/Backlight.antt =====
-- kmod/framework_backlight.c: the backlight device. The functions are `framework_bl_…`.
-- Of `struct backlight_props` the code uses `brightness`, and of the `struct backlight_softc` that
-- `sc` points to, `dev` and `cached_brightness`; the pointer stands for `dev` too.
pub mod Panel
use framework_kmod.Base.{
  Action, Option, branch, codes, gets, if◌then◌else◌, none, ok, pure, some, ℕ, ◌==◌, ◌>>=◌, ◌>>◌,
}
use framework_kmod.Kernel.{Kernel, enxio}
use framework_kmod.Cdevs.{lookupcdev_drv1}

-- `framework_backlight`, with the `cached_brightness` behind `sc`.
pub record Backlight : Type 0 where
  pub sc : Option ℕ
  pub brightness : ℕ  -- uint32_t
  pub cached_brightness : ℕ  -- uint32_t

pub record BacklightSys (E : Type 0) : Type 0 where
  pub backlight : Backlight
  pub env : E

module _ {E : Type 0} (k : Kernel E) where
  -- `framework_bl_loadprops`
  loadprops : ℕ → Action (BacklightSys E) ℕ
  loadprops dev s =
      let a = k.backlight_get_status dev s.backlight.brightness s.env in
      ok a.error (record { backlight = record (s.backlight) { brightness = a.value }; env = a.env })

  -- The two functions behind their test of `sc`.
  readbrightness : ℕ → Action (BacklightSys E) ℕ
  unfolding loadprops
  readbrightness dev = do
    error ← loadprops dev
    branch (error == 0) (gets (λ s. s.backlight.brightness)) (pure 0)

  update : ℕ → ℕ → Action (BacklightSys E) ℕ
  update dev brightness s =
      let a = k.backlight_update_status dev brightness s.env in
      let written = record (s.backlight) { brightness = brightness } in
      ok a.error (record {
        backlight =
            if a.error == 0 then record written { cached_brightness = brightness } else written;
        env = a.env;
      })

  writebrightness : ℕ → ℕ → Action (BacklightSys E) ℕ
  unfolding readbrightness update
  writebrightness dev brightness = do
    current_level ← readbrightness dev
    branch (brightness == current_level) (pure 0) (update dev brightness)

  abbrev with_sc : ℕ → (ℕ → Action (BacklightSys E) ℕ) → Option ℕ → Action (BacklightSys E) ℕ
  with_sc r f none = pure r
  with_sc r f (some dev) = f dev

  unfoldable pub getbrightness : Action (BacklightSys E) ℕ
  unfolding readbrightness
  getbrightness s = with_sc 0 readbrightness s.backlight.sc s

  unfoldable pub setbrightness : ℕ → Action (BacklightSys E) ℕ
  unfolding writebrightness
  setbrightness brightness s =
      with_sc enxio (λ dev. writebrightness dev brightness) s.backlight.sc s

  -- `bzero` clears the pointer and the properties, not the structure behind the pointer.
  unfoldable pub init : Action (BacklightSys E) ℕ
  unfolding loadprops
  init s =
      let sc = lookupcdev_drv1 (codes "backlight/backlight0") (k.cdevp_list s.env) in
      with_sc enxio loadprops sc
        (record s { backlight = record (s.backlight) { sc = sc; brightness = 0 } })

module _ {E : Type 0} where
  unfoldable pub destroy : Action (BacklightSys E) ℕ
  destroy = pure 0
