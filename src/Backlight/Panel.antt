-- ===== src/Backlight/Panel.antt =====
-- What kmod/framework_backlight.c writes to the panel and reads from it.
use framework_kmod.Base.{
  subst, ==_iff, Bool-cases, Outcome, Returns, arith, fault, if◌then◌else◌, inl, inr, ok, refl,
  some, sym, ℕ, ◌==◌, ◌≡◌, ◌≢◌,
}
use framework_kmod.Kernel.{Kernel, Answer}
use framework_kmod.Backlight.{BacklightSys, init, setbrightness}

module _ {E : Type 0} (k : Kernel E) where
  abbrev pub read : ℕ → ℕ → E → Answer ℕ E
  read = k.backlight_get_status

  module _ (shown : ℕ → ℕ → E → Type 0) where
    -- `shown dev b` says that the panel of a device shows the level `b`. What is assumed of a driver
    -- under backlight(9): a level that was set is shown, and the level that is reported is shown. A
    -- device that rounds may report another level than the one that was set.
    pub record IsPanel : Type 0 where
      pub written :
          (dev b : ℕ) (e : E)
          → (k.backlight_update_status dev b e).error ≡ 0
          → shown dev b (k.backlight_update_status dev b e).env
      pub reported :
          (dev p : ℕ) (e : E)
          → (read dev p e).error ≡ 0
          → shown dev (read dev p e).value (read dev p e).env

    -- The panel of the device that was found shows the level.
    abbrev pub Shows : ℕ → ℕ → BacklightSys E → Type 0
    Shows dev b t = (t.backlight.sc ≡ some dev) × shown dev b t.env

    -- `framework_bl_setbrightness` with an initialised backlight whose read works: if it returns 0, the
    -- panel shows the level, whether it was written or reported.
    pub setbrightness-Shows :
        (dev b : ℕ) (s : BacklightSys E)
        → IsPanel
        → s.backlight.sc ≡ some dev
        → (read dev s.backlight.brightness s.env).error ≡ 0
        → Returns (λ e t. (e ≡ 0) → Shows dev b t) (setbrightness k b s)
    unfolding setbrightness
    setbrightness-Shows dev b s p c r =
        let report = read dev s.backlight.brightness s.env in
        elim (Bool-cases (b == report.value)) [
          | inl same_level ↦
              rw (c, r, same_level, setbrightness)
                (λ e. (
                  refl,
                  subst (λ n. shown dev n report.env) (sym ((==_iff _ _).0 same_level))
                      (p.reported dev _ _ r),
                ))
          | inr other ↦ rw (c, r, other, setbrightness) (λ e. (ground arith, p.written dev b _ e))
        ]

  -- Where the read fails, the code takes the level for 0: to set another level writes it and returns
  -- the error of the update, while to set 0 returns 0 and writes nothing.
  pub setbrightness_unread :
      (dev b : ℕ) (s : BacklightSys E)
      → s.backlight.sc ≡ some dev
      → (read dev s.backlight.brightness s.env).error ≢ 0
      → let e = (read dev s.backlight.brightness s.env).env in
        let written = k.backlight_update_status dev b e in
        Returns
          (λ r t.
            (r ≡ (if b == 0 then 0 else written.error))
            × (t.env ≡ (if b == 0 then e else written.env)))
          (setbrightness k b s)
  unfolding setbrightness
  setbrightness_unread dev b s c r = ground arith

  setbrightness_total :
      (b : ℕ) (s : BacklightSys E) → Returns (λ r t. ◌≡◌ {A = ℕ} 0 0) (setbrightness k b s)
  unfolding setbrightness
  setbrightness_total b s = ground arith

  returned :
      (o : Outcome (BacklightSys E) ℕ)
      → Returns (λ r t. ◌≡◌ {A = ℕ} 0 0) o
      → (r : ℕ) × (t : BacklightSys E) × (o ≡ ok r t)
  returned (ok r t) u = (r, t, refl)
  returned (fault f) u = elim u [ ]

  -- For any backlight device: setting a level returns.
  pub setbrightness_returns :
      (b : ℕ) (s : BacklightSys E) → (r : ℕ) × (t : BacklightSys E) × (setbrightness k b s ≡ ok r t)
  setbrightness_returns b s = returned (setbrightness k b s) (setbrightness_total b s)

  init_total : (s : BacklightSys E) → Returns (λ r t. ◌≡◌ {A = ℕ} 0 0) (init k s)
  unfolding init
  init_total s = ground arith

  pub init_returns : (s : BacklightSys E) → (r : ℕ) × (t : BacklightSys E) × (init k s ≡ ok r t)
  init_returns s = returned (init k s) (init_total s)
