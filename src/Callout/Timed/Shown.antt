-- ===== src/Callout/Timed/Shown.antt =====
-- A backlight device that works, as hypothesis of what kmod/framework_callout.c shows.
use framework_kmod.Base.{Outcome, Returns, arith, fault, ok, some, subst, ℕ, ◌≡◌}
use framework_kmod.Kernel.{Kernel}
use framework_kmod.Backlight.{BacklightSys, setbrightness}
use framework_kmod.Backlight.Panel.{IsPanel, Shows, read, setbrightness-Shows}

-- Two things that hold of what an action leaves.
pub both :
    {S A : Type 0} (P Q : A → S → Type 0) (o : Outcome S A)
    → Returns P o
    → Returns Q o
    → Returns (λ a s. P a s × Q a s) o
both P Q (ok a s) p q = (p, q)
both P Q (fault f) p q = p

module _ {E : Type 0} (k : Kernel E) (pass : E → E) (shown : ℕ → ℕ → E → Type 0) where
  -- The backlight device never fails, and shows the same as time passes.
  pub record Works : Type 0 where
    pub panel : IsPanel k shown
    pub reads : (dev p : ℕ) (e : E) → (read k dev p e).error ≡ 0
    pub writes : (dev b : ℕ) (e : E) → (k.backlight_update_status dev b e).error ≡ 0
    pub still : (dev b : ℕ) (e : E) → shown dev b e → shown dev b (pass e)

module _ {E : Type 0} (k : Kernel E) {pass : E → E} {shown : ℕ → ℕ → E → Type 0}
    (works : Works k pass shown) where
  setbrightness_zero :
      (dev b : ℕ) (s : BacklightSys E)
      → s.backlight.sc ≡ some dev
      → Returns (λ r t. r ≡ 0) (setbrightness k b s)
  unfolding setbrightness
  setbrightness_zero dev b s c =
      let e = (read k dev s.backlight.brightness s.env).env in
      ground (arith, works.reads dev s.backlight.brightness s.env, works.writes dev b e)

  pub set_shown :
      (dev b r : ℕ) (s t : BacklightSys E)
      → s.backlight.sc ≡ some dev
      → setbrightness k b s ≡ ok r t
      → Shows k shown dev b t
  set_shown dev b r s t c e =
      let zero = subst (Returns (λ r' _. r' ≡ 0)) e (setbrightness_zero dev b s c) in
      subst (Returns (λ r' u. r' ≡ 0 → Shows k shown dev b u)) e
        (setbrightness-Shows k shown dev b s works.panel c
          (works.reads dev s.backlight.brightness s.env))
        zero
