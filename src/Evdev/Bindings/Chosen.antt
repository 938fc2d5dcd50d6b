-- ===== src/Evdev/Bindings/Chosen.antt =====
-- Which devices kmod/framework_evdev.c listens to.
use framework_kmod.Base.{Bool-cases, ℕ, arith, false, inl, inr, true, ◌↔◌, ◌≡◌, ◌⊎◌}
use framework_kmod.Kernel.{InputApi}
use framework_kmod.Evdev.Names.{
  Contains, Continues, Listed, matchname, matchname_exact, matchname_partial,
}
use framework_kmod.Evdev.Bindings.{listened}

-- A device is listened to exactly if its short name begins with an entry of the table of names,
-- or its long name is a part of an entry of the table. A name that is null matches nothing.
pub listened-Listed :
    {E : Type 0} (i : InputApi E) (dev : ℕ)
    → (listened i dev ≡ true)
      ↔ (Listed Continues (i.ev_shortname dev) ⊎ Listed Contains (i.ev_name dev))
listened-Listed i dev = (
  λ h. elim (Bool-cases (matchname (i.ev_shortname dev) false)) [
    | inl y ↦ inl ((matchname_exact (i.ev_shortname dev)).0 y)
    | inr z ↦ inr ((matchname_partial (i.ev_name dev)).0 (ground arith))
  ],
  elim [
    | inl c ↦ ground (arith, (matchname_exact (i.ev_shortname dev)).1 c)
    | inr c ↦ ground (arith, (matchname_partial (i.ev_name dev)).1 c)
  ],
)
