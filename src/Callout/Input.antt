-- ===== src/Callout/Input.antt =====
-- The interrupt on input, `framework_callout_inputintr`.
use framework_kmod.Base.{
  Action, Bool, and_then, arith, branch, false, inl, inr, none, ok, pos, pure, some, subst, sym,
  true, ℕ, ◌>>◌, ◌≡◌, ◌≢◌, ◌⊎◌,
}
use framework_kmod.Kernel.{Kernel}
use framework_kmod.Power.{ivl}
use framework_kmod.Power.Modes.{IsAcpi, after_free}
use framework_kmod.Screen.{power_config}
use framework_kmod.Backlight.{setbrightness}
use framework_kmod.Display.{Display, IsReady, power_of, on_backlight}
use framework_kmod.Utils.Lookup.{mode_now, after_query}
use framework_kmod.Keyhandler.{init, handlekey}
use framework_kmod.Keyhandler.Keys.{pressed, handlekey-pressed}
use framework_kmod.Callout.{
  high, CalloutSys, put_display, put_level, on_display, accept, inputintr, forward,
}
use framework_kmod.Callout.Wanted.{
  set_level_lem, wanted, config_now, queried, CanRun, getbrightnessfor-wanted,
}

module _ {E : Type 0} (k : Kernel E) where
  -- The panel is set to a brightness; the error of that is not looked at.
  abbrev pub shown : ℕ → Action (CalloutSys E) (Unit {0})
  shown b = on_display (on_backlight (setbrightness k b)) >> pure tt

  raised-CanRun : (s : CalloutSys E) → CanRun s → CanRun (put_level high s)
  raised-CanRun s c = ground arith

  accept_lem :
      (s : CalloutSys E)
      → CanRun s
      → IsAcpi k
      → accept k none s ≡ shown (wanted high (config_now k s)) (queried k (put_level high s))
  unfolding accept forward
  accept_lem s c a = rw (
    set_level_lem high s c.rw_free,
    getbrightnessfor-wanted k (put_level high s) (raised-CanRun s c) a,
  )

  -- Input without a key, once the driver accepts input: the level is HIGH, ACPI is asked once, and
  -- the panel is set to `brightness_high` of the configuration in use, or to 100 where ACPI's answer
  -- leaves that open.
  pub inputintr-shown :
      (s : CalloutSys E)
      → CanRun s
      → IsAcpi k
      → s.drop ≡ false
      → inputintr k none s ≡ shown (wanted high (config_now k s)) (queried k (put_level high s))
  unfolding inputintr
  inputintr-shown s c a d =
      subst
        (λ b.
          branch b (pure tt) (accept k none) s
          ≡ shown (wanted high (config_now k s)) (queried k (put_level high s)))
        (sym d) (accept_lem s c a)

  forward_lem :
      (key : ℕ) (s : CalloutSys E) {d : Display E}
      → handlekey k (init (some power_config)) key s.display ≡ ok (pos 0) d
      → forward k (some key) (init (some power_config)) s ≡ ok tt (put_display d s)
  unfolding forward init
  forward_lem key s e = rw e

  key_lem :
      (key : ℕ) (up : Bool) (d : Display E)
      → IsReady d
      → IsAcpi k
      → ((key ≡ 225) × (up ≡ true)) ⊎ ((key ≡ 224) × (up ≡ false))
      → handlekey k (init (some power_config)) key d ≡ ok (pos 0) (pressed k up d)
  key_lem key up d r a (inl (e, u)) = rw u ((handlekey-pressed k key d r a).0 e)
  key_lem key up d r a (inr (e, u)) = rw u ((handlekey-pressed k key d r a).1 e)

  queried-IsReady : (d : Display E) → IsReady d → mode_now k d ≢ ivl → IsReady (after_query k d)
  queried-IsReady d r m = record {
    power_free = after_free k (mode_now k d) (power_of d) m;
    screen_ready = r.screen_ready;
  }

  accept_key :
      (s : CalloutSys E) (key : ℕ) (up : Bool)
      → CanRun s
      → IsAcpi k
      → s.callout.keyhandler ≡ init (some power_config)
      → mode_now k s.display ≢ ivl
      → ((key ≡ 225) × (up ≡ true)) ⊎ ((key ≡ 224) × (up ≡ false))
      → accept k (some key) s
        ≡ shown
            (wanted high (config_now k s))
            (put_display (pressed k up (after_query k s.display)) (put_level high s))
  unfolding accept
  accept_key s key up c a h m e =
      rw
        (
          set_level_lem high s c.rw_free,
          getbrightnessfor-wanted k (put_level high s) (raised-CanRun s c) a,
        )
        (subst
          (λ kh.
            and_then (forward k (some key) kh (queried k (put_level high s)))
              (λ _. shown (wanted high (config_now k s)))
            ≡ shown (wanted high (config_now k s))
                (put_display (pressed k up (after_query k s.display)) (put_level high s)))
          (sym h)
          (rw (
            forward_lem key (queried k (put_level high s))
              (key_lem key up _ (queried-IsReady s.display c.display_ready m) a e))))

  -- Key 225 or 224, of a ready driver whose ACPI tells the source of power: the key steps the level as
  -- the key handler does, on a second query of ACPI; but the panel is set to the `brightness_high` from
  -- before that step.
  pub inputintr-handlekey :
      (s : CalloutSys E) (key : ℕ) (up : Bool)
      → CanRun s
      → IsAcpi k
      → s.drop ≡ false
      → s.callout.keyhandler ≡ init (some power_config)
      → mode_now k s.display ≢ ivl
      → ((key ≡ 225) × (up ≡ true)) ⊎ ((key ≡ 224) × (up ≡ false))
      → inputintr k (some key) s
        ≡ shown
            (wanted high (config_now k s))
            (put_display (pressed k up (after_query k s.display)) (put_level high s))
  unfolding inputintr
  inputintr-handlekey s key up c a d h m e =
      subst
        (λ b.
          branch b (pure tt) (accept k (some key)) s
          ≡ shown (wanted high (config_now k s))
              (put_display (pressed k up (after_query k s.display)) (put_level high s)))
        (sym d) (accept_key s key up c a h m e)
