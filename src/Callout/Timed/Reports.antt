-- ===== src/Callout/Timed/Reports.antt =====
-- A report of an input device while the callout system runs: `framework_evdev_oninput` with the
-- interrupt function and the key handler.
use framework_kmod.Base.{
  ==_iff, Bool, Bool-cases, Option, and_then, ap, branch, false, if◌then◌else◌, inl, inr, minus_one,
  none, ok, pos, pure, refl, some, sym, true, ℕ, ℤ, ◌==◌, ◌∙◌, ◌≡◌, ◌≢◌, arith,
}
use framework_kmod.Kernel.{Kernel}
use framework_kmod.Power.{PowerType, bat, pwr, ivl}
use framework_kmod.Screen.{Screen, power_config}
use framework_kmod.Backlight.{BacklightSys, setbrightness}
use framework_kmod.Backlight.Panel.{setbrightness_returns}
use framework_kmod.Display.{Display, IsReady, put_backlight, backlight_of}
use framework_kmod.Utils.Lookup.{after_query, config_of, mode_now}
use framework_kmod.Keyhandler.{handlekey, init}
use framework_kmod.Keyhandler.Keys.{config_screen, handlekey-pressed, pressed, pressed-IsReady}
use framework_kmod.Callout.{CalloutSys, accept, forward, high, inputintr, put_display, put_level}
use framework_kmod.Callout.Input.{shown}
use framework_kmod.Callout.Wakeup.{on_input, noted_lem, touched, touched-CanRun}
use framework_kmod.Callout.Rounds.{leveled-CanRun}
use framework_kmod.Callout.Wanted.{
  CanRun, set_level_lem, getbrightnessfor-wanted, in_use, timeout, wanted, config_now, queried,
}
use framework_kmod.Callout.Timed.Steady.{IsSteady, query_time}
use framework_kmod.Callout.Timed.Wired.{Wired, relevel-Wired, display-Wired, queried-IsReady}

-- A key changes no timeout.
config_timeout :
    (m x : PowerType) (up : Bool) (s : Screen)
    → timeout (in_use m (config_screen up (config_of x) s)) ≡ timeout (in_use m s)
config_timeout bat bat up s = refl
config_timeout bat pwr up s = refl
config_timeout pwr bat up s = refl
config_timeout pwr pwr up s = refl
config_timeout ivl x up s = refl
config_timeout bat ivl up s = refl
config_timeout pwr ivl up s = refl

either {ℓ} : {A : Type ℓ} (P : A → Type 0) (b : Bool) (x y : A) → P x → P y → P (if b then x else y)
either P true x y p q = p
either P false x y p q = q

module _ {E : Type 0} (k : Kernel E) where
  -- The display after the key handler.
  abbrev pub after_key : Option ℕ → Display E → Display E
  after_key none d = d
  after_key (some key) d =
      if key == 225 then pressed k true d else if key == 224 then pressed k false d else d

  forward_to :
      (key : ℕ) (r : ℤ) (d : Display E) (s : CalloutSys E)
      → handlekey k (init (some power_config)) key s.display ≡ ok r d
      → forward k (some key) (init (some power_config)) s ≡ ok tt (put_display d s)
  unfolding forward init
  forward_to key r d s e = rw e

module _ {E : Type 0} (k : Kernel E) {hz : ℕ} {pass : E → E} {m : PowerType}
    (st : IsSteady k hz pass m) where
  forward_key :
      (key : ℕ) (s : CalloutSys E)
      → IsReady s.display
      → forward k (some key) (init (some power_config)) s
        ≡ ok tt (put_display (after_key k (some key) s.display) s)
  forward_key key s r =
      let (up, down, other) = handlekey-pressed k key s.display r st.acpi in
      elim (Bool-cases (key == 225)) [
        | inl y ↦ rw y (forward_to k key (pos 0) _ s (up ((==_iff key 225).0 y)))
        | inr n ↦ rw n (elim (Bool-cases (key == 224)) [
          | inl y ↦ rw y (forward_to k key (pos 0) _ s (down ((==_iff key 224).0 y)))
          | inr n' ↦
              rw n' (forward_to k key minus_one s.display s (other (ground arith) (ground arith)))
        ])
      ]

  forward_all :
      (keycode : Option ℕ) (s : CalloutSys E)
      → IsReady s.display
      → forward k keycode (init (some power_config)) s
        ≡ ok tt (put_display (after_key k keycode s.display) s)
  unfolding forward
  forward_all none s r = refl
  forward_all (some key) s r = forward_key key s r

  known_now : (d : Display E) → mode_now k d ≢ ivl
  known_now d z = st.known (sym (st.source d.env) ∙ z)

  -- What holds of the display after each of the two keys, and without one.
  key_rule :
      (P : Display E → Type 0) (keycode : Option ℕ) (d : Display E)
      → ((up : Bool) → P (pressed k up d))
      → P d
      → P (after_key k keycode d)
  key_rule P none d f p = p
  key_rule P (some key) d f p =
      either P (key == 225) (pressed k true d) _ (f true)
        (either P (key == 224) (pressed k false d) d (f false) p)

  pub after_key-IsReady :
      (keycode : Option ℕ) (d : Display E) → IsReady d → IsReady (after_key k keycode d)
  after_key-IsReady keycode d r =
      key_rule IsReady keycode d (λ up. (pressed-IsReady k up d r).0 (known_now d)) r

  pub timeout-after_key :
      (keycode : Option ℕ) (d : Display E)
      → timeout (in_use m (after_key k keycode d).screen) ≡ timeout (in_use m d.screen)
  timeout-after_key keycode d =
      key_rule (λ u. timeout (in_use m u.screen) ≡ timeout (in_use m d.screen)) keycode d
        (λ up. config_timeout m (mode_now k d) up d.screen) refl

  -- The clock does not move.
  pub after_key_time :
      (keycode : Option ℕ) (d : Display E)
      → k.time_uptime (after_key k keycode d).env ≡ k.time_uptime d.env
  after_key_time keycode d =
      key_rule (λ u. k.time_uptime u.env ≡ k.time_uptime d.env) keycode d (λ up. query_time k st d)
        refl

  pub backlight-after_key :
      (keycode : Option ℕ) (d : Display E) → (after_key k keycode d).backlight ≡ d.backlight
  backlight-after_key keycode d =
      key_rule (λ u. u.backlight ≡ d.backlight) keycode d (λ up. refl) refl

  -- What a report leaves before the panel is set.
  abbrev pub reported : Option ℕ → CalloutSys E → CalloutSys E
  reported keycode s =
      put_display (after_key k keycode (after_query k s.display)) (put_level high (touched k s))

  touched-Wired : (s : CalloutSys E) (limit : ℕ) → Wired m limit s → Wired m limit (touched k s)
  touched-Wired s limit w = record {
    can_run = touched-CanRun k s w.can_run;
    unlocked = w.unlocked;
    handler = w.handler;
    evdev_free = w.evdev_free;
    evdev_on = w.evdev_on;
    wired = w.wired;
    accepts = w.accepts;
    limited = w.limited;
  }

  pub accept_all :
      (keycode : Option ℕ) (s : CalloutSys E)
      → CanRun s
      → s.callout.keyhandler ≡ init (some power_config)
      → accept k keycode s
        ≡ shown k
            (wanted high (in_use m s.display.screen))
            (put_display (after_key k keycode (after_query k s.display)) (put_level high s))
  unfolding accept
  accept_all keycode s c h =
      let u = queried k (put_level high s) in
      let b = wanted high (config_now k s) in
      let shows = λ (b : ℕ). λ (_ : Unit {0}). shown k b in
      rw
        (
          set_level_lem high s c.rw_free,
          getbrightnessfor-wanted k (put_level high s) (leveled-CanRun high s c) st.acpi,
        )
        (ap (λ kh. and_then (forward k keycode kh u) (shows b)) h
          ∙ ap (λ o. and_then o (shows b))
              (forward_all keycode u (queried-IsReady k st s.display c.display_ready))
          ∙ ap
              (λ x.
                shown k (wanted high (in_use x s.display.screen))
                  (put_display (after_key k keycode u.display) u))
              (st.source s.display.env))

  pub on_input_all :
      (keycode : Option ℕ) (limit : ℕ) (s : CalloutSys E)
      → Wired m limit s
      → on_input k keycode s
        ≡ shown k (wanted high (in_use m s.display.screen)) (reported keycode s)
  unfolding inputintr
  on_input_all keycode limit s w =
      noted_lem k keycode s w.evdev_free w.evdev_on w.wired
      ∙ ap (λ b. branch b (pure tt) (accept k keycode) (touched k s)) w.accepts
      ∙ accept_all keycode (touched k s) (touched-CanRun k s w.can_run) w.handler

  -- The same, once the panel is set.
  pub on_input_set :
      (keycode : Option ℕ) (limit : ℕ) (s : CalloutSys E)
      → Wired m limit s
      → let u = reported keycode s in
        (r : ℕ) × (t : BacklightSys E) × (setbrightness k
            (wanted high (in_use m s.display.screen))
            (backlight_of u.display)
          ≡ ok r t)
        × (on_input k keycode s ≡ ok tt (put_display (put_backlight t u.display) u))
  on_input_set keycode limit s w =
      let u = reported keycode s in
      let b = wanted high (in_use m s.display.screen) in
      let (r, t, set) = setbrightness_returns k b (backlight_of u.display) in
      (r, t, set, on_input_all keycode limit s w ∙ rw set refl)

  -- The clock has not moved.
  pub reported_time :
      (keycode : Option ℕ) (s : CalloutSys E)
      → k.time_uptime (reported keycode s).display.env ≡ k.time_uptime s.display.env
  reported_time keycode s =
      after_key_time keycode (after_query k s.display) ∙ query_time k st s.display

  pub reported-Wired :
      (keycode : Option ℕ) (limit : ℕ) (s : CalloutSys E)
      → Wired m limit s
      → Wired m limit (reported keycode s)
  reported-Wired keycode limit s w =
      let d = after_query k s.display in
      display-Wired m limit _ (put_level high (touched k s))
        (relevel-Wired m limit high (touched k s) (touched-Wired s limit w))
        (after_key-IsReady keycode d (queried-IsReady k st s.display w.can_run.display_ready))
        (timeout-after_key keycode d ∙ w.limited)
