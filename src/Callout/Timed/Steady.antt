-- ===== src/Callout/Timed/Steady.antt =====
-- A round of the callout thread on a machine that stays on one source of power, and whose clock does
-- not move while the driver asks.
use framework_kmod.Base.{
  ap, inl, inr, Option-cases, Option, Returns, arith, free, held, if◌then◌else◌, ok, refl, some,
  sym, subst, u32, ℕ, ◌*◌, ◌+◌, ◌<◌, ◌∙◌, ◌≡◌, ◌≢◌, ◌≤◌, leb,
}
use native.Mathlib.Nat.{mul-le-mul_right}
use framework_kmod.Kernel.{Kernel}
use framework_kmod.Power.{PowerType, bat, pwr, ivl, PowerSys}
use framework_kmod.Power.Modes.{IsAcpi, mode_of, after}
use framework_kmod.Screen.{ScreenConfig}
use framework_kmod.Backlight.{BacklightSys, setbrightness}
use framework_kmod.Backlight.Panel.{setbrightness_returns}
use framework_kmod.Display.{Display, power_of, put_backlight, backlight_of}
use framework_kmod.Utils.Lookup.{after_query, mode_now}
use framework_kmod.Callout.{
  dim, sec2tick, CalloutSys, put_callout, put_display, put_level, put_lock, elapsed, next_seconds,
  round, schedule,
}
use framework_kmod.Callout.Wanted.{wanted, timeout, in_use, config_now, queried}
use framework_kmod.Callout.Rounds.{InLoop, idle, next_level, finished, round-finished}

module _ {E : Type 0} (k : Kernel E) (hz : ℕ) (pass : E → E) where
  -- ACPI tells the source of power `m` all the time. A second of `hz` ticks moves the clock by one,
  -- the calls of the driver do not.
  pub record IsSteady (m : PowerType) : Type 0 where
    pub acpi : IsAcpi k
    pub known : m ≢ ivl
    pub source : (e : E) → mode_of k (k.get_battinfo 0 e).value ≡ m
    pub passes : (e : E) → k.time_uptime (pass e) ≡ k.time_uptime e + 1
    pub at_query : (e : E) → k.time_uptime (k.get_battinfo 0 e).env ≡ k.time_uptime e
    pub at_read :
        (dev p : ℕ) (e : E) → k.time_uptime (k.backlight_get_status dev p e).env ≡ k.time_uptime e
    pub at_write :
        (dev b : ℕ) (e : E)
        → k.time_uptime (k.backlight_update_status dev b e).env ≡ k.time_uptime e

module _ {E : Type 0} (k : Kernel E) (hz : ℕ) where
  -- `tvtohz` is right up to less than a second, for times that fit: it is an int, and stops at 2 ^ 31 - 1.
  pub record KeepsTime : Type 0 where
    pub ticks :
        (n : ℕ) → n * hz + hz < 2147483648 → (n * hz ≤ k.tvtohz n) × (k.tvtohz n < n * hz + hz)

  -- For a sleep of at most `limit` seconds, the conversion to `uint32_t` loses nothing.
  pub sec2tick-KeepsTime :
      (n limit : ℕ)
      → KeepsTime
      → n ≤ limit
      → limit * hz + hz < 2147483648
      → (n * hz ≤ sec2tick k n) × (sec2tick k n < n * hz + hz)
  sec2tick-KeepsTime n limit t h b =
      let below = mul-le-mul_right hz h in
      let (above, less) = t.ticks n (omega arith) in
      let same : u32 (k.tvtohz n) ≡ k.tvtohz n = ground arith in rw same (above, less)

module _ {E : Type 0} (k : Kernel E) where
  abbrev pub now : CalloutSys E → ℕ
  now s = k.time_uptime s.display.env

  abbrev pub env_after :
      (m : PowerType) (s : PowerSys E) → (after k m s).env ≡ (k.get_battinfo 0 s.env).env
  env_after bat s = refl
  env_after pwr s = refl
  env_after ivl s = refl

module _ {E : Type 0} (k : Kernel E) {hz : ℕ} {pass : E → E} {m : PowerType}
    (st : IsSteady k hz pass m) where
  -- What setting the panel leaves: the time and the device.
  abbrev pub Kept : BacklightSys E → BacklightSys E → Type 0
  Kept s t = (k.time_uptime t.env ≡ k.time_uptime s.env) × (t.backlight.sc ≡ s.backlight.sc)

  pub setbrightness-Kept :
      (b : ℕ) (s : BacklightSys E) → Returns (λ r t. Kept s t) (setbrightness k b s)
  unfolding setbrightness
  setbrightness-Kept b s = elim (Option-cases s.backlight.sc) [
    | inl n ↦ ground (arith, n)
    | inr (dev, d) ↦
        let e = (k.backlight_get_status dev s.backlight.brightness s.env).env in
        ground (arith, d, st.at_read dev s.backlight.brightness s.env, st.at_write dev b e)
  ]

  pub set-Kept : (b r : ℕ) (s t : BacklightSys E) → setbrightness k b s ≡ ok r t → Kept s t
  set-Kept b r s t e = subst (Returns (λ _ u. Kept s u)) e (setbrightness-Kept b s)

  pub query_time : (d : Display E) → k.time_uptime (after_query k d).env ≡ k.time_uptime d.env
  query_time d = ap k.time_uptime (env_after k (mode_now k d) (power_of d)) ∙ st.at_query d.env

  now-queried : (s : CalloutSys E) → now k (queried k s) ≡ now k s
  now-queried s = query_time s.display

  idle_queried : (s : CalloutSys E) → idle k (queried k s) ≡ idle k s
  idle_queried s = ap (λ n. elapsed n s.evdev.last_input) (now-queried s)

  -- The end of a round, once the panel is set.
  abbrev pub scheduled : ℕ → CalloutSys E → BacklightSys E → CalloutSys E
  scheduled wait s t =
      put_callout
        (record (s.callout) { lock = held; expect_next_callout = u32 (k.tick t.env + wait) })
        (put_display (put_backlight t s.display) s)

  finished_lem :
      (b seconds limit r : ℕ) (s : CalloutSys E) (t : BacklightSys E)
      → setbrightness k b (backlight_of s.display) ≡ ok r t
      → finished k b seconds limit (put_lock free s)
        ≡ ok
            (some (sec2tick k (next_seconds seconds limit)))
            (scheduled (sec2tick k (next_seconds seconds limit)) s t)
  unfolding schedule
  finished_lem b seconds limit r s t e = rw e

  -- The round goes on from here, after its queries.
  abbrev pub before_set : ℕ → CalloutSys E → CalloutSys E
  before_set limit s = queried k (put_level (next_level k limit s) (queried k s))

  round_lem :
      (s : CalloutSys E) (limit : ℕ)
      → InLoop s
      → timeout (in_use m s.display.screen) ≡ limit
      → 0 < limit
      → round k s
        ≡ finished k
            (wanted (next_level k limit s) (in_use m s.display.screen))
            (idle k s)
            limit
            (put_lock free (before_set limit s))
  round_lem s limit i e h =
      let u = queried k s in
      let level = λ (n : ℕ). if leb limit n then dim else s.callout.current_level in
      let rest = λ (n : ℕ) (c : Option ScreenConfig).
        finished k (wanted (level n) c) n limit
          (put_lock free (queried k (put_level (level n) u))) in
      round-finished k s limit i st.acpi (λ z. st.known (sym (st.source s.display.env) ∙ z))
        (ap (λ x. timeout (in_use x s.display.screen)) (st.source s.display.env) ∙ e) h
      ∙ ap (λ n. rest n (config_now k u)) (idle_queried s)
      ∙ ap (λ x. rest (idle k s) (in_use x s.display.screen)) (st.source u.display.env)

  -- A round, with the brightness that it sets, and what it leaves.
  pub round_steady :
      (s : CalloutSys E) (limit : ℕ)
      → InLoop s
      → timeout (in_use m s.display.screen) ≡ limit
      → 0 < limit
      → let b = wanted (next_level k limit s) (in_use m s.display.screen) in
        let wait = sec2tick k (next_seconds (idle k s) limit) in
        (r : ℕ) × (t : BacklightSys E) × (setbrightness k b
            (backlight_of (before_set limit s).display)
          ≡ ok r t)
        × (round k s ≡ ok (some wait) (scheduled wait (before_set limit s) t))
  round_steady s limit i e h =
      let b = wanted (next_level k limit s) (in_use m s.display.screen) in
      let (r, t, set) = setbrightness_returns k b (backlight_of (before_set limit s).display) in
      (
        r,
        t,
        set,
        round_lem s limit i e h ∙ finished_lem b (idle k s) limit r (before_set limit s) t set,
      )
