-- ===== src/Callout/Timed/Tuned/Up.antt =====
-- The callout system at work, and the thread of kmod/framework_callout.c when it wakes up, with a
-- timeout or without one.
use framework_kmod.Base.{
  subst, sym, Bool, Option, Returns, arith, false, none, ok, refl, some, true, ℕ, ◌<◌, ◌≡◌, ◌≤◌,
  ◌∙◌, ap, free, held, ◌>>=◌, branch, and_then,
}
use framework_kmod.Kernel.{Kernel, InputApi}
use framework_kmod.Power.{PowerType}
use framework_kmod.Backlight.{BacklightSys}
use framework_kmod.Backlight.Panel.{Shows}
use framework_kmod.Display.{power_of, backlight_of}
use framework_kmod.Callout.{CalloutSys, put_callout, put_display, put_lock, round, finish}
use framework_kmod.Utils.Lookup.{mode_now}
use framework_kmod.Callout.Rounds.{round_gives_up}
use framework_kmod.Callout.Wanted.{in_use, queried, timeout, wanted_capped}
use framework_kmod.Callout.Timed.{Clocked, to_clock, to_sleep, woken}
use framework_kmod.Callout.Timed.Steady.{env_after, IsSteady, before_set}
use framework_kmod.Callout.Timed.Wired.{
  Wired, asleep-Wired, locked-InLoop, queried-IsReady, woken_lem,
}
use framework_kmod.Callout.Timed.Shown.{Works, set_shown}

-- The thread sleeps in its loop, or has given up and ended.
abbrev pub Goes : Bool → Option ℕ → Type 0
Goes true none = ⊥
Goes true (some wait) = Unit {0}
Goes false none = Unit {0}
Goes false (some wait) = ⊥

module _ {E : Type 0} (k : Kernel E) (m : PowerType) (shown : ℕ → ℕ → E → Type 0) (dev : ℕ) where
  -- The system is at work, with some timeout, and the panel shows a level of at most 100.
  pub record IsUp (c : Clocked E) : Type 0 where
    pub limit : ℕ
    pub wired : Wired m limit c.sys
    pub goes : Goes c.sys.callout.active c.left
    pub brightness : ℕ
    pub shows : Shows k shown dev brightness (backlight_of c.sys.display)
    pub capped : brightness ≤ 100

module _ {E : Type 0} (k : Kernel E) (i : InputApi E) (shown : ℕ → ℕ → E → Type 0) where
  -- What the panel shows does not change by a query of ACPI, a wake-up, or the start of a thread.
  pub record IsQuiet : Type 0 where
    pub at_query : (dev b : ℕ) (e : E) → shown dev b e → shown dev b (k.get_battinfo 0 e).env
    pub at_wakeup : (dev b : ℕ) (e : E) → shown dev b e → shown dev b (i.wakeup e)
    pub at_start : (dev b : ℕ) (e : E) → shown dev b e → shown dev b (i.kthread_add e).env

pub goes_on : (b : Bool) (wait : ℕ) → b ≡ true → Goes b (some wait)
goes_on true wait e = tt
goes_on false wait e = cc

pub goes_active : (b : Bool) (wait : ℕ) → Goes b (some wait) → b ≡ true
goes_active true wait g = refl
goes_active false wait g = elim g [ ]

module _ {E : Type 0} (k : Kernel E) (i : InputApi E) {hz : ℕ} {pass : E → E} {m : PowerType}
    (st : IsSteady k hz pass m) {shown : ℕ → ℕ → E → Type 0} (works : Works k pass shown)
    (quiet : IsQuiet k i shown) where
  -- The panel shows the same when nobody sets it.
  pub Shows-same :
      (dev b : ℕ) (s t : BacklightSys E)
      → t.backlight ≡ s.backlight
      → (shown dev b s.env → shown dev b t.env)
      → Shows k shown dev b s
      → Shows k shown dev b t
  Shows-same dev b s t e same shows = (ap (λ z. z.sc) e ∙ shows.0, same shows.1)

  -- The thread finds a timeout, goes round, and sleeps.
  active-IsUp :
      (dev limit : ℕ) (s : CalloutSys E)
      → Wired m limit s
      → s.callout.active ≡ true
      → 0 < limit
      → s.display.backlight.sc ≡ some dev
      → Returns (λ _ c. IsUp k m shown dev c) (to_clock k i hz pass (woken k i s))
  unfolding to_clock
  active-IsUp dev limit s w a h c =
      let (error, t, set, run) = woken_lem k i st s limit w a h in
      rw run (record {
        limit = limit;
        wired = asleep-Wired k i st s limit t w;
        goes = goes_on s.callout.active _ a;
        brightness = _;
        shows =
            set_shown k works dev _ error (backlight_of (before_set k st limit s).display) t c set;
        capped = wanted_capped m _ s.display.screen w.can_run.display_ready.screen_ready;
      })

  -- What the thread leaves that finds no timeout, and ends.
  abbrev pub spent : CalloutSys E → CalloutSys E
  spent s =
      let u = queried k s in
      put_callout (record (u.callout) { lock = free; active = false })
        (put_display (record (u.display) { env = i.wakeup u.display.env }) u)

  pub gives_up :
      (s : CalloutSys E) → Wired m 0 s → s.callout.active ≡ true → woken k i s ≡ ok none (spent s)
  unfolding woken to_sleep finish
  gives_up s w a =
      let rest =
        λ (b : Bool). branch b (round k >>= to_sleep k i) (to_sleep k i none) (put_lock held s) in
      let locked : woken k i s ≡ rest s.callout.active = simp (w.unlocked) refl in
      let limit =
        ap (λ x. timeout (in_use x s.display.screen)) (st.source s.display.env) ∙ w.limited in
      locked
      ∙ ap rest a
      ∙ ap (λ o. and_then o (to_sleep k i))
          (round_gives_up k (put_lock held s) (locked-InLoop k i st 0 s w) st.acpi limit)

  pub spent-Wired : (s : CalloutSys E) → Wired m 0 s → Wired m 0 (spent s)
  spent-Wired s w = record {
    can_run = record {
      rw_free = w.can_run.rw_free;
      has_config = w.can_run.has_config;
      display_ready = record {
        power_free = (queried-IsReady k st s.display w.can_run.display_ready).power_free;
        screen_ready = w.can_run.display_ready.screen_ready;
      };
    };
    unlocked = refl;
    handler = w.handler;
    evdev_free = w.evdev_free;
    evdev_on = w.evdev_on;
    wired = w.wired;
    accepts = w.accepts;
    limited = w.limited;
  }

  spent-IsUp :
      (dev b : ℕ) (s : CalloutSys E)
      → Wired m 0 s
      → s.callout.active ≡ true
      → Shows k shown dev b (backlight_of s.display)
      → b ≤ 100
      → Returns (λ _ c. IsUp k m shown dev c) (to_clock k i hz pass (woken k i s))
  unfolding to_clock
  spent-IsUp dev b s w a shows h = rw (gives_up s w a) (record {
    limit = 0;
    wired = spent-Wired s w;
    goes = tt;
    brightness = b;
    shows =
        Shows-same dev b (backlight_of s.display) (backlight_of (spent s).display) refl
          (λ h. quiet.at_wakeup dev b _ (
            subst (shown dev b) (sym (env_after k (mode_now k s.display) (power_of s.display)))
              (quiet.at_query dev b s.display.env h)))
          shows;
    capped = h;
  })

  -- The thread wakes up.
  pub woken-IsUp :
      (dev b limit : ℕ) (s : CalloutSys E)
      → Wired m limit s
      → s.callout.active ≡ true
      → Shows k shown dev b (backlight_of s.display)
      → b ≤ 100
      → Returns (λ _ c. IsUp k m shown dev c) (to_clock k i hz pass (woken k i s))
  woken-IsUp dev b ℕ.zero s w a shows h = spent-IsUp dev b s w a shows h
  woken-IsUp dev b (ℕ.suc n) s w a shows h = active-IsUp dev (ℕ.suc n) s w a (omega arith) (shows.0)
