-- ===== src/Callout/Timed/Tuned/Kept.antt =====
-- The callout system of kmod/framework_callout.c while time passes, input comes and the handlers of
-- kmod/framework_sysctl.c write the levels and timeouts.
use framework_kmod.Base.{
  List, [], ◌∷◌, Returns-then, Bool-cases, Option, Returns, inl, inr, ltb, none, refl, some, ℕ, ◌+◌,
  ◌≤◌, ◌∙◌, ap,
}
use framework_kmod.Kernel.{Kernel, InputApi}
use framework_kmod.Power.{PowerType}
use framework_kmod.Screen.{Screen, ScreenPtr}
use framework_kmod.Screen.Bounds as Bounds
use framework_kmod.Backlight.Panel.{Shows}
use framework_kmod.Display.{backlight_of, put_backlight, put_screen}
use framework_kmod.Callout.{CalloutSys, high, put_display}
use framework_kmod.Utils.Lookup.{after_query}
use framework_kmod.Callout.Wanted.{in_use, timeout, wanted_capped}
use framework_kmod.Callout.Timed.{Clocked, input, second, sleep_on, step}
use framework_kmod.Callout.Timed.Steady.{IsSteady}
use framework_kmod.Callout.Timed.Wired.{Wired, display-Wired, backlight-IsReady}
use framework_kmod.Callout.Timed.Reports.{
  backlight-after_key, on_input_set, reported, reported-Wired,
}
use framework_kmod.Callout.Timed.Begin.{passed, passed-Wired}
use framework_kmod.Callout.Timed.Shown.{Works, set_shown}
use framework_kmod.Sysctl.{Request, Variable}
use framework_kmod.Sysctl.Limits.{screen_config-store, stored-IsReady}
use framework_kmod.Callout.Timed.Tuned.{happens, write, Change, change, changes}
use framework_kmod.Callout.Timed.Tuned.Up.{
  Goes, IsQuiet, IsUp, Shows-same, goes_active, goes_on, woken-IsUp,
}

-- The same system with other levels.
screen-Wired :
    {E : Type 0} {m : PowerType} (t : Screen) (s : CalloutSys E) (limit : ℕ)
    → Wired m limit s
    → Bounds.IsReady t
    → Wired m (timeout (in_use m t)) (put_display (put_screen t s.display) s)
screen-Wired t s limit w r = record {
  can_run = record {
    rw_free = w.can_run.rw_free;
    has_config = w.can_run.has_config;
    display_ready = record { power_free = w.can_run.display_ready.power_free; screen_ready = r };
  };
  unlocked = w.unlocked;
  handler = w.handler;
  evdev_free = w.evdev_free;
  evdev_on = w.evdev_on;
  wired = w.wired;
  accepts = w.accepts;
  limited = refl;
}

module _ {E : Type 0} (k : Kernel E) (i : InputApi E) {hz : ℕ} {pass : E → E} {m : PowerType}
    (st : IsSteady k hz pass m) {shown : ℕ → ℕ → E → Type 0} (works : Works k pass shown)
    (quiet : IsQuiet k i shown) where
  asleep-IsUp :
      (left : Option ℕ) (dev b limit : ℕ) (s : CalloutSys E)
      → Wired m limit s
      → Goes s.callout.active left
      → Shows k shown dev b (backlight_of s.display)
      → b ≤ 100
      → Returns
          (λ _ c. IsUp k m shown dev c)
          (sleep_on k i hz pass left (record { sys = s; left = left }))
  unfolding sleep_on
  asleep-IsUp none dev b limit s w g shows h = record {
    limit = limit;
    wired = w;
    goes = g;
    brightness = b;
    shows = shows;
    capped = h;
  }
  asleep-IsUp (some wait) dev b limit s w g shows h = elim (Bool-cases (ltb wait (hz + hz))) [
    | inl over ↦ rw over (
        woken-IsUp k i st works quiet dev b limit s w (goes_active s.callout.active wait g) shows h)
    | inr on ↦ rw on (record {
      limit = limit;
      wired = w;
      goes = goes_on s.callout.active _ (goes_active s.callout.active wait g);
      brightness = b;
      shows = shows;
      capped = h;
    })
  ]

  -- A second passes.
  pub second-IsUp :
      (dev : ℕ) (c : Clocked E)
      → IsUp k m shown dev c
      → Returns (λ _ d. IsUp k m shown dev d) (step k i hz pass second c)
  unfolding step
  second-IsUp dev c u =
      asleep-IsUp c.left dev u.brightness u.limit (passed k i st c.sys)
        (passed-Wired k i st u.limit c.sys u.wired) u.goes
        (Shows-same k i st works quiet dev u.brightness (backlight_of c.sys.display) _ refl
          (works.still dev u.brightness _) u.shows)
        u.capped

  pub input-IsUp :
      (dev : ℕ) (keycode : Option ℕ) (c : Clocked E)
      → IsUp k m shown dev c
      → Returns (λ _ d. IsUp k m shown dev d) (step k i hz pass (input keycode) c)
  unfolding step
  input-IsUp dev keycode c u =
      let v = reported k st keycode c.sys in
      let (error, t, set, run) = on_input_set k st keycode u.limit c.sys u.wired in
      let ready = reported-Wired k st keycode u.limit c.sys u.wired in
      rw run (record {
        limit = u.limit;
        wired =
            display-Wired m u.limit (put_backlight t v.display) v ready
              (backlight-IsReady k st t v.display ready.can_run.display_ready) ready.limited;
        goes = u.goes;
        brightness = _;
        shows =
            set_shown k works dev _ error (backlight_of v.display) t
              (ap (λ z. z.sc) (backlight-after_key k st keycode (after_query k c.sys.display))
                ∙ u.shows.0)
              set;
        capped =
            wanted_capped m high c.sys.display.screen u.wired.can_run.display_ready.screen_ready;
      })

  -- A write through a sysctl.
  pub write-IsUp :
      (dev : ℕ) (v : Variable) (p : ScreenPtr) (req : Request) (c : Clocked E)
      → IsUp k m shown dev c
      → Returns (λ _ d. IsUp k m shown dev d) (change k i hz pass (write v p req) c)
  unfolding change
  write-IsUp dev v p req c u =
      let r = u.wired.can_run.display_ready in
      rw (screen_config-store v p req c.sys.display.screen r.screen_ready) (record {
        limit = _;
        wired =
            screen-Wired _ c.sys u.limit u.wired
              (stored-IsReady v p _ c.sys.display.screen r.screen_ready);
        goes = u.goes;
        brightness = u.brightness;
        shows = u.shows;
        capped = u.capped;
      })

  pub changes-IsUp :
      (dev : ℕ) (cs : List Change) (c : Clocked E)
      → IsUp k m shown dev c
      → Returns (λ _ d. IsUp k m shown dev d) (changes k i hz pass cs c)
  unfolding changes
  changes-IsUp dev [] c u = u
  changes-IsUp dev (happens second ∷ cs) c u =
      Returns-then _ _ _ _ (λ _ d. changes-IsUp dev cs d) (second-IsUp dev c u)
  changes-IsUp dev (happens (input keycode) ∷ cs) c u =
      Returns-then _ _ _ _ (λ _ d. changes-IsUp dev cs d) (input-IsUp dev keycode c u)
  changes-IsUp dev (write v p req ∷ cs) c u =
      Returns-then _ _ _ _ (λ _ d. changes-IsUp dev cs d) (write-IsUp dev v p req c u)
