-- ===== src/Callout/Stopping/Code/Follows.antt =====
-- kmod/framework_callout.c: every step of the interleaving model is what the code of its place does to
-- the callout system.
use framework_kmod.Base.{
  Mutex, Bool, Bool-cases, Option, arith, false, inl, inr, leb, none, ok, pure, refl, some, true, ℕ,
  ◌==◌, ◌≡◌,
}
use framework_kmod.Kernel.{Kernel, InputApi}
use framework_kmod.Power.{PowerType}
use framework_kmod.Backlight.{BacklightSys, setbrightness}
use framework_kmod.Backlight.Panel.{setbrightness_returns}
use framework_kmod.Display.{Display, IsReady, backlight_of}
use framework_kmod.Evdev.{
  callout_inputintr, getlastinput_lem, oninput_lem, setintrfunc_lem, IntrFunc,
}
use framework_kmod.Utils.Lookup.{after_query}
use framework_kmod.Callout.{CalloutSys, elapsed, high}
use framework_kmod.Callout.Wanted.{
  config_now, getbrightnessfor-wanted, getcurrenttimeout-timeout, in_use, queried, wanted,
}
use framework_kmod.Callout.Rounds.{dim_if_lem}
use framework_kmod.Callout.Timed.Steady.{IsSteady}
use framework_kmod.Callout.Timed.Wired.{queried-IsReady, backlight-IsReady}
use framework_kmod.Callout.Timed.Reports.{accept_all, after_key, after_key-IsReady}
use framework_kmod.Callout.Stopping.{
  Destroyer, Input, Runner, asking, asleep, away, born, called, comparing, destroyer, done,
  entering, gone, idle, judging, leaving, listener, locking, past, reading, released, roused,
  scheduling, setting, sleeping, telling, testing, unwired, using, wired, woken, step,
}
use framework_kmod.Callout.Stopping.Shape.{destroyer_holds, runner_holds}
use framework_kmod.Callout.Stopping.Code.{
  Places, actor, thread, at_destroyer, at_input, at_runner, copied,
}
use framework_kmod.Callout.Stopping.Code.Running.{
  Follows, Sound, Sound-CanRun, display-Sound, is_held, is_idle, is_set, found, mutex, pauses,
  reaches, view, waits,
}

pub initialised : {x : Mutex} (b : Bool) → x ≡ mutex b → x ≡ mutex (is_held x)
initialised true l = rw l refl
initialised false l = rw l refl

module _ {E : Type 0} (k : Kernel E) (i : InputApi E) {hz : ℕ} {pass : E → E} {m : PowerType}
    (st : IsSteady k hz pass m) where
  queried-Sound : (s : CalloutSys E) → Sound s → Sound (queried k s)
  queried-Sound s w = display-Sound _ s w (queried-IsReady k st s.display w.ready)

  waked-IsReady : (d : Display E) → IsReady d → IsReady (record d { env = i.wakeup d.env })
  waked-IsReady d r = record { power_free = r.power_free; screen_ready = r.screen_ready }

  -- What comes of setting the panel does not depend on the mutex of the structure.
  panel_set :
      (b : ℕ) (d : Display E)
      → (r : ℕ) × (t : BacklightSys E) × (setbrightness k b (backlight_of d) ≡ ok r t)
  panel_set b d = setbrightness_returns k b (backlight_of d)

  -- The thread at a place where the mutex is `b`.
  pub on_runner :
      (r : Runner) (p : Places) (s : CalloutSys E) (b : Bool)
      → p.runner ≡ r
      → s.callout.lock ≡ mutex b
      → Sound s
      → waits r ≡ false
      → (runner_holds r ≡ true → b ≡ true)
      → Follows (found k i r p s) (step (actor thread p) (view p s)) (at_runner k i pure r p s)
  unfolding step at_runner
  on_runner born p s b e l w h g =
      rw (e, setintrfunc_lem (some callout_inputintr) s.evdev w.evdev_free)
        (reaches _ _ w (initialised b l))
  on_runner wired p s b e l w h g = rw e (reaches _ _ w (initialised b l))
  on_runner entering p s true e l w h g = rw (e, l) refl
  on_runner entering p s false e l w h g = rw (e, l) (reaches _ _ w refl)
  on_runner testing p s false e l w h g = absurd (ground (arith, g refl))
  on_runner testing p s true e l w h g = elim (Bool-cases s.callout.active) [
    | inl y ↦ rw (e, l, y) (reaches _ _ w refl)
    | inr n ↦ rw (e, l, n) (reaches _ _ w refl)
  ]
  on_runner asking p s true e l w h g =
      rw (e, getcurrenttimeout-timeout k s (Sound-CanRun s w) st.acpi, l) refl
  on_runner asking p s false e l w h g =
      rw (e, getcurrenttimeout-timeout k s (Sound-CanRun s w) st.acpi, l)
        (reaches _ _ (queried-Sound s w) refl)
  on_runner judging p s false e l w h g = absurd (ground (arith, g refl))
  on_runner judging p s true e l w h g = elim (Bool-cases (p.current_timeout == 0)) [
    | inl y ↦ rw (e, l, y) (reaches _ _ w refl)
    | inr n ↦ rw (e, l, n) (reaches _ _ w refl)
  ]
  on_runner reading p s true e l w h g = rw (e, l, getlastinput_lem s.evdev w.evdev_free) refl
  on_runner reading p s false e l w h g =
      rw (e, l, getlastinput_lem s.evdev w.evdev_free) (reaches _ _ w refl)
  on_runner comparing p s false e l w h g = absurd (ground (arith, g refl))
  on_runner comparing p s true e l w h g =
      let over = leb p.current_timeout (elapsed (k.time_uptime s.display.env) p.last_input) in
      rw (e, dim_if_lem over s w.rw_free, l) (reaches _ _ w refl)
  on_runner setting p s true e l w h g =
      let (r, t, set) =
        panel_set (wanted s.callout.current_level (config_now k s)) (after_query k s.display) in
      rw (e, getbrightnessfor-wanted k s (Sound-CanRun s w) st.acpi, set, l) refl
  on_runner setting p s false e l w h g =
      let (r, t, set) =
        panel_set (wanted s.callout.current_level (config_now k s)) (after_query k s.display) in
      rw (e, getbrightnessfor-wanted k s (Sound-CanRun s w) st.acpi, set, l)
        (reaches _ _
          (display-Sound _ s w
            (backlight-IsReady k st t _ (queried-IsReady k st s.display w.ready)))
          refl)
  on_runner scheduling p s false e l w h g = absurd (ground (arith, g refl))
  on_runner scheduling p s true e l w h g = rw (e, l) (reaches _ _ w refl)
  on_runner sleeping p s b e l w h g = cc
  on_runner woken p s true e l w h g = rw (e, l) refl
  on_runner woken p s false e l w h g = rw (e, l) (reaches _ _ w refl)
  on_runner leaving p s b e l w h g =
      rw e (reaches _ _ (display-Sound _ s w (waked-IsReady s.display w.ready)) (initialised b l))
  on_runner gone p s b e l w h g = cc

  -- The destroyer.
  pub on_destroyer :
      (d : Destroyer) (p : Places) (s : CalloutSys E) (b : Bool)
      → p.destroyer ≡ d
      → s.callout.lock ≡ mutex b
      → Sound s
      → pauses d ≡ false
      → (destroyer_holds d ≡ true → b ≡ true)
      → Follows p.current_timeout (step destroyer (view p s)) (at_destroyer k i pure d p s)
  unfolding step at_destroyer
  on_destroyer idle p s b e l w h g =
      rw (e, setintrfunc_lem none s.evdev w.evdev_free) (reaches _ _ w (initialised b l))
  on_destroyer unwired p s b e l w h g = rw e (reaches _ _ w (initialised b l))
  on_destroyer locking p s true e l w h g = rw (e, l) refl
  on_destroyer locking p s false e l w h g = rw (e, l) (reaches _ _ w refl)
  on_destroyer telling p s false e l w h g = absurd (ground (arith, g refl))
  on_destroyer telling p s true e l w h g = elim (Bool-cases s.callout.active) [
    | inl y ↦
        rw (e, y, l) (reaches _ _ (display-Sound _ s w (waked-IsReady s.display w.ready)) refl)
    | inr n ↦ rw (e, n) (reaches _ _ w (initialised true l))
  ]
  on_destroyer asleep p s b e l w h g = cc
  on_destroyer roused p s true e l w h g = rw (e, l) refl
  on_destroyer roused p s false e l w h g = rw (e, l) (reaches _ _ w refl)
  on_destroyer (past slept) p s false e l w h g = absurd (ground (arith, g refl))
  on_destroyer (past slept) p s true e l w h g = rw (e, l) (reaches _ _ w refl)
  on_destroyer (released slept) p s b e l w h g = cc
  on_destroyer (done slept) p s b e l w h g = cc

  copied-Follows :
      (f : Option IntrFunc) (p : Places) (s : CalloutSys E) (b : Bool)
      → p.input ≡ away
      → s.evdev.cbfunc ≡ f
      → s.callout.lock ≡ mutex b
      → Sound s
      → is_idle away (is_set f) ≡ false
      → Follows p.current_timeout (step listener (view p s)) (copied k i pure p f s)
  unfolding step copied
  copied-Follows none p s b e f l w h = cc
  copied-Follows (some callout_inputintr) p s b e f l w h =
      rw (e, f) (reaches _ _ w (initialised b l))

  -- A listener with input.
  pub on_input :
      (j : Input) (p : Places) (s : CalloutSys E) (b : Bool)
      → p.input ≡ j
      → s.callout.lock ≡ mutex b
      → Sound s
      → is_idle j (is_set s.evdev.cbfunc) ≡ false
      → Follows p.current_timeout (step listener (view p s)) (at_input k i pure j p s)
  unfolding step at_input
  on_input away p s b e l w h =
      rw (oninput_lem (k.time_uptime s.display.env) s.evdev w.evdev_free w.evdev_on)
        (copied-Follows s.evdev.cbfunc p _ b e refl l w h)
  on_input called p s b e l w h = elim (Bool-cases s.drop) [
    | inl y ↦ rw (e, y) (reaches _ _ w (initialised b l))
    | inr n ↦ rw (e, n) (reaches _ _ w (initialised b l))
  ]
  on_input using p s b e l w h =
      let (r, t, set) =
        panel_set (wanted high (in_use m s.display.screen))
          (after_key k p.keycode (after_query k s.display)) in
      rw (e, accept_all k st p.keycode s (Sound-CanRun s w) w.handled, set)
        (reaches _ _
          (display-Sound _ s w (
            backlight-IsReady k st t _
              (after_key-IsReady k st p.keycode _ (queried-IsReady k st s.display w.ready))))
          (initialised b l))
