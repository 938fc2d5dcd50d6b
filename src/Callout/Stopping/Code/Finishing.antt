-- ===== src/Callout/Stopping/Code/Finishing.antt =====
-- kmod/framework_callout.c: what it means that the wait of the destroyer comes to an end.
use framework_kmod.Base.{Bool, Option, false, ok, true, ℕ, ◌≡◌}
use framework_kmod.Kernel.{Kernel, InputApi}
use framework_kmod.Screen.{Screen}
use framework_kmod.Screen.Bounds as Bounds
use framework_kmod.Display.{put_screen}
use framework_kmod.Callout.{CalloutSys, put_display}
use framework_kmod.Callout.Stopping.{away}
use framework_kmod.Callout.Stopping.Told.{is_over}
use framework_kmod.Callout.Stopping.Code.{Places, Who, reporter}
use framework_kmod.Callout.Stopping.Code.Running.{code, rests, view}
use framework_kmod.Callout.Stopping.Code.Matching.{put_env}

abbrev pub is_reporter : Who → Bool
is_reporter reporter = true
is_reporter a = false

module _ {E : Type 0} (k : Kernel E) (i : InputApi E) where
  -- What listeners do while the thread, the destroyer and the timer wait, with any keys, changes of the
  -- kernel's state, and writes to the configurations.
  pub data Meanwhile : Places → CalloutSys E → Places → CalloutSys E → Type 0 where
    still : {p : Places} {s : CalloutSys E} → Meanwhile p s p s
    listens :
        {p q r : Places} {s t u : CalloutSys E}
        → Meanwhile p s q t
        → rests reporter (view q t) ≡ false
        → code k i reporter q t ≡ ok r u
        → Meanwhile p s r u
    changes :
        {p q : Places} {s t : CalloutSys E}
        → Meanwhile p s q t
        → (e : E) → Meanwhile p s q (put_env e t)
    stores :
        {p q : Places} {s t : CalloutSys E}
        → Meanwhile p s q t
        → (c : Screen) → Bounds.IsReady c
        → Meanwhile p s q (put_display (put_screen c t.display) t)
    presses :
        {p q : Places} {s t : CalloutSys E}
        → Meanwhile p s q t
        → q.input ≡ away
        → (keycode : Option ℕ) → Meanwhile p s (record q { keycode = keycode }) t

  -- The thread, the destroyer or the timer is not at rest, and its code comes to its next place.
  pub record Movable (p : Places) (s : CalloutSys E) : Type 0 where
    pub who : Who
    pub other : is_reporter who ≡ false
    pub awake : rests who (view p s) ≡ false
    pub places : Places
    pub state : CalloutSys E
    pub comes : code k i who p s ≡ ok places state

  -- Whoever runs, the destroyer comes to where it has only the mutexes to destroy and the memory to
  -- free; and before that somebody can move.
  pub data Finishes : Places → CalloutSys E → Type 0 where
    over : {p : Places} {s : CalloutSys E} → is_over p.destroyer ≡ true → Finishes p s
    goes :
        {p : Places} {s : CalloutSys E}
        → ((q : Places) (t : CalloutSys E) → Meanwhile p s q t → Movable q t)
        → ((q r : Places) (t u : CalloutSys E) (a : Who)
            → Meanwhile p s q t
            → is_reporter a ≡ false
            → rests a (view q t) ≡ false
            → code k i a q t ≡ ok r u
            → Finishes r u)
        → Finishes p s
