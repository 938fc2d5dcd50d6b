-- ===== src/Callout/Timed/Tuned/Over.antt =====
-- kmod/framework_callout.c once its thread has ended: what happens to the level.
use framework_kmod.Base.{
  List, Option, Outcome, Returns, Returns-then, Returns-map, [], none, refl, some, subst, suc, zero,
  ℕ, ◌≡◌, ◌∷◌,
}
use framework_kmod.Kernel.{Kernel, InputApi}
use framework_kmod.Power.{PowerType}
use framework_kmod.Screen.{ScreenPtr}
use framework_kmod.Callout.{BrightMode, CalloutSys, high}
use framework_kmod.Callout.Timed.{Clocked, input, second, sleep_on, step}
use framework_kmod.Callout.Timed.Steady.{IsSteady}
use framework_kmod.Callout.Timed.Reports.{on_input_set}
use framework_kmod.Callout.Timed.Begin.{passed}
use framework_kmod.Callout.Timed.Shown.{Works, both}
use framework_kmod.Sysctl.{Request, Variable}
use framework_kmod.Sysctl.Limits.{screen_config-store}
use framework_kmod.Callout.Timed.Tuned.{Change, change, changes, happens, write}
use framework_kmod.Callout.Timed.Tuned.Up.{IsQuiet, IsUp}
use framework_kmod.Callout.Timed.Tuned.Kept.{input-IsUp, second-IsUp, write-IsUp}

-- The level after these changes, when no thread dims: HIGH from the first report on.
abbrev pub relit : List Change → BrightMode → BrightMode
relit [] l = l
relit (happens second ∷ cs) l = relit cs l
relit (happens (input keycode) ∷ cs) l = relit cs high
relit (write v p req ∷ cs) l = relit cs l

abbrev pub seconds : ℕ → List Change → List Change
seconds zero cs = cs
seconds (suc n) cs = happens second ∷ seconds n cs

module _ {E : Type 0} (k : Kernel E) (m : PowerType) (shown : ℕ → ℕ → E → Type 0) (dev : ℕ) where
  -- The thread has ended, and the level is this.
  pub record Ended (l : BrightMode) (c : Clocked E) : Type 0 where
    pub up : IsUp k m shown dev c
    pub over : c.left ≡ none
    pub level : c.sys.callout.current_level ≡ l

module _ {E : Type 0} (k : Kernel E) (i : InputApi E) {hz : ℕ} {pass : E → E} {m : PowerType}
    (st : IsSteady k hz pass m) {shown : ℕ → ℕ → E → Type 0} (works : Works k pass shown)
    (quiet : IsQuiet k i shown) (dev : ℕ) where
  abbrev pub Leaves : BrightMode → Clocked E → Type 0
  Leaves l d = (d.left ≡ none) × (d.sys.callout.current_level ≡ l)

  ended :
      (l : BrightMode) (o : Outcome (Clocked E) (Unit {0}))
      → Returns (λ _ d. IsUp k m shown dev d) o
      → Returns (λ _ d. Leaves l d) o
      → Returns (λ _ d. Ended k m shown dev l d) o
  ended l o p q =
      Returns-map _ _ o (λ _ d g. record { up = g.0; over = g.1.0; level = g.1.1 }) (both _ _ o p q)

  second-Leaves :
      (left : Option ℕ) (l : BrightMode) (s : CalloutSys E)
      → left ≡ none
      → s.callout.current_level ≡ l
      → Returns (λ _ d. Leaves l d) (sleep_on k i hz pass left (record { sys = s; left = left }))
  unfolding sleep_on
  second-Leaves none l s e f = (refl, f)
  second-Leaves (some wait) l s e f = cc

  second-Ended :
      (l : BrightMode) (c : Clocked E)
      → Ended k m shown dev l c
      → Returns (λ _ d. Ended k m shown dev l d) (step k i hz pass second c)
  unfolding step
  second-Ended l c e =
      ended l _ (second-IsUp k i st works quiet dev c e.up)
        (second-Leaves c.left l (passed k i st c.sys) e.over e.level)

  input-Leaves :
      (keycode : Option ℕ) (l : BrightMode) (c : Clocked E)
      → Ended k m shown dev l c
      → Returns (λ _ d. Leaves high d) (step k i hz pass (input keycode) c)
  unfolding step
  input-Leaves keycode l c e =
      let (error, t, set, run) = on_input_set k st keycode e.up.limit c.sys e.up.wired in
      rw run (e.over, refl)

  write-Leaves :
      (v : Variable) (p : ScreenPtr) (req : Request) (l : BrightMode) (c : Clocked E)
      → Ended k m shown dev l c
      → Returns (λ _ d. Leaves l d) (change k i hz pass (write v p req) c)
  unfolding change
  write-Leaves v p req l c e =
      rw
        (screen_config-store v p req c.sys.display.screen
          e.up.wired.can_run.display_ready.screen_ready)
        (e.over, e.level)

  changes-Ended :
      (cs : List Change) (l : BrightMode) (c : Clocked E)
      → Ended k m shown dev l c
      → Returns (λ _ d. Ended k m shown dev (relit cs l) d) (changes k i hz pass cs c)
  unfolding changes
  changes-Ended [] l c e = e
  changes-Ended (happens second ∷ cs) l c e =
      Returns-then (λ _ d. Ended k m shown dev l d) _ _ _ (λ _ d. changes-Ended cs l d)
        (second-Ended l c e)
  changes-Ended (happens (input keycode) ∷ cs) l c e =
      Returns-then (λ _ d. Ended k m shown dev high d) _ _ _ (λ _ d. changes-Ended cs high d)
        (ended high _ (input-IsUp k i st works quiet dev keycode c e.up)
          (input-Leaves keycode l c e))
  changes-Ended (write v p req ∷ cs) l c e =
      Returns-then (λ _ d. Ended k m shown dev l d) _ _ _ (λ _ d. changes-Ended cs l d)
        (ended l _ (write-IsUp k i st works quiet dev v p req c e.up) (write-Leaves v p req l c e))

  relit-seconds : (n : ℕ) (cs : List Change) (l : BrightMode) → relit (seconds n cs) l ≡ relit cs l
  relit-seconds zero cs l = refl
  relit-seconds (suc n) cs l = relit-seconds n cs l

  pub over_lem :
      (n : ℕ) (cs : List Change) (l : BrightMode) (c : Clocked E)
      → Ended k m shown dev l c
      → Returns (λ _ d. Ended k m shown dev (relit cs l) d) (changes k i hz pass (seconds n cs) c)
  over_lem n cs l c e =
      subst (λ x. Returns (λ _ d. Ended k m shown dev x d) (changes k i hz pass (seconds n cs) c))
        (relit-seconds n cs l) (changes-Ended (seconds n cs) l c e)
