-- ===== src/Callout/Stopping/Told.antt =====
-- How far thread and destroyer are from the end, once the thread is told to stop.
use framework_kmod.Base.{
  &&_both, eqb, eqb_eq, leb, ◌≤◌, after_not, Bool, Option, arith, false, ltb, none, not, refl, some,
  subst, true, ℕ, ◌&&◌, ◌+◌, ◌<◌, ◌||◌, ◌≡◌,
}
use framework_kmod.Callout.Stopping.{
  Runner, born, wired, entering, testing, asking, judging, reading, comparing, setting, scheduling,
  sleeping, woken, leaving, gone, Destroyer, idle, unwired, locking, telling, asleep, roused, past,
  released, done, Shared, Actor, listener, step,
}
use framework_kmod.Callout.Stopping.Shape.{told, Shaped, everywhere, everywhere_sound}

abbrev pub is_done : Destroyer → Bool
is_done (done slept) = true
is_done d = false

-- The destroyer has nothing left to do but to destroy the mutexes and to free the memory.
abbrev pub is_over : Destroyer → Bool
is_over (released slept) = true
is_over (done slept) = true
is_over d = false

-- The step, unless a listener takes it.
abbrev pub not_listener : Actor → Option Shared → Option Shared
not_listener listener o = none
not_listener a o = o

abbrev runner_rank : Runner → ℕ
runner_rank born = 15
runner_rank wired = 14
runner_rank entering = 13
runner_rank asking = 12
runner_rank judging = 11
runner_rank reading = 10
runner_rank comparing = 9
runner_rank setting = 8
runner_rank scheduling = 7
runner_rank sleeping = 6
runner_rank woken = 5
runner_rank testing = 4
runner_rank leaving = 3
runner_rank gone = 1

abbrev destroyer_rank : Destroyer → ℕ
destroyer_rank idle = 10
destroyer_rank unwired = 9
destroyer_rank locking = 8
destroyer_rank telling = 7
destroyer_rank asleep = 6
destroyer_rank roused = 5
destroyer_rank (past slept) = 4
destroyer_rank (released slept) = 3
destroyer_rank (done slept) = 2

pub rank : Shared → ℕ
rank s = runner_rank s.runner + destroyer_rank s.destroyer

abbrev advances : Shared → Option Shared → Bool
advances s none = true
advances s (some t) = told t.destroyer && ltb (rank t) (rank s)

-- A listener changes nothing of this.
abbrev stands : Actor → Shared → Option Shared → Bool
stands listener v (some u) =
    eqb (told u.destroyer) (told v.destroyer)
    && eqb (is_over u.destroyer) (is_over v.destroyer)
    && leb (rank u) (rank v)
stands a v o = true

abbrev lowers : Actor → Shared → Bool
lowers a s =
    stands a s (step a s) && (not (told s.destroyer) || advances s (not_listener a (step a s)))

all_lower : everywhere lowers ≡ true
unfolding step rank
all_lower = refl

lowers_lem :
    (a : Actor) (s : Shared)
    → Shaped s
    → (stands a s (step a s) ≡ true)
      × (not (told s.destroyer) || advances s (not_listener a (step a s)) ≡ true)
lowers_lem a s w = &&_both _ _ (everywhere_sound lowers s a all_lower w)

stands_lem :
    (v u : Shared)
    → stands listener v (some u) ≡ true
    → (told u.destroyer ≡ told v.destroyer)
      × (is_over u.destroyer ≡ is_over v.destroyer)
      × (rank u ≤ rank v)
stands_lem v u h = ground (
  arith,
  eqb_eq (told u.destroyer) (told v.destroyer),
  eqb_eq (is_over u.destroyer) (is_over v.destroyer),
)

-- What a listener's step leaves as it is.
pub listens_lem :
    (v u : Shared)
    → Shaped v
    → step listener v ≡ some u
    → (told u.destroyer ≡ told v.destroyer)
      × (is_over u.destroyer ≡ is_over v.destroyer)
      × (rank u ≤ rank v)
listens_lem v u w e =
    stands_lem v u (subst (λ o. stands listener v o ≡ true) e (lowers_lem listener v w).0)

advances_lem :
    (s t : Shared) → advances s (some t) ≡ true → (told t.destroyer ≡ true) × (rank t < rank s)
advances_lem s t h = ground arith

-- Every other step comes nearer to the end.
pub advance_lem :
    (a : Actor) (s t : Shared)
    → Shaped s
    → told s.destroyer ≡ true
    → not_listener a (step a s) ≡ some t
    → (told t.destroyer ≡ true) × (rank t < rank s)
advance_lem a s t w u e =
    advances_lem s t
      (subst (λ o. advances s o ≡ true) e (after_not (told s.destroyer) _ u (lowers_lem a s w).1))
