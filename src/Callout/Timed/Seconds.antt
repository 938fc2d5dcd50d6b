-- ===== src/Callout/Timed/Seconds.antt =====
-- The sleep of the callout thread and the level, as numbers of seconds.
use framework_kmod.Base.{
  Option, arith, if◌then◌else◌, leb, ltb, refl, some, suc, ℕ, ◌*◌, ◌+◌, ◌-◌, ◌<◌, ◌≡◌, ◌≤◌, ◌^◌,
  false,
}
use native.Mathlib.Nat.{suc-mul}
use framework_kmod.Callout.{BrightMode, dim, high, elapsed, next_seconds}

-- What the level should be: DIM exactly if no input has come for `limit` seconds.
abbrev pub proper : ℕ → ℕ → ℕ → BrightMode
proper limit now last = if leb limit (now - last) then dim else high

-- The thread has `left` ticks of its sleep before it; `secs` is that in seconds. The level is as it
-- should be, and if it is HIGH the sleep ends before it should change.
pub record Slept (hz limit now last : ℕ) (level : BrightMode) (left : Option ℕ) : Type 0 where
  pub wait : ℕ
  pub secs : ℕ
  pub asleep : left ≡ some wait
  pub above : secs * hz ≤ wait
  pub below : wait < secs * hz + hz
  pub some_time : 0 < secs
  pub within : secs ≤ limit
  pub past : last ≤ now
  pub level_proper : level ≡ proper limit now last
  pub due : now - last < limit → now + secs ≤ last + limit

-- Before a round: the level may be late by that round, and is not early.
pub record Ready (limit now last : ℕ) (level : BrightMode) : Type 0 where
  pub past : last ≤ now
  pub is_word : limit < 2 ^ 32
  pub dimmed : level ≡ dim → limit ≤ now - last
  pub lit : level ≡ high → now - last < 2 ^ 32

-- The level that a round sets.
abbrev pub set_by_round : ℕ → ℕ → ℕ → BrightMode → BrightMode
set_by_round limit now last level = if leb limit (elapsed now last) then dim else level

round_proper :
    (limit now last : ℕ) (level : BrightMode)
    → Ready limit now last level
    → set_by_round limit now last level ≡ proper limit now last
round_proper limit now last dim r = ground arith
round_proper limit now last high r = ground arith

-- A round puts the thread to sleep as it should.
pub round-Slept :
    (hz limit now last wait : ℕ) (level : BrightMode)
    → 0 < limit
    → Ready limit now last level
    → let secs = next_seconds (elapsed now last) limit in
      secs * hz ≤ wait
      → wait < secs * hz + hz
      → Slept hz limit now last (set_by_round limit now last level) (some wait)
round-Slept hz limit now last wait level h r a b = record {
  wait = wait;
  secs = next_seconds (elapsed now last) limit;
  asleep = refl;
  above = a;
  below = b;
  some_time = ground arith;
  within = ground arith;
  past = r.past;
  level_proper = round_proper limit now last level r;
  due = λ d. ground arith;
}

-- A second less of the sleep.
shorter :
    (secs hz wait : ℕ)
    → hz + hz ≤ wait
    → secs * hz ≤ wait
    → wait < secs * hz + hz
    → 0 < secs
    → (1 < secs) × ((secs - 1) * hz ≤ wait - hz) × (wait - hz < (secs - 1) * hz + hz)
shorter ℕ.zero hz wait m a b h = absurd (omega arith)
shorter (suc ℕ.zero) hz wait m a b h = absurd (omega arith)
shorter (suc (suc n)) hz wait m a b h =
    let e : suc (suc n) - 1 ≡ suc n = omega arith in
    rw e (omega arith, omega (arith, suc-mul (suc n) hz), omega (arith, suc-mul (suc n) hz))

module _ {hz limit now last : ℕ} {level : BrightMode} {left : Option ℕ}
    (s : Slept hz limit now last level left) where
  -- A second is over, and the sleep with it.
  pub second-Ready : limit < 2 ^ 32 → Ready limit (now + 1) last level
  second-Ready w = record {
    past = omega (arith, s.past);
    is_word = w;
    dimmed = λ e. ground (arith, s.level_proper);
    lit = λ e. ground (arith, s.level_proper, s.past);
  }

  -- A second is over, and the sleep is not.
  pub second-Slept :
      ltb s.wait (hz + hz) ≡ false → Slept hz limit (now + 1) last level (some (s.wait - hz))
  second-Slept h =
      let (more, above, below) =
        shorter s.secs hz s.wait (ground arith) s.above s.below s.some_time in
      record {
        wait = s.wait - hz;
        secs = s.secs - 1;
        asleep = refl;
        above = above;
        below = below;
        some_time = omega arith;
        within = omega (arith, s.within);
        past = omega (arith, s.past);
        level_proper = ground (arith, s.level_proper, s.due, s.some_time, s.past, s.within);
        due = λ d. omega (arith, s.due, s.past, s.some_time);
      }

  -- Input comes.
  pub input-Slept : Slept hz limit now now high left
  input-Slept = record {
    wait = s.wait;
    secs = s.secs;
    asleep = s.asleep;
    above = s.above;
    below = s.below;
    some_time = s.some_time;
    within = s.within;
    past = omega arith;
    level_proper = ground arith;
    due = λ h. omega arith;
  }
