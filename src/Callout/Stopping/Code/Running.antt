-- ===== src/Callout/Stopping/Code/Running.antt =====
-- kmod/framework_callout.c: the callout system while thread, destroyer and listener run, and what the
-- interleaving model keeps of it.
use framework_kmod.Base.{
  not, ℕ, Action, Bool, Mutex, Option, Outcome, Slot, deadlock, false, fault, free, held, none, ok,
  pure, refl, some, true, ◌≡◌,
}
use framework_kmod.Kernel.{Kernel, InputApi}
use framework_kmod.Screen.{ConfigPtr, power_config}
use framework_kmod.Display.{Display, IsReady}
use framework_kmod.Keyhandler.{KeyHandler, init}
use framework_kmod.Evdev.{IntrFunc}
use framework_kmod.Callout.{CalloutSys, put_display}
use framework_kmod.Callout.Wanted.{CanRun, config_now, timeout}
use framework_kmod.Callout.Stopping.{
  Destroyer, Input, Runner, Shared, asking, asleep, away, done, gone, released, sleeping,
}
use framework_kmod.Callout.Stopping.Code.{
  Places, Who, at_destroyer, at_input, at_runner, clock, closer, reporter, thread,
}

abbrev pub mutex : Bool → Mutex
mutex true = held
mutex false = free

abbrev pub is_held : Mutex → Bool
is_held held = true
is_held m = false

abbrev pub is_set : Option IntrFunc → Bool
is_set none = false
is_set (some f) = true

-- The parts of the system that no step changes, but for the display, which stays ready.
pub record Parts {E : Type 0} (rwlock : Mutex) (config : Option ConfigPtr)
    (handler : Slot KeyHandler) (evdev_lock : Mutex) (evdev_active : Bool) (display : Display E)
    : Type 0 where
  pub rw_free : rwlock ≡ free
  pub has_config : config ≡ some power_config
  pub handled : handler ≡ init (some power_config)
  pub evdev_free : evdev_lock ≡ free
  pub evdev_on : evdev_active ≡ true
  pub ready : IsReady display

module _ {E : Type 0} where
  abbrev pub Sound : CalloutSys E → Type 0
  Sound s =
      Parts s.callout.rwlock s.callout.power_config s.callout.keyhandler s.evdev.lock s.evdev.active
        s.display

  pub Sound-CanRun : (s : CalloutSys E) → Sound s → CanRun s
  Sound-CanRun s w = record {
    rw_free = w.rw_free;
    has_config = w.has_config;
    display_ready = w.ready;
  }

  -- The same system with another display that is ready.
  pub display-Sound :
      (d : Display E) (s : CalloutSys E) → Sound s → IsReady d → Sound (put_display d s)
  display-Sound d s w r = record {
    rw_free = w.rw_free;
    has_config = w.has_config;
    handled = w.handled;
    evdev_free = w.evdev_free;
    evdev_on = w.evdev_on;
    ready = r;
  }

  -- What the interleaving model keeps of it.
  abbrev pub view : Places → CalloutSys E → Shared
  view p s = record {
    active = s.callout.active;
    cbfunc = is_set s.evdev.cbfunc;
    drop = s.drop;
    locked = is_held s.callout.lock;
    runner = p.runner;
    destroyer = p.destroyer;
    input = p.input;
  }

  pub record Reaches (n : ℕ) (u : Shared) (o : Outcome (CalloutSys E) Places) : Type 0 where
    pub places : Places
    pub state : CalloutSys E
    pub same : o ≡ ok places state
    pub seen : view places state ≡ u
    pub timed : places.current_timeout ≡ n
    pub sound : Sound state
    pub initialised : state.callout.lock ≡ mutex (is_held state.callout.lock)

  -- The code comes where the step leads, with this timeout held by the thread; where there is no step, it locks a mutex that is held: it
  -- waits.
  abbrev pub Follows : ℕ → Option Shared → Outcome (CalloutSys E) Places → Type 0
  Follows n none o = o ≡ fault deadlock
  Follows n (some u) o = Reaches n u o

  pub reaches :
      (p : Places) (s : CalloutSys E)
      → Sound s
      → s.callout.lock ≡ mutex (is_held s.callout.lock)
      → Reaches p.current_timeout (view p s) (ok p s)
  reaches p s w l = record {
    places = p;
    state = s;
    same = refl;
    seen = refl;
    timed = refl;
    sound = w;
    initialised = l;
  }

abbrev pub waits : Runner → Bool
waits sleeping = true
waits gone = true
waits r = false

abbrev pub is_asleep : Runner → Bool
is_asleep sleeping = true
is_asleep r = false

abbrev pub pauses : Destroyer → Bool
pauses asleep = true
pauses (released slept) = true
pauses (done slept) = true
pauses d = false

-- A listener does nothing here while no interrupt function is set.
abbrev pub is_idle : Input → Bool → Bool
is_idle away false = true
is_idle j set = false

-- Who has nothing to run.
abbrev pub rests : Who → Shared → Bool
rests thread v = waits v.runner
rests closer v = pauses v.destroyer
rests clock v = not (is_asleep v.runner)
rests reporter v = is_idle v.input v.cbfunc

module _ {E : Type 0} (k : Kernel E) (i : InputApi E) where
  -- What each runs next.
  unfoldable pub code : Who → Places → Action (CalloutSys E) Places
  unfolding at_runner at_destroyer at_input
  code thread p = at_runner k i pure p.runner p
  code closer p = at_destroyer k i pure p.destroyer p
  code clock p = at_runner k i pure sleeping p
  code reporter p = at_input k i pure p.input p

  -- The timeout that the thread finds.
  abbrev pub found : Runner → Places → CalloutSys E → ℕ
  found asking p s = timeout (config_now k s)
  found r p s = p.current_timeout

  abbrev pub timeout_after : Who → Places → CalloutSys E → ℕ
  timeout_after thread p s = found p.runner p s
  timeout_after a p s = p.current_timeout
