-- ===== src/Evthread/Shutdown/Code/Running.antt =====
-- kmod/framework_evdev_thread.c: the session between two critical sections, and what the interleaving model keeps of it.
use framework_kmod.Base.{
  Bool, Fault, Mutex, Option, Outcome, deadlock, false, fault, free, held, if◌then◌else◌, live,
  none, null_pointer, ok, refl, some, true, ℕ, ◌<◌, ◌≡◌,
}
use framework_kmod.Evthread.{CbFunc, Client, Session, flag_shutdown, flag_thread, has_flag}
use framework_kmod.Evthread.Shutdown.{
  Destroyer, Listener, Shared, asleep, crashed, done, gone, released, sleeping,
}
use framework_kmod.Evthread.Shutdown.Code.{Places}

-- A session whose client is allocated, between two critical sections of the session mutex. `locked`
-- is the mutex of the client, which is initialised.
pub record Running (E : Type 0) : Type 0 where
  pub client : Client
  pub locked : Bool
  pub active : Bool
  pub cbfunc : Option CbFunc
  pub flags : ℕ
  pub env : E

abbrev pub mutex : Bool → Mutex
mutex true = held
mutex false = free

abbrev pub is_set : Option CbFunc → Bool
is_set none = false
is_set (some cbfunc) = true

-- How the code of a place stops.
abbrev pub stopped : Listener → Fault
stopped crashed = null_pointer
stopped l = deadlock

module _ {E : Type 0} where
  abbrev pub running : Running E → Session E
  running x = record {
    ethread = record {
      session = free;
      active = x.active;
      evdev_client = live (record (x.client) { ec_buffer_mtx = mutex x.locked });
      cbfunc = x.cbfunc;
      flags = x.flags;
    };
    env = x.env;
  }

  -- What the interleaving model keeps of it.
  abbrev pub view : Places → Running E → Shared
  view p x = record {
    active = x.active;
    cbfunc = is_set x.cbfunc;
    thread = has_flag flag_thread x.flags;
    shutdown = has_flag flag_shutdown x.flags;
    locked = x.locked;
    listener = p.listener;
    destroyer = p.destroyer;
  }

  pub record Reaches (t : Shared) (o : Outcome (Session E) Places) : Type 0 where
    pub places : Places
    pub state : Running E
    pub same : o ≡ ok places (running state)
    pub byte : state.flags < 256
    pub seen : view places state ≡ t

  -- The code comes where the step leads; where there is no step, it has this fault. To lock the
  -- mutex of the client while another thread holds it is a `deadlock`: the thread waits.
  abbrev pub Follows : Fault → Option Shared → Outcome (Session E) Places → Type 0
  Follows f none o = o ≡ fault f
  Follows f (some t) o = Reaches t o

abbrev pub waits : Listener → Bool
waits sleeping = true
waits gone = true
waits l = false

-- At `released` the rest of the destruction follows, `close`.
abbrev pub pauses : Destroyer → Bool
pauses asleep = true
pauses (released slept) = true
pauses (done slept) = true
pauses d = false

abbrev pub stands : Listener → Destroyer → Option ℕ → Places
stands l d k = record { listener = l; destroyer = d; keycode = k }

module _ {E : Type 0} where
  abbrev pub state : Client → Bool → Bool → Option CbFunc → ℕ → E → Running E
  state c m a f n e = record { client = c; locked = m; active = a; cbfunc = f; flags = n; env = e }

  pub reaches : (p : Places) (x : Running E) → x.flags < 256 → Reaches (view p x) (ok p (running x))
  reaches p x h = record { places = p; state = x; same = refl; byte = h; seen = refl }

  pub Reaches-branch :
      (f : Fault) (b : Bool) (t u : Shared) (o q : Outcome (Session E) Places)
      → Reaches t o
      → Reaches u q
      → Follows f (if b then some t else some u) (elim b [ true ↦ o | false ↦ q ])
  Reaches-branch f true t u o q g h = g
  Reaches-branch f false t u o q g h = h
