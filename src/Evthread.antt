-- ===== src/Evthread.antt =====
-- kmod/framework_evdev_thread.c: the thread that listens to one input device, and its session. The
-- functions are `framework_evthread_…`. `EVDEV_CLIENT_LOCKQ` is the lock of `ec_buffer_mtx`. The only
-- callback that the driver sets is `framework_evdev_oninput`, with the evdev structure as its context.
pub mod Listener
pub mod Calls
pub mod Shutdown
use Prim.Native.Nat.{bit_and, bit_or}
use framework_kmod.Base.{
  Action, Bool, Mutex, Option, Outcome, Slot, at_slot, branch, false, fault, free, gets,
  if◌then◌else◌, live, modify, mtx_lock, mtx_unlock, none, not, ok, pure, some, true, u8, ℕ, ◌-◌,
  ◌==◌, ◌>>◌, ◌>>=◌,
}
use framework_kmod.Kernel.{InputApi}

-- `struct input_event`, as far as it is read; `value` as its bit pattern
pub record InputEvent : Type 0 where
  pub code : ℕ  -- uint16_t
  pub value : ℕ

-- The fields of `struct evdev_client` that the driver uses.
pub record Client : Type 0 where
  pub ec_evdev : Option ℕ
  pub ec_buffer_mtx : Mutex
  pub ec_buffer_size : ℕ
  pub ec_buffer_head : ℕ
  pub ec_buffer_tail : ℕ
  pub ec_buffer_ready : ℕ
  pub ec_clock_id : ℕ
  pub ec_blocked : Bool
  pub ec_revoked : Bool
  pub ec_buffer : ℕ → InputEvent

pub data CbFunc : Type 0 where
  evdev_oninput : CbFunc

-- `struct framework_evdev_thread_t`
pub record Ethread : Type 0 where
  pub session : Mutex
  pub active : Bool
  pub evdev_client : Slot Client
  pub cbfunc : Option CbFunc
  pub flags : ℕ  -- uint8_t

abbrev pub flag_clientreg : ℕ
flag_clientreg = 1

abbrev pub flag_kqueue : ℕ
flag_kqueue = 2

abbrev pub flag_thread : ℕ
flag_thread = 4

abbrev pub flag_shutdown : ℕ
flag_shutdown = 8

-- `*ethread`, and the kernel.
pub record Session (E : Type 0) : Type 0 where
  pub ethread : Ethread
  pub env : E

-- The same, behind a pointer to the structure.
pub record Handle (E : Type 0) : Type 0 where
  pub pointer : Slot Ethread
  pub env : E

abbrev pub set_flag : ℕ → ℕ → ℕ
set_flag flag flags = u8 (bit_or flags flag)

-- `flags &= ~flag`
abbrev pub clear_flag : ℕ → ℕ → ℕ
clear_flag flag flags = bit_and flags (255 - flag)

abbrev pub has_flag : ℕ → ℕ → Bool
has_flag flag flags = not (bit_and flags flag == 0)

module _ {E : Type 0} where
  abbrev pub put_ethread : Ethread → Session E → Session E
  put_ethread t s = record s { ethread = t }

  abbrev pub put_env : E → Session E → Session E
  put_env e s = record s { env = e }

  abbrev pub change_env : (E → E) → Action (Session E) (Unit {0})
  change_env f = modify (λ s. put_env (f s.env) s)

  abbrev pub session_lock : Action (Session E) (Unit {0})
  session_lock =
      mtx_lock (λ s. s.ethread.session) (λ m s. put_ethread (record (s.ethread) { session = m }) s)

  abbrev pub session_unlock : Action (Session E) (Unit {0})
  session_unlock =
      mtx_unlock (λ s. s.ethread.session)
        (λ m s. put_ethread (record (s.ethread) { session = m }) s)

  abbrev on_slot : {A : Type 0} → Outcome (Slot Client) A → Session E → Outcome (Session E) A
  on_slot (ok a c) s = ok a (put_ethread (record (s.ethread) { evdev_client = c }) s)
  on_slot (fault f) s = fault f

  -- The code that uses `*ethread->evdev_client`.
  abbrev pub on_client : {A : Type 0} → Action Client A → Action (Session E) A
  on_client m s = on_slot (at_slot m s.ethread.evdev_client) s

  abbrev pub thread_lock : Action (Session E) (Unit {0})
  thread_lock = on_client (mtx_lock (λ c. c.ec_buffer_mtx) (λ m c. record c { ec_buffer_mtx = m }))

  abbrev pub thread_unlock : Action (Session E) (Unit {0})
  thread_unlock =
      on_client (mtx_unlock (λ c. c.ec_buffer_mtx) (λ m c. record c { ec_buffer_mtx = m }))

  abbrev pub change_flags : (ℕ → ℕ) → Action (Session E) (Unit {0})
  change_flags f = modify (λ s. put_ethread (record (s.ethread) { flags = f s.ethread.flags }) s)

-- The key code in the event at the head of the buffer, if it is a press.
unfoldable pub readkeycode : Client → Option ℕ
readkeycode client =
    let event = client.ec_buffer client.ec_buffer_head in
    if event.value == 0 then none else if event.code == 0 then none else some event.code

-- `getflags`
unfoldable pub getflags : {E : Type 0} → Action (Session E) ℕ
getflags = do
  session_lock
  local_flags ← gets (λ s. s.ethread.flags)
  session_unlock
  pure local_flags

unfoldable pub setcb : {E : Type 0} → Option CbFunc → Action (Session E) (Unit {0})
setcb cbfunc = do
  session_lock
  modify (λ s. put_ethread (record (s.ethread) { cbfunc = cbfunc }) s)
  session_unlock

abbrev pub emptied : Client → Client
emptied c = record c {
  ec_buffer_head = 0;
  ec_buffer_tail = 0;
  ec_buffer_ready = 0;
  ec_clock_id = 0;
}

-- A client that `malloc` zeroed, after its first assignments.
abbrev pub new_client : ℕ → ℕ → Client
new_client buffer_size evdev = record {
  ec_evdev = some evdev;
  ec_buffer_mtx = free;
  ec_buffer_size = buffer_size;
  ec_buffer_head = 0;
  ec_buffer_tail = 0;
  ec_buffer_ready = 0;
  ec_clock_id = 0;
  ec_blocked = true;
  ec_revoked = false;
  ec_buffer = λ n. record { code = 0; value = 0 };
}

abbrev pub new_ethread : ℕ → ℕ → Ethread
new_ethread buffer_size evdev = record {
  session = free;
  active = true;
  evdev_client = live (new_client buffer_size evdev);
  cbfunc = none;
  flags = set_flag flag_kqueue 0;
}

-- What other threads do while this one sleeps on the channel of the client, with the mutex of the
-- client free.
abbrev pub Others : Type 0 → Type 0
Others E = Action (Session E) (Unit {0})

module _ {E : Type 0} (i : InputApi E) where
  -- The parameter `client` is the client of the session.
  pub clearkqueue : Action (Session E) (Unit {0})
  clearkqueue = do
    on_client (modify emptied)
    client ← on_client (gets (λ c. c.ec_evdev))
    notes ← gets (λ s. not (i.knlist_empty client s.env))
    branch notes (change_env (i.knlist_clear client)) (pure tt)
