-- ===== src/Base/Locking.antt =====
-- A mutex without recursion, as mtx(9) describes `MTX_DEF`: what the code has done to it so far.
-- A zeroed one is not initialised.
use framework_kmod.Base.Actions.{Outcome, ok, fault, deadlock, bad_mutex, Action}

pub data Mutex : Type 0 where
  unset free held destroyed : Mutex

-- The outcome of a call on a mutex, with the state that follows if the call is allowed.
abbrev taken : {S : Type 0} → Mutex → S → Outcome S (Unit {0})
taken unset t = fault bad_mutex
taken free t = ok tt t
taken held t = fault deadlock
taken destroyed t = fault bad_mutex

abbrev given_back : {S : Type 0} → Mutex → S → Outcome S (Unit {0})
given_back unset t = fault bad_mutex
given_back free t = fault bad_mutex
given_back held t = ok tt t
given_back destroyed t = fault bad_mutex

abbrev cleared : {S : Type 0} → Mutex → S → Outcome S (Unit {0})
cleared unset t = fault bad_mutex
cleared free t = ok tt t
cleared held t = ok tt t
cleared destroyed t = fault bad_mutex

module _ {S : Type 0} (get : S → Mutex) (put : Mutex → S → S) where
  abbrev pub mtx_lock : Action S (Unit {0})
  mtx_lock s = taken (get s) (put held s)

  abbrev pub mtx_unlock : Action S (Unit {0})
  mtx_unlock s = given_back (get s) (put free s)

  abbrev pub mtx_init : Action S (Unit {0})
  mtx_init s = ok tt (put free s)

  -- mtx(9) allows the destruction of a mutex that is free, or that the caller holds.
  abbrev pub mtx_destroy : Action S (Unit {0})
  mtx_destroy s = cleared (get s) (put destroyed s)
