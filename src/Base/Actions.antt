-- ===== src/Base/Actions.antt =====
-- Code that reads and writes a state, and that may stop for good: on a pointer that does not point,
-- or at a mutex.
use Prim.Native.Nat.{ℕ}
use framework_kmod.Base.Words.{ℤ, pos, negsuc}
use mathlib.Core.Bool.{Bool, true, false}
use mathlib.Core.Path.{◌≡◌, refl}
use mathlib.Core.Option.{Option, none, some}

pub data Fault : Type 0 where
  null_pointer : Fault  -- a read or a call through NULL
  use_after_free : Fault
  deadlock : Fault  -- a lock of a mutex that is already held
  bad_mutex : Fault  -- an operation that the state of the mutex does not allow

pub data Outcome (S A : Type 0) : Type 0 where
  ok : A → S → Outcome S A
  fault : Fault → Outcome S A

abbrev pub Action : Type 0 → Type 0 → Type 0
Action S A = S → Outcome S A

module _ {S A : Type 0} where
  abbrev pub pure : A → Action S A
  pure a s = ok a s

  abbrev pub gets : (S → A) → Action S A
  gets f s = ok (f s) s

  abbrev pub stop : Fault → Action S A
  stop f s = fault f

  -- `*p`
  abbrev pub deref : Option A → Action S A
  deref none = stop null_pointer
  deref (some a) = pure a

  -- `if` between two pieces of code. The state stands in the branches, where the tactics read it.
  abbrev pub branch : Bool → Action S A → Action S A → Action S A
  branch b m n s = elim b [ true ↦ m s | false ↦ n s ]

  -- `if (0 == e)` for an `int`.
  abbrev pub if_zero : ℤ → Action S A → Action S A → Action S A
  if_zero (pos ℕ.zero) m n s = m s
  if_zero (pos (ℕ.suc e)) m n s = n s
  if_zero (negsuc e) m n s = n s

module _ {S : Type 0} where
  abbrev pub modify : (S → S) → Action S (Unit {0})
  modify f s = ok tt (f s)

module _ {S A B : Type 0} where
  abbrev pub and_then : Outcome S A → (A → Action S B) → Outcome S B
  and_then (ok a s) k = k a s
  and_then (fault f) k = fault f

  infixl 5 ◌>>=◌ ◌>>◌
  abbrev pub ◌>>=◌ : Action S A → (A → Action S B) → Action S B
  m >>= k = λ s. and_then (m s) k

  abbrev pub ◌>>◌ : Action S A → Action S B → Action S B
  m >> n = m >>= λ _. n

module _ {S A B C : Type 0} where
  pub and_then_assoc :
      (o : Outcome S A) (f : A → Action S B) (g : B → Action S C)
      → and_then (and_then o f) g ≡ and_then o (λ a s. and_then (f a s) g)
  and_then_assoc (ok a s) f g = refl
  and_then_assoc (fault e) f g = refl

  -- The rest of the code, taken apart.
  pub and_then_split :
      (o : Outcome S A) (f : A → Action S C) (g : A → Action S B) (h : B → Action S C)
      → ((a : A) (s : S) → f a s ≡ and_then (g a s) h)
      → and_then o f ≡ and_then (and_then o g) h
  and_then_split (ok a s) f g h e = e a s
  and_then_split (fault e) f g h c = refl

module _ {S A B : Type 0} where
  -- The same code after the same code.
  pub and_then_cong :
      (o : Outcome S A) (f g : A → Action S B)
      → ((a : A) (s : S) → f a s ≡ g a s)
      → and_then o f ≡ and_then o g
  and_then_cong (ok a s) f g h = h a s
  and_then_cong (fault e) f g h = refl

module _ {S A : Type 0} where
  pub elim_cong :
      (b : Bool) (m n q r : Outcome S A)
      → m ≡ q
      → n ≡ r
      → elim b [ true ↦ m | false ↦ n ] ≡ elim b [ true ↦ q | false ↦ r ]
  elim_cong true m n q r h k = h
  elim_cong false m n q r h k = k

module _ {S A B : Type 0} where
  -- A test, with the same code after both branches.
  pub elim_then :
      (b : Bool) (m n : Outcome S A) (k : A → Action S B) (q r : Outcome S B)
      → q ≡ and_then m k
      → r ≡ and_then n k
      → elim b [ true ↦ q | false ↦ r ] ≡ and_then (elim b [ true ↦ m | false ↦ n ]) k
  elim_then true m n k q r g h = g
  elim_then false m n k q r g h = h

module _ {S : Type 0} where
  pub and_then_unit : (o : Outcome S (Unit {0})) → and_then o (λ _. pure tt) ≡ o
  and_then_unit (ok u s) = refl
  and_then_unit (fault f) = refl

-- An action on a part of the state.
module _ {W S A : Type 0} where
  abbrev pub replace : (S → W → W) → W → Outcome S A → Outcome W A
  replace put w (ok a s) = ok a (put s w)
  replace put w (fault f) = fault f

  abbrev pub zoom : (W → S) → (S → W → W) → Action S A → Action W A
  zoom get put m w = replace put w (m (get w))

-- What a pointer to allocated memory points to.
pub data Slot (S : Type 0) : Type 0 where
  null : Slot S
  live : S → Slot S
  freed : Slot S

module _ {S A : Type 0} where
  abbrev pub relive : Outcome S A → Outcome (Slot S) A
  relive (ok a s) = ok a (live s)
  relive (fault f) = fault f

  -- `if (NULL == p) return a;`, and then the code that uses `*p`.
  abbrev pub unless_null : A → Action S A → Action (Slot S) A
  unless_null a m null = ok a null
  unless_null a m (live s) = relive (m s)
  unless_null a m freed = fault use_after_free

  -- The code that uses `*p` with no test.
  abbrev pub at_slot : Action S A → Action (Slot S) A
  at_slot m null = fault null_pointer
  at_slot m (live s) = relive (m s)
  at_slot m freed = fault use_after_free

  -- The same, for code that frees the memory at its end.
  abbrev pub releasing : A → Outcome S A → Outcome (Slot S) A
  releasing a (ok b s) = ok b freed
  releasing a (fault f) = fault f

-- The code returns, and its result and the state that it leaves satisfy `P`.
abbrev pub Returns : {S A : Type 0} → (A → S → Type 0) → Outcome S A → Type 0
Returns P (ok a s) = P a s
Returns P (fault f) = ⊥

-- From what an action returns to what the code after it returns.
module _ {S A B : Type 0} where
  pub Returns-then :
      (P : A → S → Type 0) (Q : B → S → Type 0) (o : Outcome S A) (k : A → Action S B)
      → ((a : A) (s : S) → P a s → Returns Q (k a s))
      → Returns P o
      → Returns Q (and_then o k)
  Returns-then P Q (ok a s) k f p = f a s p
  Returns-then P Q (fault e) k f p = p

module _ {S A : Type 0} where
  pub Returns-map :
      (P Q : A → S → Type 0) (o : Outcome S A)
      → ((a : A) (s : S) → P a s → Q a s)
      → Returns P o
      → Returns Q o
  Returns-map P Q (ok a s) f p = f a s p
  Returns-map P Q (fault e) f p = p

module _ {W S A : Type 0} where
  pub Returns-zoom :
      (P : A → S → Type 0) (Q : A → W → Type 0) (put : S → W → W) (w : W) (o : Outcome S A)
      → ((a : A) (s : S) → P a s → Q a (put s w))
      → Returns P o
      → Returns Q (replace put w o)
  Returns-zoom P Q put w (ok a s) f p = f a s p
  Returns-zoom P Q put w (fault e) f p = p

module _ {S A : Type 0} where
  -- `branch`, one case of the test at a time.
  pub Returns-branch :
      (Q : A → S → Type 0) (b : Bool) (m n : Action S A) (s : S)
      → (b ≡ true → Returns Q (m s))
      → (b ≡ false → Returns Q (n s))
      → Returns Q (branch b m n s)
  Returns-branch Q true m n s f g = f refl
  Returns-branch Q false m n s f g = g refl

-- The same for an action on a part of the state.
module _ {W S A B : Type 0} where
  pub Returns-behind :
      (P : A → S → Type 0) (Q : B → W → Type 0) (put : S → W → W) (w : W) (o : Outcome S A)
      (k : A → Action W B)
      → ((a : A) (s : S) → P a s → Returns Q (k a (put s w)))
      → Returns P o
      → Returns Q (and_then (replace put w o) k)
  Returns-behind P Q put w (ok a s) k f p = f a s p
  Returns-behind P Q put w (fault e) k f p = p
