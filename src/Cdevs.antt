-- ===== src/Cdevs.antt =====
-- kmod/framework_utils.c: the two searches of the device list, `framework_util_lookupcdev_drv1` and
-- `framework_util_matchcdev_drv1`, as loops over that list.
use framework_kmod.Base.{
  Action, Bool, Bool-cases, List, Option, Outcome, [], and_then, arith, begins, false, fault, first,
  if◌then◌else◌, inl, inr, none, ok, pure, refl, same, some, stop, suc, true, ℕ, ◌==◌, ◌>>=◌, ◌∙◌,
  ◌∷◌, ◌≡◌,
}
use Prim.Native.Nat.{bit_or, bit_or-bitwise}
use framework_kmod.Kernel.{Cdev}

unfoldable pub lookupcdev_drv1 : List ℕ → List Cdev → Option ℕ
lookupcdev_drv1 devname [] = none
lookupcdev_drv1 devname (cdp ∷ rest) =
    let later = lookupcdev_drv1 devname rest in
    if first devname == first cdp.si_name
    then (if same devname cdp.si_name then cdp.si_drv1 else later)
    else later

-- The first device of that very name, without the test of the first byte.
abbrev pub drv1_of : List ℕ → List Cdev → Option ℕ
drv1_of devname [] = none
drv1_of devname (cdp ∷ rest) =
    if same devname cdp.si_name then cdp.si_drv1 else drv1_of devname rest

first_of_same : (s t : List ℕ) → same s t ≡ true → (first s == first t) ≡ true
unfolding same
first_of_same [] [] h = refl
first_of_same [] (d ∷ t) h = ground arith
first_of_same (c ∷ s) [] h = ground arith
first_of_same (c ∷ s) (d ∷ t) h = ground arith

-- The test of the first byte only saves time: for every name and every device list the search
-- returns the `si_drv1` of the first device of that very name, and NULL if there is none.
pub lookupcdev_drv1-drv1_of :
    (devname : List ℕ) (l : List Cdev) → lookupcdev_drv1 devname l ≡ drv1_of devname l
unfolding lookupcdev_drv1
lookupcdev_drv1-drv1_of devname [] = refl
lookupcdev_drv1-drv1_of devname (cdp ∷ rest) =
    ground (arith, first_of_same devname cdp.si_name, lookupcdev_drv1-drv1_of devname rest)

-- The devices whose name begins with `devname`.
abbrev pub named : List ℕ → List Cdev → List Cdev
named devname [] = []
named devname (cdp ∷ rest) =
    let others = named devname rest in if begins devname cdp.si_name then cdp ∷ others else others

-- `framework_cdev_cbmatch`, with its context among the state; the result is an `int` that is 0 or
-- an error number.
abbrev pub Match : Type 0 → Type 0
Match S = List ℕ → Option ℕ → Action S ℕ

zero-bit_or : (r : ℕ) → bit_or 0 r ≡ r
zero-bit_or r = bit_or-bitwise 0 r

first_of_begins : (c : ℕ) (cs t : List ℕ) → begins (c ∷ cs) t ≡ true → (c == first t) ≡ true
unfolding begins
first_of_begins c cs [] h = ground arith
first_of_begins c cs (d ∷ t) h = ground arith

module _ {S : Type 0} where
  abbrev called : Option (Match S) → Cdev → ℕ → Action S ℕ
  called none cdp result = pure result
  called (some cbfunc) cdp result = do r ← cbfunc cdp.si_name cdp.si_drv1; pure (bit_or result r)

  -- The loop, with the `result` so far.
  match_from : List ℕ → Option (Match S) → ℕ → List Cdev → Action S ℕ
  match_from devname cbfunc result [] = pure result
  match_from devname cbfunc result (cdp ∷ rest) =
      let later = match_from devname cbfunc result rest in
      let visited = called cbfunc cdp result >>= λ r.
      if r == 0 then match_from devname cbfunc r rest else pure r in
      if first devname == first cdp.si_name
      then (if begins devname cdp.si_name then visited else later)
      else later

  unfoldable pub matchcdev_drv1 : List ℕ → Option (Match S) → List Cdev → Action S ℕ
  unfolding match_from
  matchcdev_drv1 devname cbfunc l = match_from devname cbfunc 0 l

  -- The callback on every device of a list, in order, up to the first error.
  abbrev pub each : Match S → List Cdev → Action S ℕ
  each cbfunc [] = pure 0
  each cbfunc (cdp ∷ rest) = do
    r ← cbfunc cdp.si_name cdp.si_drv1
    if r == 0 then each cbfunc rest else pure r

  if_same : (b : Bool) (m : Action S ℕ) (s : S) → (if b then m else m) s ≡ m s
  if_same true m s = refl
  if_same false m s = refl

  -- One round at a device that matches.
  round_lem :
      (go : ℕ → Action S ℕ) (stop : Action S ℕ) (o : Outcome S ℕ)
      → ((s : S) → go 0 s ≡ stop s)
      → and_then (and_then o (λ r. pure (bit_or 0 r))) (λ r. if r == 0 then go r else pure r)
        ≡ and_then o (λ r. if r == 0 then stop else pure r)
  round_lem go stop (ok ℕ.zero s) h = rw (zero-bit_or 0) (h s)
  round_lem go stop (ok (suc r) s) h = rw (zero-bit_or (suc r)) (ground arith)
  round_lem go stop (fault f) h = refl

  -- For every name that is not empty: the callback runs on just the devices whose name begins with
  -- it, in the order of the list, up to the first error, and that error, or 0, is returned.
  pub matchcdev_drv1-each :
      (c : ℕ) (cs : List ℕ) (cbfunc : Match S) (l : List Cdev) (s : S)
      → matchcdev_drv1 (c ∷ cs) (some cbfunc) l s ≡ each cbfunc (named (c ∷ cs) l) s
  unfolding matchcdev_drv1
  matchcdev_drv1-each c cs cbfunc [] s = refl
  matchcdev_drv1-each c cs cbfunc (cdp ∷ rest) s = elim (Bool-cases (begins (c ∷ cs) cdp.si_name)) [
    | inl hit ↦
        rw (hit, first_of_begins c cs cdp.si_name hit)
          (round_lem (λ r. match_from (c ∷ cs) (some cbfunc) r rest)
            (each cbfunc (named (c ∷ cs) rest)) (cbfunc cdp.si_name cdp.si_drv1 s)
            (matchcdev_drv1-each c cs cbfunc rest))
    | inr miss ↦ rw miss (
        if_same (c == first cdp.si_name) (match_from (c ∷ cs) (some cbfunc) 0 rest) s
        ∙ matchcdev_drv1-each c cs cbfunc rest s)
  ]
