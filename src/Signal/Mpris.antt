-- ===== src/Signal/Mpris.antt =====
-- What the parser reads from the signal `PropertiesChanged` of a media player.
use framework_kmod.Base.{
  Bool, List, &&_both, [], arith, false, pos, refl, suc, take, true, u8, zero, ℕ, ◌&&◌, ◌+◌, ◌<◌,
  ◌∷◌, ◌≡◌, ◌≤◌,
}
use framework_kmod.Signal.{
  Argument, Arguments, dict_entry, array, variant, string, other, end, argument, Message, Signal,
  zeroed, makeupper, namelen, parse_arg, parse_args, parse_signal,
}

-- At most this many containers in one another, for the type of arguments that the parser walks: D-Bus
-- allows 64.
unfoldable mutual
  fits : ℕ → Argument → Bool
  fits n (string s) = true
  fits n other = true
  fits zero (dict_entry sub) = false
  fits zero (array sub) = false
  fits zero (variant sub) = false
  fits (suc n) (dict_entry sub) = all_fit n sub
  fits (suc n) (array sub) = all_fit n sub
  fits (suc n) (variant sub) = all_fit n sub

  all_fit : ℕ → Arguments → Bool
  all_fit n end = true
  all_fit n (argument a rest) = fits n a && all_fit n rest

abbrev pub strings : List (List ℕ) → Arguments
strings [] = end
strings (s ∷ ss) = argument (string s) (strings ss)

-- A changed property with a value of any type: a string, a number or a structure (`other`), a list, a
-- dictionary, or a variant.
abbrev pub entry : List ℕ × Argument → Argument
entry (key, v) = dict_entry (argument (string key) (argument (variant (argument v end)) end))

-- As deep as D-Bus allows.
unfoldable pub allowed : List (List ℕ × Argument) → Bool
unfolding fits
allowed [] = true
allowed ((key, v) ∷ es) = fits 64 v && allowed es

abbrev pub entries : List (List ℕ × Argument) → Arguments
entries [] = end
entries (e ∷ es) = argument (entry e) (entries es)

-- The arguments of the signal: the interface, its changed properties, the invalidated ones.
abbrev pub changed : List ℕ → List (List ℕ × Argument) → List (List ℕ) → Arguments
changed iface props gone =
    argument (string iface) (argument (array (entries props)) (argument (array (strings gone)) end))

-- The upper case of a string value, cut; `s` for a value of another type.
abbrev pub text_of : List ℕ → Argument → List ℕ
text_of s (string t) = makeupper (take namelen t)
text_of s (dict_entry sub) = s
text_of s (array sub) = s
text_of s (variant sub) = s
text_of s other = s

-- The upper case of the last changed property with a string value, whatever its name; `s` if none.
abbrev pub last_text : List ℕ → List (List ℕ × Argument) → List ℕ
last_text s [] = s
last_text s ((key, v) ∷ es) = last_text (text_of s v) es

abbrev pub last_key : List ℕ → List (List ℕ × Argument) → List ℕ
last_key s [] = s
last_key s ((key, v) ∷ es) = last_key (take namelen key) es

abbrev read_entries : List (List ℕ × Argument) → Signal → Signal
read_entries es p = record p {
  param2 = last_key p.param2 es;
  playback_status = last_text p.playback_status es;
}

-- What stands this deep is not stored.
mutual
  unfolding parse_arg fits

  deep_arg :
      (n : ℕ) (a : Argument) (level counter : ℕ) (p : Signal)
      → fits n a ≡ true
      → 4 ≤ level
      → level + n < 256
      → parse_arg a level counter p ≡ (0, p)
  deep_arg n (string s) level counter p h l w = ground arith
  deep_arg n other level counter p h l w = refl
  deep_arg zero (dict_entry sub) level counter p h l w = cc
  deep_arg zero (array sub) level counter p h l w = cc
  deep_arg zero (variant sub) level counter p h l w = cc
  deep_arg (suc n) (dict_entry sub) level counter p h l w =
      deep_args n sub (u8 (level + 1)) 0 p h (omega arith) (omega arith)
  deep_arg (suc n) (array sub) level counter p h l w =
      deep_args n sub (u8 (level + 1)) 0 p h (omega arith) (omega arith)
  deep_arg (suc n) (variant sub) level counter p h l w =
      deep_args n sub (u8 (level + 1)) 0 p h (omega arith) (omega arith)

  deep_args :
      (n : ℕ) (sub : Arguments) (level counter : ℕ) (p : Signal)
      → all_fit n sub ≡ true
      → 4 ≤ level
      → level + n < 256
      → parse_args sub level counter 0 p ≡ (0, p)
  deep_args n end level counter p h l w = refl
  deep_args n (argument a rest) level counter p h l w =
      let f = &&_both (fits n a) (all_fit n rest) h in
      rw (deep_arg n a level counter p f.0 l w)
        (deep_args n rest level (u8 (counter + 1)) p f.1 l w)

strings_lem :
    (ss : List (List ℕ)) (counter : ℕ) (p : Signal) → parse_args (strings ss) 1 counter 0 p ≡ (0, p)
unfolding parse_args
strings_lem [] counter p = refl
strings_lem (s ∷ ss) counter p = ground (arith, strings_lem ss (u8 (counter + 1)) p)

value_lem :
    (v : Argument) (p : Signal)
    → fits 64 v ≡ true
    → parse_arg v 3 0 p ≡ (0, record p { playback_status = text_of p.playback_status v })
unfolding parse_arg fits
value_lem (string t) p h = refl
value_lem other p h = refl
value_lem (dict_entry sub) p h = deep_args 63 sub 4 0 p h (omega arith) (omega arith)
value_lem (array sub) p h = deep_args 63 sub 4 0 p h (omega arith) (omega arith)
value_lem (variant sub) p h = deep_args 63 sub 4 0 p h (omega arith) (omega arith)

entries_lem :
    (es : List (List ℕ × Argument)) (counter : ℕ) (p : Signal)
    → allowed es ≡ true
    → parse_args (entries es) 1 counter 0 p ≡ (0, read_entries es p)
unfolding parse_args allowed
entries_lem [] counter p h = refl
entries_lem ((key, v) ∷ es) counter p h =
    let f = &&_both (fits 64 v) (allowed es) h in
    rw (value_lem v (record p { param2 = take namelen key }) f.0)
      (entries_lem es (u8 (counter + 1)) (read_entries ((key, v) ∷ []) p) f.1)

-- What is read into a structure that was set to zero.
abbrev pub read : Message → List ℕ → List (List ℕ × Argument) → Signal
read msg iface props = record {
  interface = msg.interface;
  path = msg.path;
  sender = msg.sender;
  signature = msg.signature;
  name = take namelen iface;
  param2 = last_key [] props;
  playback_status = last_text [] props;
}

-- Into a zeroed structure, the parser reads the arguments of `PropertiesChanged` (an interface, the
-- changed properties with values of any type, each of at most 64 containers in one another, and the
-- names of the invalidated ones) with the result 0: `name` is the interface, and `playback_status`
-- the upper case of the last changed property that has a string value, each cut to 254 bytes,
-- whatever the names of the properties are.
pub parse_signal-read :
    (msg : Message) (iface : List ℕ) (props : List (List ℕ × Argument)) (gone : List (List ℕ))
    → allowed props ≡ true
    → parse_signal (record msg { args = changed iface props gone }) zeroed
      ≡ (pos 0, read msg iface props)
unfolding parse_signal
parse_signal-read msg iface props gone h =
    let q = record (read msg iface []) { param2 = []; playback_status = [] } in
    rw (entries_lem props 0 q h, strings_lem gone 0 (read_entries props q)) refl
