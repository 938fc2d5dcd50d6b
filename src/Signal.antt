-- ===== src/Signal.antt =====
-- dbus/framework_debus.c, the parser of a message: `makeupper`, `parse_signal_iter` and
-- `parse_signal`. A string is the list of its bytes, and a buffer holds the string in it. The tree of
-- the arguments is what the library's iterator walks: `dbus_message_iter_recurse` enters the
-- arguments of an argument, and an iterator without arguments has one step, of an unknown type.
pub mod Mpris
use framework_kmod.Base.{
  Bool, List, Option, [], if◌then◌else◌, leb, minus_one, none, pos, take, u8, ℕ, ℤ, ◌&&◌, ◌+◌, ◌-◌,
  ◌==◌, ◌∷◌,
}
use Prim.Native.Nat.{bit_or}

mutual
  -- By `dbus_message_iter_get_arg_type`.
  pub data Argument : Type 0 where
    dict_entry : Arguments → Argument
    array : Arguments → Argument
    variant : Arguments → Argument
    string : List ℕ → Argument
    other : Argument

  pub data Arguments : Type 0 where
    end : Arguments
    argument : Argument → Arguments → Arguments

-- What the library tells of a message; `args` is `end` when `dbus_message_iter_init` fails.
pub record Message : Type 0 where
  pub interface : Option (List ℕ)
  pub path : Option (List ℕ)
  pub sender : Option (List ℕ)
  pub signature : Option (List ℕ)
  pub is_properties_changed : Bool  -- dbus_message_is_signal
  pub args : Arguments

-- `struct dbus_message_signal_t`
pub record Signal : Type 0 where
  pub interface : Option (List ℕ)
  pub path : Option (List ℕ)
  pub sender : Option (List ℕ)
  pub signature : Option (List ℕ)
  pub name : List ℕ
  pub param2 : List ℕ
  pub playback_status : List ℕ

-- `bzero(&parsed_msg, sizeof(parsed_msg))`
abbrev pub zeroed : Signal
zeroed = record {
  interface = none;
  path = none;
  sender = none;
  signature = none;
  name = [];
  param2 = [];
  playback_status = [];
}

-- `DBUS_NAMELEN - 1`, and the same for the other two buffers.
abbrev pub namelen : ℕ
namelen = 254

-- `toupper` in the C locale, which the program never leaves.
abbrev pub toupper : ℕ → ℕ
toupper c = if leb 97 c && leb c 122 then c - 32 else c

unfoldable pub makeupper : List ℕ → List ℕ
makeupper [] = []
makeupper (c ∷ s) = toupper c ∷ makeupper s

-- The case `DBUS_TYPE_STRING`, at argument `counter` of level `sub_level`. The three tests exclude
-- each other.
store : List ℕ → ℕ → ℕ → Signal → Signal
store str sub_level counter p =
    if sub_level == 0 && counter == 0
    then record p { name = take namelen str }
    else if sub_level == 2 && counter == 0
    then record p { param2 = take namelen str }
    else if sub_level == 3 && counter == 0
    then record p { playback_status = makeupper (take namelen str) }
    else p

-- The loop from argument `counter` on, with the `result` so far.
unfoldable mutual
  unfolding store

  pub parse_arg : Argument → ℕ → ℕ → Signal → ℕ × Signal
  parse_arg (dict_entry sub) sub_level counter p = parse_args sub (u8 (sub_level + 1)) 0 0 p
  parse_arg (array sub) sub_level counter p = parse_args sub (u8 (sub_level + 1)) 0 0 p
  parse_arg (variant sub) sub_level counter p = parse_args sub (u8 (sub_level + 1)) 0 0 p
  parse_arg (string str) sub_level counter p = (0, store str sub_level counter p)
  parse_arg other sub_level counter p = (0, p)

  pub parse_args : Arguments → ℕ → ℕ → ℕ → Signal → ℕ × Signal
  parse_args end sub_level counter result p = (result, p)
  parse_args (argument arg rest) sub_level counter result p =
      let (r, q) = parse_arg arg sub_level counter p in
      parse_args rest sub_level (u8 (counter + 1)) (bit_or result r) q

unfoldable pub parse_signal_iter : Arguments → ℕ → Signal → ℕ × Signal
unfolding parse_arg
parse_signal_iter iter sub_level p = parse_args iter sub_level 0 0 p

abbrev as_int : ℕ × Signal → ℤ × Signal
as_int (r, p) = (pos r, p)

-- `parse_signal`, without the line that it prints for a message without arguments.
unfoldable pub parse_signal : Message → Signal → ℤ × Signal
unfolding parse_signal_iter
parse_signal msg p = elim msg.args [
  | end ↦ (minus_one, p)
  | argument arg rest ↦ as_int (
      parse_signal_iter (argument arg rest) 0 (record p {
        interface = msg.interface;
        signature = msg.signature;
        path = msg.path;
        sender = msg.sender;
      }))
]
