-- ===== src/Keyhandler.antt =====
-- kmod/framework_keyhandler.c: the two brightness keys. The functions are `framework_keyhandler_…`.
-- The only code pointers in the table are the two handlers, a constructor each.
pub mod Keys
use Prim.Native.Nat.{bit_and}
use framework_kmod.Base.{
  Action, Bool, List, Option, Slot, [], branch, deref, false, fault, freed, if_zero, if◌then◌else◌,
  live, minus_one, neg, none, null, null_pointer, ok, pos, pure, stop, true, use_after_free, ℕ, ℤ,
  ◌==◌, ◌>>◌, ◌∷◌, ◌>>=◌,
}
use framework_kmod.Kernel.{Kernel}
use framework_kmod.Screen.{ConfigPtr, ScreenPtr}
use framework_kmod.Screen as Screen
use framework_kmod.Display.{Display, on_screen}
use framework_kmod.Utils.{getscreenconfig}

-- `struct framework_keyhandler_t`
pub record KeyHandler : Type 0 where
  pub flags : ℕ  -- uint8_t
  pub power_config : Option ConfigPtr

abbrev pub flag_init : ℕ
flag_init = 1

pub data HandlerFunc : Type 0 where
  brightness_up brightness_down : HandlerFunc

-- `struct framework_keyhandler_vtable`
pub record Entry : Type 0 where
  pub keycode : ℕ  -- uint16_t
  pub handler_func : HandlerFunc

-- `framework_keyhandler_vt`
abbrev pub vt : List Entry
vt =
    record { keycode = 225; handler_func = brightness_up }
    ∷ record { keycode = 224; handler_func = brightness_down }
    ∷ []

unfoldable pub init : Option ConfigPtr → Slot KeyHandler
init power_config = live (record { flags = flag_init; power_config = power_config })

unfoldable pub destroy : Action (Slot KeyHandler) (Unit {0})
destroy null = fault null_pointer
destroy (live kh) = ok tt freed
destroy freed = fault use_after_free

module _ {E : Type 0} (k : Kernel E) where
  -- The calls through the table, for a configuration that was found.
  step : Option ScreenPtr → Bool → Action (Display E) (Unit {0})
  step screen_config up = do
    getter ← (λ d. deref d.screen.config.funcs.get_increment_level d)
    increment_level ← on_screen (Screen.get getter screen_config)
    changer ← (λ d. deref d.screen.config.funcs.change_rel_brightness d)
    on_screen (
        Screen.changebrightness screen_config
          (if up then pos increment_level else neg (pos increment_level)))
    pure tt

  unfoldable pub changebrightness : KeyHandler → Bool → Action (Display E) (Unit {0})
  unfolding step
  changebrightness kh up = do
    (error, screen_config) ← getscreenconfig k kh.power_config none
    if_zero error (step screen_config up) (pure tt)

  call : HandlerFunc → KeyHandler → Action (Display E) (Unit {0})
  call brightness_up kh = changebrightness kh true
  call brightness_down kh = changebrightness kh false

  -- The `for` loop.
  search_from : List Entry → KeyHandler → ℕ → Action (Display E) ℤ
  unfolding call
  search_from [] kh key_in = pure minus_one
  search_from (e ∷ rest) kh key_in =
      let others = search_from rest kh key_in in
      branch (e.keycode == key_in) (call e.handler_func kh >> pure (pos 0)) others

  unfoldable pub handlekey : Slot KeyHandler → ℕ → Action (Display E) ℤ
  unfolding search_from
  handlekey null key_in = stop null_pointer
  handlekey freed key_in = stop use_after_free
  handlekey (live kh) key_in =
      branch (bit_and flag_init kh.flags == 0) (pure minus_one) (search_from vt kh key_in)
