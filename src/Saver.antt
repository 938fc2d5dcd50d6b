-- ===== src/Saver.antt =====
-- xss/framework_xss.c: a program that reports when the state of the X screen saver changes. What the
-- X libraries answer, and the signals, are arguments; the constants of their headers are `Constants`.
-- An `int` is its bit pattern. A signal comes between two turns of the loop.

pub mod Changes
use framework_kmod.Base.{
  Bool, List, Option, [], false, if◌then◌else◌, none, not, some, true, ℕ, ◌+◌, ◌++◌, ◌==◌, ◌||◌,
  ◌∷◌,
}

-- `XScreenSaverInfo`, as far as it is read
pub record Info : Type 0 where
  pub state : ℕ
  pub kind : ℕ
  pub til_or_since : ℕ
  pub idle : ℕ
  pub event_mask : ℕ

-- `ScreenSaverOn` and the others of X11/extensions/saver.h
pub record Constants : Type 0 where
  pub on : ℕ
  pub off : ℕ
  pub disabled : ℕ
  pub blanked : ℕ
  pub internal : ℕ
  pub external : ℕ

-- What is printed, one constructor for each call of `printf`.
pub data Line : Type 0 where
  found_version : ℕ → ℕ → Line
  extension_bases : ℕ → ℕ → Line
  saver_on saver_off saver_disabled : Line
  unknown_state : ℕ → Line
  mode_blanked mode_internal mode_external : Line
  known_mode : ℕ → Line
  til_or_since_line : ℕ → Line
  idle_line : ℕ → Line
  event_mask_line : ℕ → Line
  failed_to_retrieve : Line

-- `active`, `state` of `main`, whether the signals are redirected, the output, and the seconds slept.
pub record Saver : Type 0 where
  pub active : Bool
  pub state : ℕ
  pub redirected : Bool
  pub output : List Line
  pub slept : ℕ

-- `-1`
abbrev pub no_state : ℕ
no_state = 4294967295

abbrev pub print : List Line → Saver → Saver
print ls s = record s { output = s.output ++ ls }

-- What `XScreenSaverAllocInfo` and `XScreenSaverQueryInfo` answer.
pub data Answer : Type 0 where
  no_memory : Answer
  query_failed : Answer
  answered : Info → Answer

-- What is left of the program: it goes on, `main` has returned, `err` has ended it with a code, or a
-- signal has killed it.
pub data Program : Type 0 where
  running : Saver → Program
  returned : Saver → Program
  exited : ℕ → Saver → Program
  killed : Saver → Program

abbrev pub and_then : Program → (Saver → Program) → Program
and_then (running s) f = f s
and_then p f = p

-- <sysexits.h>
abbrev ex_unavailable : ℕ
ex_unavailable = 69

abbrev ex_oserr : ℕ
ex_oserr = 71

-- `sigfunc`
unfoldable pub sigfunc : ℕ → Saver → Saver
sigfunc signum s = if signum == 15 || signum == 2 then record s { active = false } else s

-- What happens while the loop runs, in order: a turn, or SIGINT or SIGTERM.
pub data Event : Type 0 where
  turned : Answer → Bool → Event
  signalled : ℕ → Event

-- What the X server answers before the loop: whether the display can be opened, whether it has the
-- extension, and what the two queries of the extension find.
pub record Server : Type 0 where
  pub opened : Bool
  pub has_extension : Bool
  pub version : Option (ℕ × ℕ)
  pub bases : Option (ℕ × ℕ)

-- The variables at the start of `main`.
abbrev pub started : Saver
started = record { active = true; state = no_state; redirected = false; output = []; slept = 0 }

abbrev pub version_lines : Option (ℕ × ℕ) → List Line
version_lines none = []
version_lines (some (major, minor)) = found_version major minor ∷ []

module _ (c : Constants) where
  state_line : ℕ → Line
  state_line st =
      if st == c.on
      then saver_on
      else if st == c.off
      then saver_off
      else if st == c.disabled
      then saver_disabled
      else unknown_state st

  kind_line : ℕ → Line
  kind_line k =
      if k == c.blanked
      then mode_blanked
      else if k == c.internal
      then mode_internal
      else if k == c.external
      then mode_external
      else known_mode k

  -- The lines about a new state.
  unfoldable pub report : Info → List Line
  unfolding state_line kind_line
  report si =
      state_line si.state
      ∷ kind_line si.kind
      ∷ til_or_since_line si.til_or_since
      ∷ idle_line si.idle
      ∷ event_mask_line si.event_mask
      ∷ []

  unfoldable pub print_saverinfo : Answer → Saver → Program
  print_saverinfo no_memory s = exited ex_unavailable (record s { redirected = true })
  print_saverinfo query_failed s =
      running (print (failed_to_retrieve ∷ []) (record s { redirected = true }))
  print_saverinfo (answered si) s =
      let t = record s { redirected = true } in
      if si.state == s.state
      then running t
      else running (print (report si) (record t { state = si.state }))

  -- After `print_saverinfo`: whether `XCheckTypedEvent` has found an event.
  pub rest_of_turn : Bool → Saver → Program
  rest_of_turn found s = running (if found then s else record s { slept = s.slept + 1 })

  unfoldable pub turn : Answer → Bool → Saver → Program
  unfolding print_saverinfo rest_of_turn
  turn answer found s = and_then (print_saverinfo answer s) (rest_of_turn found)

  -- A signal that is not redirected yet ends the program.
  deliver : ℕ → Saver → Program
  unfolding sigfunc
  deliver signum s = if s.redirected then running (sigfunc signum s) else killed s

  -- The `while` of `main`. A turn that finds `active` false is the end.
  unfoldable pub main_loop : List Event → Saver → Program
  unfolding deliver
  main_loop [] s = running s
  main_loop (turned answer found ∷ es) s =
      let next = and_then (turn answer found s) (main_loop es) in
      if s.active then next else returned s
  main_loop (signalled signum ∷ es) s = and_then (deliver signum s) (main_loop es)

  -- From `XScreenSaverQueryExtension` on.
  run_from : Option (ℕ × ℕ) → List Event → Saver → Program
  unfolding main_loop
  run_from none es s = exited ex_oserr s
  run_from (some (event_base, error_base)) es s =
      main_loop es (print (extension_bases event_base error_base ∷ []) s)

  unfoldable pub main : Server → List Event → Program
  unfolding run_from
  main x es =
      let next = run_from x.bases es (print (version_lines x.version) started) in
      if not x.opened
      then exited ex_oserr started
      else if not x.has_extension
      then exited ex_unavailable started
      else next
