-- ===== src/Players.antt =====
-- dbus/framework_debus.c, the list of players, the handlers of a parsed message, and `main`. The list starts at its head; a pointer to a player is its position. `none` as a new state
-- says that the program ended in `err`, after a `malloc` that failed; what `malloc` answers is the
-- argument `room`. A message is handled with no signal handler in between.
pub mod Playing
pub mod Notices
pub mod Handled
pub mod History
pub mod Last
use framework_kmod.Base.{
  Bool, List, Option, [], codes, false, first, if◌then◌else◌, none, same_upto, some, suc, take,
  true, zero, ℕ, ◌++◌, ◌==◌, ◌||◌, ◌∷◌,
}
use framework_kmod.Signal.{Message, Signal, zeroed, namelen, parse_signal}

-- `struct dbus_player_t`
pub record Player : Type 0 where
  pub name : List ℕ
  pub state : ℕ  -- uint8_t

-- The two lines that the handlers print.
pub data Line : Type 0 where
  playback_started playback_stopped : Line

-- `dbus_players`, `active`, and the output.
pub record Helper : Type 0 where
  pub players : List Player
  pub active : Bool
  pub output : List Line

abbrev pub put_players : List Player → Helper → Helper
put_players ps s = record s { players = ps }

abbrev pub print : Line → Helper → Helper
print l s = record s { output = s.output ++ l ∷ [] }

abbrev sigint : ℕ
sigint = 2

abbrev sigterm : ℕ
sigterm = 15

unfoldable pub sigfunc : ℕ → Helper → Helper
sigfunc signum s = if signum == sigterm || signum == sigint then record s { active = false } else s

deeper : Option ℕ → Option ℕ
deeper none = none
deeper (some i) = some (suc i)

-- `LIST_FOREACH` in `find_player`
pub position : List ℕ → List Player → Option ℕ
unfolding deeper
position name [] = none
position name (p ∷ ps) =
    let later = deeper (position name ps) in if same_upto namelen p.name name then some 0 else later

abbrev pub player : List ℕ → ℕ → Player
player name state = record { name = name; state = state }

-- What follows the search: the position, or `none` for NULL, and the list.
pub found_or_new : Bool → List ℕ → List Player → Option ℕ → Option ℕ × List Player
found_or_new room name ps (some i) = (some i, ps)
found_or_new room name ps none =
    if room then (some 0, player (take namelen name) 0 ∷ ps) else (none, ps)

unfoldable pub find_player : Bool → List ℕ → List Player → Option ℕ × List Player
unfolding found_or_new
find_player room name ps = found_or_new room name ps (position name ps)

-- `player->state`
pub state_at : ℕ → List Player → ℕ
state_at i [] = 0
state_at zero (p ∷ ps) = p.state
state_at (suc i) (p ∷ ps) = state_at i ps

-- `player->state = state`
pub set_state : ℕ → ℕ → List Player → List Player
set_state i state [] = []
set_state zero state (p ∷ ps) = record p { state = state } ∷ ps
set_state (suc i) state (p ∷ ps) = p ∷ set_state i state ps

pub rm_player : ℕ → List Player → List Player
rm_player i [] = []
rm_player zero (p ∷ ps) = ps
rm_player (suc i) (p ∷ ps) = p ∷ rm_player i ps

-- The loop of `clear_players`, which removes the head until the list is empty.
unfoldable pub clear_players : List Player → List Player
unfolding rm_player
clear_players [] = rm_player 0 []
clear_players (p ∷ ps) = clear_players ps

pub start_at : Option ℕ × List Player → Helper → Option Helper
unfolding state_at set_state
start_at (none, ps) s = none
start_at (some i, ps) s =
    if state_at i ps == 0
    then some (print playback_started (put_players (set_state i 1 ps) s))
    else some (put_players ps s)

unfoldable pub signal_start : Bool → Signal → Helper → Option Helper
unfolding start_at
signal_start room msg s = start_at (find_player room msg.name s.players) s

pub stop_at : Option ℕ × List Player → Helper → Option Helper
unfolding state_at set_state rm_player
stop_at (none, ps) s = none
stop_at (some i, ps) s =
    if state_at i ps == 1
    then some (print playback_stopped (put_players (rm_player i (set_state i 0 ps)) s))
    else some (put_players ps s)

unfoldable pub signal_stop : Bool → Signal → Helper → Option Helper
unfolding stop_at
signal_stop room msg s = stop_at (find_player room msg.name s.players) s

-- `struct dbus_message_handlermap_t`
pub record Handler : Type 0 where
  pub state_name : List ℕ
  pub func : Option (Bool → Signal → Helper → Option Helper)

abbrev pub handler_map : List Handler
handler_map =
    record { state_name = codes "PLAYING"; func = some signal_start }
    ∷ record { state_name = codes "PAUSED"; func = some signal_stop }
    ∷ record { state_name = codes "STOPPED"; func = some signal_stop }
    ∷ []

pub call : Option (Bool → Signal → Helper → Option Helper) → Bool → Signal → Helper → Option Helper
call none room msg s = some s
call (some func) room msg s = func room msg s

pub unless_exit : Option Helper → (Helper → Option Helper) → Option Helper
unless_exit none f = none
unless_exit (some s) f = f s

-- The loop of `choose_handler`, which goes on after a match.
pub choose_from : List Handler → Bool → Signal → Helper → Option Helper
unfolding call unless_exit
choose_from [] room msg s = some s
choose_from (h ∷ hs) room msg s =
    unless_exit
      (if same_upto namelen msg.playback_status h.state_name
        then call h.func room msg s
        else some s)
      (choose_from hs room msg)

-- `!*parsed_msg->playback_status`
unfoldable pub choose_handler : Bool → Signal → Helper → Option Helper
unfolding choose_from
choose_handler room msg s =
    if first msg.playback_status == 0 then some s else choose_from handler_map room msg s

-- One turn of the loop of `main`, with what `dbus_connection_pop_message` returned.
unfoldable pub turn : Bool → Option Message → Helper → Option Helper
unfolding choose_handler
turn room none s = some s
turn room (some msg) s =
    let parsed = if msg.is_properties_changed then (parse_signal msg zeroed).1 else zeroed in
    choose_handler room parsed s

-- What happens to the program, in order: a turn of the loop, or a signal.
pub data Event : Type 0 where
  popped : Bool → Option Message → Event
  signalled : ℕ → Event

-- The loop of `main` and what follows it, after these events. A turn that finds `active` false is
-- the end.
unfoldable pub main_loop : List Event → Helper → Option Helper
unfolding turn sigfunc unless_exit clear_players
main_loop [] s = some s
main_loop (popped room msg ∷ es) s =
    let left = some (put_players (clear_players s.players) s) in
    let next = unless_exit (turn room msg s) (main_loop es) in if s.active then next else left
main_loop (signalled signum ∷ es) s = main_loop es (sigfunc signum s)

-- What is left of the program: `err` has ended it with a code before the loop, or the loop is at
-- work or has ended.
pub data Program : Type 0 where
  exited : ℕ → Program
  looped : Option Helper → Program

-- <sysexits.h>
abbrev pub ex_unavailable : ℕ
ex_unavailable = 69

-- The variables at the start of `main`.
abbrev pub started : Helper
started = record { players = []; active = true; output = [] }

-- The first two arguments say whether `dbus_bus_get` and `dbus_bus_add_match` have set the error.
unfoldable pub main : Bool → Bool → List Event → Program
unfolding main_loop
main no_bus no_match es =
    let run = looped (main_loop es started) in
    if no_bus then exited ex_unavailable else if no_match then exited ex_unavailable else run
