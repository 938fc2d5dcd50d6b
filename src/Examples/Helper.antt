-- ===== src/Examples/Helper.antt =====
-- The theorems about dbus/framework_debus.c at concrete inputs.
use framework_kmod.Base.{List, [], codes, false, inl, pos, refl, some, true, ℕ, ◌∷◌, ◌≡◌, ◌⊎◌}
use framework_kmod.Signal.{
  Message, zeroed, parse_signal, end, Argument, argument, array, dict_entry, variant, string, other,
}
use framework_kmod.Signal.Mpris.{allowed, changed, read, parse_signal-read}
use framework_kmod.Players.{
  Helper, popped, signalled, playback_started, player, choose_handler, main_loop, main, exited,
  ex_unavailable,
}
use framework_kmod.Players.Playing.{lookup}
use framework_kmod.Players.Notices.{Status, playing, paused, stopped, Told, Done}
use framework_kmod.Players.Handled.{notice, choose_handler-Told}
use framework_kmod.Players.History.{Report, message, all_allowed, events_of, main_loop_quits}
use framework_kmod.Players.Last.{is_playing, last_playing, Runs, main-playing}

abbrev header : Message
header = record {
  interface = some (codes "org.freedesktop.DBus.Properties");
  path = some (codes "/org/mpris/MediaPlayer2");
  sender = some (codes ":1.5");
  signature = some (codes "sa{sv}as");
  is_properties_changed = true;
  args = end;
}

abbrev interface_name : List ℕ
interface_name = codes "org.mpris.MediaPlayer2.Player"

-- A dictionary with one entry, the artists.
abbrev metadata : Argument
metadata = array (
    argument
      (dict_entry (
        argument (string (codes "xesam:artist"))
          (argument (variant (argument (array (argument (string (codes "Artist")) end)) end)) end)))
      end)

-- A second string after the status: the parser keeps it.
abbrev loop_props : List (List ℕ × Argument)
loop_props =
    (codes "Metadata", metadata)
    ∷ (codes "PlaybackStatus", string (codes "Paused"))
    ∷ (codes "LoopStatus", string (codes "None"))
    ∷ []

abbrev report : Status → Report
report st = record {
  header = header;
  iface = interface_name;
  before = (codes "Rate", other) ∷ (codes "Metadata", metadata) ∷ [];
  gone = codes "Position" ∷ [];
  status = st;
}

abbrev one_player : Helper
one_player = record {
  players = player (codes "other") 1 ∷ [];
  active = true;
  output = playback_started ∷ [];
}

loop_allowed : allowed loop_props ≡ true
unfolding allowed
loop_allowed = refl

parse_signal-read_example :
    parse_signal (record header { args = changed interface_name loop_props [] }) zeroed
    ≡ (pos 0, read header interface_name loop_props)
parse_signal-read_example = parse_signal-read header interface_name loop_props [] loop_allowed

choose_handler-Told_example :
    Done
      (Told (codes "other") paused (one_player.players) one_player)
      (choose_handler true (notice (record zeroed { name = codes "other" }) paused) one_player)
choose_handler-Told_example =
    choose_handler-Told (record zeroed { name = codes "other" }) paused one_player (refl, tt)

reports_allowed : all_allowed (report playing ∷ report stopped ∷ []) ≡ true
unfolding allowed
reports_allowed = refl

main-playing_example :
    ((false ≡ true)
      × (main false false (events_of (report playing ∷ report stopped ∷ []))
          ≡ exited ex_unavailable))
    ⊎ ((false ≡ false)
        × Runs
            (λ t.
              (t.active ≡ true)
              × ((m : List ℕ)
                  → is_playing (lookup m t.players)
                    ≡ last_playing m (report playing ∷ report stopped ∷ []) false))
            (main false false (events_of (report playing ∷ report stopped ∷ []))))
main-playing_example =
    main-playing false false (report playing ∷ report stopped ∷ []) reports_allowed

main_loop_quits_example :
    main_loop
      (signalled 2
        ∷ popped true (some (message (report playing)))
        ∷ popped true (some (message (report playing)))
        ∷ [])
      one_player
    ≡ some (record one_player { players = []; active = false })
main_loop_quits_example =
    main_loop_quits 2 true (some (message (report playing)))
      (popped true (some (message (report playing))) ∷ []) one_player (inl refl)
