-- ===== src/Examples/Saving.antt =====
-- Runs of the screen saver helper.
use framework_kmod.Base.{List, [], none, refl, some, true, false, ℕ, ◌++◌, ◌∷◌, ◌≡◌}
use framework_kmod.Saver.{
  Constants, Info, Saver, Server, running, returned, saver_off, mode_blanked, til_or_since_line,
  idle_line, event_mask_line, started, turned, signalled, answered, main, main_loop, report, turn,
  found_version, extension_bases,
}
use framework_kmod.Saver.Changes.{Turn, events_of, states, last_or, news, main_loop-news}

abbrev x11 : Constants
x11 = record { on = 1; off = 0; disabled = 3; blanked = 0; internal = 1; external = 2 }

abbrev info : ℕ → Info
info st = record { state = st; kind = 0; til_or_since = 600; idle = 5; event_mask = 3 }

abbrev said : ℕ → Turn
said st = record { info = some (info st); found = false }

-- The state is on, a query fails, and the state is still on.
abbrev three_turns : List Turn
three_turns = said 1 ∷ record { info = none; found = true } ∷ []

main_loop-news_example :
    (t : Saver) × (u : Saver) × (main_loop x11 (events_of three_turns) started ≡ running t)
    × (main_loop x11 (events_of (three_turns ++ said 1 ∷ [])) started ≡ running u)
    × (u.output ≡ t.output ++ news x11 (last_or started.state (states three_turns)) (some (info 1)))
main_loop-news_example = main_loop-news x11 three_turns (said 1) started refl

abbrev server : Server
server = record { opened = true; has_extension = true; version = some (1, 1); bases = some (90, 0) }

-- Off, and then SIGTERM: the next turn is the end.
quits :
    main x11 server
      (turned (answered (info 0)) true ∷ signalled 15 ∷ turned (answered (info 1)) true ∷ [])
    ≡ returned (record {
      active = false;
      state = 0;
      redirected = true;
      output =
          found_version 1 1
          ∷ extension_bases 90 0
          ∷ saver_off
          ∷ mode_blanked
          ∷ til_or_since_line 600
          ∷ idle_line 5
          ∷ event_mask_line 3
          ∷ [];
      slept = 0;
    })
unfolding main turn report
quits = refl
