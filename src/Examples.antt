-- ===== src/Examples.antt =====
-- The theorems at concrete inputs, and runs of the driver on the kernel of `Bench`.
mod Helper
mod Saving
mod Stopping
mod Ending
mod Places
mod Whole
mod Seconds
mod Tuning
mod Pieces
use framework_kmod.Base.{
  List, Option, Returns, Slot, [], arith, at_slot, begins, codes, deadlock, false, fault, free,
  freed, held, if◌then◌else◌, inl, live, negsuc, none, ok, pos, refl, same, some, suc, true, ℕ, ◌+◌,
  ◌<◌, ◌==◌, ◌>>◌, ◌∷◌, ◌≡◌, ◌≢◌, ◌≤◌, ◌⊎◌,
}
use framework_kmod.State.{DimState, init as state_init, destroy as state_destroy}
use framework_kmod.State.Counting.{hints, block, unblock, hints_count}
use framework_kmod.Screen.{
  Screen, zeroed, screen_power, screen_battery, power_config, changebrightness,
}
use framework_kmod.Screen as Screen
use framework_kmod.Screen.Levels.{changebrightness-level, with_high}
use framework_kmod.Screen.Bounds as Bounds
use framework_kmod.Cdevs.{
  lookupcdev_drv1, drv1_of, lookupcdev_drv1-drv1_of, matchcdev_drv1, each, named,
  matchcdev_drv1-each, Match,
}
use framework_kmod.Power.{pwr, ivl, getpowermode}
use framework_kmod.Power as Power
use framework_kmod.Power.Modes.{getpowermode-mode_of, unknown-deadlock, after}
use framework_kmod.Power.Start.{Ends, init-Ends}
use framework_kmod.Backlight.{setbrightness}
use framework_kmod.Backlight.Panel.{Shows, setbrightness-Shows, setbrightness_unread}
use framework_kmod.Display.{IsReady}
use framework_kmod.Utils.{getscreenconfig}
use framework_kmod.Utils.Lookup.{after_query, getscreenconfig-config_of, mode_now}
use framework_kmod.Keyhandler.{handlekey}
use framework_kmod.Keyhandler as Keyhandler
use framework_kmod.Keyhandler.Keys.{pressed, handlekey-pressed, pressed-IsReady}
use framework_kmod.Sysctl.{screen_config, brightness_high, dimblock, debug, debuglevel}
use framework_kmod.Sysctl.Limits.{screen_config-store, history-IsReady, handle_all, write, step}
use framework_kmod.Sysctl.Dimming.{dimblock_lost}
use framework_kmod.Callout.{
  inputintr, round, put_callout, put_lock, put_level, put_display, high, dim, next_seconds,
}
use framework_kmod.Callout.Wanted.{queried}
use framework_kmod.Callout.Input.{shown, inputintr-handlekey}
use framework_kmod.Callout.Rounds.{InLoop, finished, round_gives_up, round-finished}
use framework_kmod.Bench.{
  bench, blind, devices, bench-IsAcpi, screen, screen-IsReady, env, power_sys, backlight_sys,
  display, display-IsReady, running, running-CanRun,
}

handlekey-pressed_example :
    handlekey bench (Keyhandler.init (some power_config)) 225 (display (1 ∷ []))
    ≡ ok (pos 0) (pressed bench true (display (1 ∷ [])))
handlekey-pressed_example =
    (handlekey-pressed bench 225 (display (1 ∷ [])) (display-IsReady (1 ∷ [])) bench-IsAcpi).0 refl

in_loop : (reports : List ℕ) → InLoop (running held reports)
in_loop reports = record { can_run = running-CanRun held reports; locked = refl; evdev_free = refl }

changebrightness-level_example :
    changebrightness (some screen_battery) (pos 10) screen
    ≡ ok (pos 0) (with_high screen_battery 50 screen)
changebrightness-level_example =
    changebrightness-level screen_battery (pos 10) screen refl (omega arith) (omega arith)

history-IsReady_example :
    Returns
      (λ _ t. Bounds.IsReady t)
      ((Screen.init
          >> handle_all (
              write brightness_high screen_power (λ old. (0, 200))
              ∷ step screen_power (pos 10) (omega arith)
              ∷ []))
        zeroed)
history-IsReady_example =
    history-IsReady
      (write brightness_high screen_power (λ old. (0, 200))
        ∷ step screen_power (pos 10) (omega arith)
        ∷ [])
      zeroed

getpowermode-mode_of_example :
    getpowermode bench (power_sys (2 ∷ [])) ≡ ok pwr (after bench pwr (power_sys (2 ∷ [])))
getpowermode-mode_of_example = getpowermode-mode_of bench (power_sys (2 ∷ [])) refl bench-IsAcpi

-- Discharging and critical at once: 1 + 4.
unknown-deadlock_example :
    (getpowermode bench >> getpowermode bench) (power_sys (5 ∷ 1 ∷ [])) ≡ fault deadlock
unknown-deadlock_example = unknown-deadlock bench (power_sys (5 ∷ 1 ∷ [])) refl bench-IsAcpi refl

inputintr-handlekey_example :
    inputintr bench (some 225) (running free (1 ∷ []))
    ≡ shown bench 40 (
        put_display
          (pressed bench true (after_query bench (display (1 ∷ []))))
          (put_level high (running free (1 ∷ []))))
inputintr-handlekey_example =
    inputintr-handlekey bench (running free (1 ∷ [])) 225 true (running-CanRun free (1 ∷ []))
      bench-IsAcpi refl refl (λ e. cc) (inl (refl, refl))

-- A level of 200 is refused, and the request still succeeds.
screen_config-store_example :
    screen_config brightness_high (some screen_power) (λ old. (0, 200)) screen ≡ ok 0 screen
screen_config-store_example =
    screen_config-store brightness_high screen_power (λ old. (0, 200)) screen screen-IsReady

init-Ends_example : Returns (Ends bench) (Power.init bench (power_sys (2 ∷ [])))
init-Ends_example = init-Ends bench (power_sys (2 ∷ [])) bench-IsAcpi

-- The callback keeps the pointers that it is given, and fails at the device 21.
abbrev seen : Match (List (Option ℕ))
seen name drv1 s = ok (if begins (codes "input/event1") name then 6 else 0) (drv1 ∷ s)

matchcdev_drv1-each_example :
    matchcdev_drv1 (codes "input/event") (some seen) devices []
    ≡ each seen (named (codes "input/event") devices) []
matchcdev_drv1-each_example = matchcdev_drv1-each b'i' (codes "nput/event") seen devices []

seen_both :
    matchcdev_drv1 (codes "input/event") (some seen) devices [] ≡ ok 6 (some 21 ∷ some 20 ∷ [])
unfolding matchcdev_drv1 begins
seen_both = refl

lookupcdev_drv1-drv1_of_example :
    lookupcdev_drv1 (codes "backlight/backlight0") devices
    ≡ drv1_of (codes "backlight/backlight0") devices
lookupcdev_drv1-drv1_of_example = lookupcdev_drv1-drv1_of (codes "backlight/backlight0") devices

backlight_found : lookupcdev_drv1 (codes "backlight/backlight0") devices ≡ some 9
unfolding lookupcdev_drv1 same
backlight_found = refl

hints_count_example :
    (d : ℕ) × (hints
        (block ∷ block ∷ unblock ∷ [])
        (live (record { lock = free; flags = 1; block_dim_count = 0 }))
      ≡ ok tt (live (record { lock = free; flags = 1; block_dim_count = d })))
    × (d + 1 ≡ 2)
hints_count_example = hints_count 0 1 (block ∷ block ∷ unblock ∷ []) (omega arith)

abbrev counting : ℕ → Slot DimState
counting c = live (record { lock = free; flags = 1; block_dim_count = c })

dimblock_lost_example :
    (dimblock (λ old. (0, 1)) (counting 1) ≡ ok 0 (counting 1))
    × ((c : ℕ)
        → c ≢ 1
        → c < 4294967295
        → dimblock (λ old. (0, 1)) (counting c) ≡ ok 0 (counting (suc c)))
dimblock_lost_example = dimblock_lost 1 (omega arith) (omega arith)

setbrightness_unread_example :
    Returns
      (λ r t.
        (r ≡ (if ◌==◌ 5 0 then 0 else 0))
        × (t.env ≡ (if ◌==◌ 5 0 then env [] else record (env []) { panel = 5 })))
      (setbrightness blind 5 backlight_sys)
setbrightness_unread_example = setbrightness_unread blind 9 5 backlight_sys refl (omega arith)
