-- ===== src/Examples/Input.antt =====
-- The tap engine of lib/multi_tap_input.c at concrete times and keys.
use zbeam.Base.{◌≡◌, none, List, [], ◌∷◌}
use zbeam.Msg.{input_hold_start, input_hold_release}
use zbeam.Tap.{TapEvent, key, hold_expiry, tap_run, tap_reset}
use zbeam.Tap.Trace.{Bracketed, open_hold, tap_run-Bracketed}
use zbeam.Tap.Gesture.{clicks, clicks-hold}

abbrev held : List TapEvent
held = key 1 ∷ hold_expiry ∷ []

tap_run-Bracketed_example :
    Bracketed none
      (tap_run held (tap_reset 400 500)).1
      (open_hold (tap_run held (tap_reset 400 500)).0)
tap_run-Bracketed_example = tap_run-Bracketed 400 500 held

abbrev two_clicks_and_hold : List TapEvent
two_clicks_and_hold = clicks 2 (key 1 ∷ hold_expiry ∷ key 0 ∷ [])

clicks-hold_example :
    ((tap_run two_clicks_and_hold (tap_reset 400 500)).1
      ≡ record { type = input_hold_start; count = 3; severity = 0 }
        ∷ record { type = input_hold_release; count = 3; severity = 0 }
        ∷ [])
    × ((tap_run two_clicks_and_hold (tap_reset 400 500)).0 ≡ tap_reset 400 500)
clicks-hold_example = clicks-hold 2 400 500
