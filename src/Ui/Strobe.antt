-- ===== src/Ui/Strobe.antt =====
-- The strobes of src/ui_actions.c.
use zbeam.Base.{
  ℕ, ◌+◌, ◌-◌, ◌*◌, ◌/◌, ◌%◌, ◌^◌, true, false, not, Option, none, ltb, leb, if◌then◌else◌, ◌|>◌,
}
use zbeam.Env.{Env}
use zbeam.Kernel.{stopped, started}
use zbeam.Pm.{pm_resume}
use zbeam.Node.{Node}
use zbeam.Ui.Device.{
  Device, StrobeType, strobe_party, strobe_tactical, strobe_candle, strobe_bike, param_frequency,
  on_ui, on_pm, update_led_hardware,
}
use zbeam.Ui.Ramp.{stop_ramping}

-- CONFIG_ZBEAM_STROBE_MIN_FREQ and CONFIG_ZBEAM_STROBE_MAX_FREQ.
abbrev pub strobe_min_freq : ℕ
strobe_min_freq = 2

abbrev pub strobe_max_freq : ℕ
strobe_max_freq = 80

unfoldable pub get_strobe_delay_ms : ℕ → ℕ
get_strobe_delay_ms freq_idx =
    let delay_max : ℕ = 1000 / strobe_min_freq in
    let delay_min : ℕ = 1000 / strobe_max_freq in
    let range = delay_max - delay_min in delay_max - range * freq_idx / 255

-- `get_random(min, max)`, for a result of `sys_rand32_get`.
unfoldable pub get_random : (drawn min max : ℕ) → ℕ
get_random drawn min max = if leb max min then min else min + drawn % (max - min + 1)

-- The body of the switch: the new state, and the delay to the next call.
unfoldable pub strobe_tick : Env → StrobeType → Device → ℕ × Device
unfolding get_strobe_delay_ms get_random update_led_hardware
strobe_tick env strobe_party d =
    if d.ui.strobe_on
    then (let delay = get_strobe_delay_ms d.ui.strobe_frequency in
        (
          if ltb delay 5 then 5 else delay,
          d |> on_ui (λ u. record u { strobe_on = false }) |> update_led_hardware 0,
        ))
    else (2, d |> on_ui (λ u. record u { strobe_on = true }) |> update_led_hardware 255)
strobe_tick env strobe_tactical d =
    let next = not d.ui.strobe_on in
    (
      get_strobe_delay_ms d.ui.strobe_frequency,
      d
          |> on_ui (λ u. record u { strobe_on = next })
          |> update_led_hardware (if next then 255 else 0),
    )
strobe_tick env strobe_candle d =
    let var = get_random (env.random 0) 0 80 % 256 in
    (get_random (env.random 1) 15 30, update_led_hardware ((80 - 40 + var) % 256) d)
strobe_tick env strobe_bike d =
    let counted = (d.ui.bike_counter + 20) % 2 ^ 32 in
    let counter = if ltb 1000 counted then 0 else counted in
    (
      20,
      d
          |> on_ui (λ u. record u { bike_counter = counter })
          |> update_led_hardware (if ltb counter 80 then 255 else 40),
    )

unfoldable pub strobe_timer_handler : Env → Device → Device
unfolding strobe_tick
strobe_timer_handler env d =
    let (delay, d') = strobe_tick env d.ui.current_strobe_mode d in
    on_ui (λ u. record u { strobe_timer = started delay 0 }) d'

unfoldable pub action_strobe_party : Device → Device
unfolding pm_resume
action_strobe_party d =
    d
    |> on_ui (λ u. record u { current_strobe_mode = strobe_party; strobe_on = false })
    |> on_pm pm_resume
    |> on_ui (λ u. record u { strobe_timer = started 0 0 })

unfoldable pub action_strobe_tactical : Device → Device
unfolding pm_resume
action_strobe_tactical d =
    d
    |> on_ui (λ u. record u { current_strobe_mode = strobe_tactical; strobe_on = false })
    |> on_pm pm_resume
    |> on_ui (λ u. record u { strobe_timer = started 0 0 })

unfoldable pub action_strobe_candle : Device → Device
unfolding pm_resume
action_strobe_candle d =
    d
    |> on_ui (λ u. record u { current_strobe_mode = strobe_candle })
    |> on_pm pm_resume
    |> on_ui (λ u. record u { strobe_timer = started 0 0 })

unfoldable pub action_strobe_bike : Device → Device
unfolding pm_resume
action_strobe_bike d =
    d
    |> on_ui (λ u. record u { current_strobe_mode = strobe_bike; bike_counter = 0 })
    |> on_pm pm_resume
    |> on_ui (λ u. record u { strobe_timer = started 0 0 })

-- `(int)current_strobe_mode + 1`, and 0 from STROBE_COUNT on.
unfoldable pub next_strobe : StrobeType → StrobeType
next_strobe strobe_party = strobe_tactical
next_strobe strobe_tactical = strobe_candle
next_strobe strobe_candle = strobe_bike
next_strobe strobe_bike = strobe_party

-- The switch of `action_strobe_next`.
start_strobe : StrobeType → Device → Device
unfolding action_strobe_party action_strobe_tactical action_strobe_candle action_strobe_bike
start_strobe strobe_party d = action_strobe_party d
start_strobe strobe_tactical d = action_strobe_tactical d
start_strobe strobe_candle d = action_strobe_candle d
start_strobe strobe_bike d = action_strobe_bike d

unfoldable pub action_strobe_next : Device → Option Node × Device
unfolding start_strobe next_strobe
action_strobe_next d =
    let next = next_strobe d.ui.current_strobe_mode in
    (
      none,
      d
          |> on_ui (λ u. record u { current_strobe_mode = next; strobe_timer = stopped })
          |> start_strobe next,
    )

unfoldable pub action_strobe : Device → Device
unfolding stop_ramping get_strobe_delay_ms update_led_hardware
action_strobe d =
    d
    |> stop_ramping
    |> on_ui (λ u. record u { party_mode = false; active_param = param_frequency })
    |> on_ui (λ u. record u { strobe_timer = started (get_strobe_delay_ms u.strobe_frequency) 0 })
    |> update_led_hardware 255
    |> on_ui (λ u. record u { strobe_on = true })
