-- ===== src/Ui/Config.antt =====
-- The configuration and calibration menus of src/ui_actions.c. While a menu waits for clicks, a
-- timer makes the lamp buzz.
use zbeam.Base.{ℕ, ◌+◌, ◌-◌, ◌*◌, ◌%◌, not, Option, some, ltb, if◌then◌else◌, ◌|>◌}
use zbeam.Base.Int.{pos}
use zbeam.Env.{Env}
use zbeam.Kernel.{stopped, started}
use zbeam.Thermal.{thermal_calibrate_current_temp, thermal_set_limit}
use zbeam.Batt.{batt_calibrate_voltage}
use zbeam.Nvs.{
  id_ramp_floor, id_ramp_ceiling, id_batt_calib_offset, id_temp_calib_offset, id_thermal_limit,
}
use zbeam.Node.{
  Node, adv_on, adv_config_ceiling, adv_battcheck, adv_tempcheck, adv_cal_thermal_limit,
}
use zbeam.Ui.Device.{Device, on_ui, update_led_hardware, nvs_write_byte}

unfoldable pub buzz_timer_handler : Device → Device
buzz_timer_handler d =
    let next = not d.ui.buzz_state in
    d |> on_ui (λ u. record u { buzz_state = next }) |> update_led_hardware (if next then 4 else 1)

-- `k_timer_init(&buzz_timer, ...); k_timer_start(&buzz_timer, K_MSEC(20), K_MSEC(20));`
abbrev start_buzz : Device → Device
start_buzz = on_ui λ u. record u { buzz_timer = started 20 20 }

abbrev stop_buzz : Device → Device
stop_buzz = on_ui λ u. record u { buzz_timer = stopped }

unfoldable pub action_config_floor : Device → Device
action_config_floor d = start_buzz d

unfoldable pub action_config_ceiling : Device → Device
action_config_ceiling d = start_buzz d

unfoldable pub action_config_steps : Device → Device
action_config_steps d = start_buzz d

-- `if (count > 0)`.
abbrev when_positive : ℕ → (Device → Device) → Device → Device
when_positive count f d = if ltb 0 count then f d else d

unfoldable pub cb_config_floor_set : Node → ℕ → Device → Option Node × Device
cb_config_floor_set self count d = (
  some adv_config_ceiling,
  d
      |> stop_buzz
      |> when_positive count λ d1.
        d1
        |> on_ui (λ u. record u { brightness_floor = count % 256 })
        |> nvs_write_byte id_ramp_floor (count % 256),
)

-- The ceiling for a count: counted down from 256, and one above the floor if it is below that.
unfoldable pub ceiling_of : (floor count : ℕ) → ℕ
ceiling_of floor count =
    let ceiling = (256 + 256 - count % 256) % 256 in
    if ltb ceiling floor then (floor + 1) % 256 else ceiling

unfoldable pub cb_config_ceiling_set : Node → ℕ → Device → Option Node × Device
unfolding ceiling_of
cb_config_ceiling_set self count d =
    let ceiling = ceiling_of d.ui.brightness_floor count in
    (
      some adv_on,
      d
          |> stop_buzz
          |> when_positive count λ d1.
            d1
            |> on_ui (λ u. record u { brightness_ceiling = ceiling })
            |> nvs_write_byte id_ramp_ceiling ceiling,
    )

unfoldable pub cb_config_steps_set : Node → ℕ → Device → Option Node × Device
cb_config_steps_set self count d = (some adv_on, stop_buzz d)

unfoldable pub action_cal_voltage_entry : Device → Device
action_cal_voltage_entry d = start_buzz d

unfoldable pub cb_cal_voltage_set : Env → Node → ℕ → Device → Option Node × Device
cb_cal_voltage_set env self count d =
    let batt = batt_calibrate_voltage env (count * 100 % 65536) d.batt in
    (
      some adv_battcheck,
      d
          |> stop_buzz
          |> when_positive count λ d1.
            record d1 { batt = batt } |> nvs_write_byte id_batt_calib_offset batt.cal_offset,
    )

unfoldable pub action_cal_thermal_entry : Device → Device
action_cal_thermal_entry d = start_buzz d

unfoldable pub cb_cal_thermal_set : Env → Node → ℕ → Device → Option Node × Device
cb_cal_thermal_set env self count d =
    let (thermal, stored) = thermal_calibrate_current_temp env.sensor (pos count) d.thermal in
    (
      some adv_cal_thermal_limit,
      d
          |> stop_buzz
          |> when_positive count
              λ d1. record d1 { thermal = thermal } |> nvs_write_byte id_temp_calib_offset stored,
    )

unfoldable pub action_cal_thermal_limit_entry : Device → Device
action_cal_thermal_limit_entry d = start_buzz d

unfoldable pub cb_cal_thermal_limit_set : Node → ℕ → Device → Option Node × Device
cb_cal_thermal_limit_set self count d =
    let (thermal, stored) = thermal_set_limit ((30 + count) % 256) d.thermal in
    (
      some adv_tempcheck,
      d
          |> stop_buzz
          |> when_positive count
              λ d1. record d1 { thermal = thermal } |> nvs_write_byte id_thermal_limit stored,
    )
