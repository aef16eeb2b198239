-- ===== src/Ui/Actions.antt =====
-- The action routines of src/ui_actions.c, its thermal timer, and the mode switches.
use zbeam.Base.{ℕ, zero, suc, ◌-◌, ◌%◌, Option, none, some, ltb, if◌then◌else◌, ◌|>◌, ◌∷◌}
use zbeam.Base.Int.{ℤ, pos, ◌+ℤ◌, quot, rem, wrap}
use zbeam.Env.{Env}
use zbeam.Kernel.{stopped, started, reboot}
use zbeam.Thermal.{Gains, thermal_update, thermal_get_temp_mc}
use zbeam.Channel.{channel_cycle_mode}
use zbeam.Pm.{pm_suspend, pm_resume}
use zbeam.Aux.{aux_cycle_mode}
use zbeam.Batt.{batt_read_voltage_mv, batt_calculate_blinks}
use zbeam.Nvs.{nvs_wipe_all, id_ui_mode, id_ramp_style}
use zbeam.Node.{Node, simple_off, adv_off}
use zbeam.Ui.Device.{
  Ui, Device, UiMode, ui_simple, ui_advanced, MemoryMode, mem_auto, mem_manual, mem_hybrid,
  RampStyle, ramp_smooth, ramp_stepped, ramp_unnamed, on_ui, on_pm, update_led_hardware, k_msleep,
  nvs_write_byte,
}
use zbeam.Ui.Ramp.{stop_ramping}

-- `gains` are the PID constants of the configuration.
unfoldable pub thermal_timer_handler : Gains → Env → Device → Device
thermal_timer_handler gains env d =
    record d { thermal = thermal_update gains env.sensor d.thermal }
    |> update_led_hardware d.ui.current_brightness

unfoldable pub action_off : Env → Device → Device
action_off env d =
    d
    |> stop_ramping
    |> update_led_hardware 0
    |> on_ui (λ u. record u { thermal_timer = stopped; strobe_timer = stopped })
    |> on_ui (λ u. record u { last_off_time = env.uptime })
    |> on_pm pm_suspend

-- The hybrid branch of the memory logic.
hybrid_level : (now : ℕ) → Ui → ℕ
hybrid_level now u =
    if ltb 0 u.hybrid_timeout_ms
    then (if ltb u.hybrid_timeout_ms (now - u.last_off_time)
        then u.manual_mem_level
        else u.memorized_brightness)
    else u.memorized_brightness

-- `target_pwm` of `action_on`.
unfoldable pub target_pwm : (now : ℕ) → MemoryMode → Ui → ℕ
unfolding hybrid_level
target_pwm now mem_manual u = u.manual_mem_level
target_pwm now mem_hybrid u = hybrid_level now u
target_pwm now mem_auto u = u.memorized_brightness

-- The choice and the lighting at the end of `action_on`.
unfoldable pub light_chosen : (now : ℕ) → Device → Device
light_chosen now d =
    if ltb 0 d.ui.override_brightness
    then (d
        |> on_ui
            (λ u. record u { current_brightness = u.override_brightness; override_brightness = 0 })
        |> update_led_hardware d.ui.override_brightness)
    else (let level = target_pwm now d.ui.current_mem_mode d.ui in
        d |> on_ui (λ u. record u { current_brightness = level }) |> update_led_hardware level)

unfoldable pub action_on : Env → Device → Device
action_on env d =
    d
    |> on_pm pm_resume
    |> on_ui (λ u. record u { thermal_timer = started 500 500 })
    |> stop_ramping
    |> light_chosen env.uptime

unfoldable pub action_moon : Device → Device
unfolding update_led_hardware pm_resume
action_moon d =
    d
    |> on_pm pm_resume
    |> on_ui (λ u. record u { strobe_timer = stopped })
    |> on_ui (λ u. record u { current_brightness = u.brightness_floor })
    |> update_led_hardware d.ui.brightness_floor

unfoldable pub action_turbo : Device → Device
action_turbo d =
    d
    |> on_pm pm_resume
    |> stop_ramping
    |> on_ui (λ u. record u { current_brightness = u.brightness_ceiling })
    |> update_led_hardware d.ui.brightness_ceiling

unfoldable pub action_ramp : Device → Device
action_ramp d = d

unfoldable pub action_lockout : Device → Device
action_lockout d = d |> stop_ramping |> update_led_hardware 0

-- `for (int i = 0; i < n; i++)` of the blink sequences.
unfoldable pub blink : ℕ → Device → Device
blink zero d = d
blink (suc n) d =
    blink n (d |> update_led_hardware 100 |> k_msleep 100 |> update_led_hardware 0 |> k_msleep 300)

unfoldable pub blink_digits : (major minor : ℕ) → Device → Device
unfolding blink
blink_digits major minor d = d |> blink major |> k_msleep 800 |> blink minor

unfoldable pub action_battcheck : Env → Device → Device
unfolding stop_ramping batt_read_voltage_mv batt_calculate_blinks blink_digits
action_battcheck env d =
    let d1 = stop_ramping d in
    let (major, minor) = batt_calculate_blinks (batt_read_voltage_mv env d1.batt) in
    blink_digits major minor d1

-- `major` and `minor` of `action_tempcheck`, as uint8_t.
unfoldable pub temp_digits : ℤ → ℕ × ℕ
unfolding quot rem wrap ◌+ℤ◌
temp_digits mc = let c = quot (mc +ℤ pos 500) 1000 in (wrap 256 (quot c 10), wrap 256 (rem c 10))

unfoldable pub action_tempcheck : Device → Device
unfolding stop_ramping temp_digits blink_digits thermal_get_temp_mc
action_tempcheck d =
    let d1 = stop_ramping d in
    let (major, minor) = temp_digits (thermal_get_temp_mc d1.thermal) in blink_digits major minor d1

unfoldable pub action_aux_config : Device → Device
unfolding update_led_hardware aux_cycle_mode
action_aux_config d =
    record d { aux = aux_cycle_mode d.aux }
    |> update_led_hardware 255
    |> k_msleep 20
    |> update_led_hardware d.ui.current_brightness

-- `sys_reboot` does not return, so what a caller does afterwards does not happen: System.Quiet says that
-- the call ends the program.
unfoldable pub action_factory_reset : Device → Device
unfolding stop_ramping nvs_wipe_all
action_factory_reset d =
    let d1 = stop_ramping d in record d1 { calls = reboot ∷ nvs_wipe_all d1.calls }

abbrev pub get_simple_off_node : Node
get_simple_off_node = simple_off

abbrev pub get_advanced_off_node : Node
get_advanced_off_node = adv_off

-- The start node of a mode.
start_node : UiMode → Node
start_node ui_simple = get_simple_off_node
start_node ui_advanced = get_advanced_off_node

unfoldable pub get_start_node : Device → Node
unfolding start_node
get_start_node d = start_node d.ui.current_ui_mode

abbrev other_mode : UiMode → UiMode
other_mode ui_simple = ui_advanced
other_mode ui_advanced = ui_simple

-- The value of the enumeration constant.
abbrev pub mode_byte : UiMode → ℕ
mode_byte ui_simple = 0
mode_byte ui_advanced = 1

unfoldable pub ui_toggle_mode : Device → Option Node × Device
unfolding get_start_node
ui_toggle_mode d =
    let mode = other_mode d.ui.current_ui_mode in
    let d1 =
      d
      |> on_ui (λ u. record u { current_ui_mode = mode })
      |> nvs_write_byte id_ui_mode (mode_byte mode) in
    (some (get_start_node d1), d1)

unfoldable pub ui_get_current_pwm : Device → ℕ
ui_get_current_pwm d = d.ui.current_brightness

unfoldable pub ui_get_strobe_freq : Device → ℕ
ui_get_strobe_freq d = d.ui.strobe_frequency

unfoldable pub ui_get_current_mode : Device → UiMode
ui_get_current_mode d = d.ui.current_ui_mode

unfoldable pub ui_set_next_brightness : ℕ → Device → Device
ui_set_next_brightness level = on_ui λ u. record u { override_brightness = level }

unfoldable pub ui_set_next_brightness_floor : Device → Device
ui_set_next_brightness_floor = on_ui λ u. record u { override_brightness = u.brightness_floor }

unfoldable pub ui_set_next_brightness_ceiling : Device → Device
ui_set_next_brightness_ceiling = on_ui λ u. record u { override_brightness = u.brightness_ceiling }

unfoldable pub action_channel_cycle : Device → Option Node × Device
unfolding channel_cycle_mode
action_channel_cycle d = (none, record d { channel = channel_cycle_mode d.channel })

abbrev pub other_style : RampStyle → RampStyle
other_style ramp_smooth = ramp_stepped
other_style ramp_stepped = ramp_smooth
other_style (ramp_unnamed _) = ramp_smooth

-- The value of the enumeration constant.
abbrev pub style_byte : RampStyle → ℕ
style_byte ramp_smooth = 0
style_byte ramp_stepped = 1
style_byte (ramp_unnamed byte) = byte % 256

unfoldable pub action_toggle_ramp_style : Device → Option Node × Device
unfolding update_led_hardware
action_toggle_ramp_style d =
    let style = other_style d.ui.current_ramp_style in
    (
      none,
      d
          |> on_ui (λ u. record u { current_ramp_style = style })
          |> nvs_write_byte id_ramp_style (style_byte style)
          |> update_led_hardware 0
          |> k_msleep 100
          |> update_led_hardware d.ui.current_brightness,
    )
