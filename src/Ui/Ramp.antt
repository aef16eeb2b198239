-- ===== src/Ui/Ramp.antt =====
-- The ramp of src/ui_actions.c: its timer's handler, its start and its stop.
use zbeam.Base.{
  ℕ, ◌+◌, ◌-◌, ◌*◌, ◌/◌, ◌%◌, ◌^◌, Bool, true, false, ◌&&◌, ltb, leb, ◌==◌, if◌then◌else◌, ◌|>◌,
}
use zbeam.Base.Int.{ℤ, pos, negsuc, ◌+ℤ◌, ◌-ℤ◌, ltb_ℤ, signed32}
use zbeam.Kernel.{stopped, started}
use zbeam.Nvs.{id_mem_brightness}
use zbeam.Ui.Device.{
  Ui, Device, RampStyle, ramp_smooth, ramp_stepped, ramp_unnamed, ControlParam, param_brightness,
  param_frequency, on_ui, update_led_hardware, nvs_write_byte,
}

abbrev pub ramp_step_size : ℕ
ramp_step_size = 1

-- CONFIG_ZBEAM_BRIGHTNESS_SWEEP_DURATION_MS and CONFIG_ZBEAM_STROBE_SWEEP_DURATION_MS.
abbrev pub brightness_sweep_ms : ℕ
brightness_sweep_ms = 2000

abbrev pub strobe_sweep_ms : ℕ
strobe_sweep_ms = 3000

abbrev is_brightness : ControlParam → Bool
is_brightness param_brightness = true
is_brightness param_frequency = false

abbrev is_stepped : RampStyle → Bool
is_stepped ramp_stepped = true
is_stepped ramp_smooth = false
is_stepped (ramp_unnamed _) = false

-- `range`, a uint32_t of at least 1.
unfoldable pub step_range : (floor ceiling : ℕ) → ℕ
step_range floor ceiling =
    let range = (ceiling + 2 ^ 32 - floor) % 2 ^ 32 in if range == 0 then 1 else range

-- `current_idx`: the step nearest to a value. The int32_t product becomes unsigned in the sum.
unfoldable pub nearest_step : (val floor range steps : ℕ) → ℤ
nearest_step val floor range steps =
    signed32 (((val + 2 ^ 32 - floor) * (steps - 1) + range / 2) % 2 ^ 32 / range)

-- The next step and direction, clamped, with a bounce at either end.
unfoldable pub next_step : (idx direction : ℤ) → (steps : ℕ) → ℕ × ℤ
next_step idx direction steps =
    let moved = if ltb_ℤ (pos 0) direction then idx +ℤ pos 1 else idx -ℤ pos 1 in
    elim moved [
      | pos i ↦ (if leb steps i then (steps - 1, negsuc 0) else (i, direction))
      | negsuc _ ↦ (0, pos 1)
    ]

-- `new_val`, as the uint8_t that is stored.
unfoldable pub step_value : (floor range steps idx : ℕ) → ℕ
step_value floor range steps idx = (floor + idx * range % 2 ^ 32 / (steps - 1)) % 2 ^ 32 % 256

-- The stepped branch: the new value, direction and number of steps.
unfoldable pub stepped_tick : (val floor ceiling : ℕ) → ℤ → (steps : ℕ) → ℕ × ℤ × ℕ
stepped_tick val floor ceiling direction steps =
    let n = if ltb steps 2 then 7 else steps in
    let range = step_range floor ceiling in
    let (idx, direction') = next_step (nearest_step val floor range n) direction n in
    (step_value floor range n idx, direction', n)

-- The smooth branch: the new value and direction. The comparison `val < ceiling - 1` is made in
-- `int`.
unfoldable pub smooth_tick : (val floor ceiling : ℕ) → ℤ → ℕ × ℤ
smooth_tick val floor ceiling direction =
    if ltb_ℤ (pos 0) direction
    then (if ltb (val + ramp_step_size) ceiling
        then ((val + ramp_step_size) % 256, direction)
        else (ceiling, negsuc 0))
    else if ltb_ℤ direction (pos 0)
    then (if ltb (floor + ramp_step_size) val
        then (val - ramp_step_size, direction)
        else (floor, pos 1))
    else (val, direction)

smooth_step : Ui → Ui
smooth_step u =
    let (val, direction) =
      smooth_tick u.current_brightness u.brightness_floor u.brightness_ceiling u.ramp_direction in
    record u { current_brightness = val; ramp_direction = direction }

-- Every style but the stepped one is smooth here.
brightness_tick : RampStyle → Ui → Ui
unfolding smooth_step
brightness_tick ramp_stepped u =
    let (val, direction, steps) =
      stepped_tick u.current_brightness u.brightness_floor u.brightness_ceiling u.ramp_direction
        u.stepped_ramp_steps in
    record u { current_brightness = val; ramp_direction = direction; stepped_ramp_steps = steps }
brightness_tick ramp_smooth u = smooth_step u
brightness_tick (ramp_unnamed _) u = smooth_step u

ramp_tick : ControlParam → Device → Device
unfolding brightness_tick smooth_step
ramp_tick param_brightness d =
    let moved = on_ui (λ u. brightness_tick u.current_ramp_style u) d in
    update_led_hardware moved.ui.current_brightness moved
ramp_tick param_frequency d =
    on_ui
      (λ u.
        let (val, direction) = smooth_tick u.strobe_frequency 1 255 u.ramp_direction in
        record u { strobe_frequency = val; ramp_direction = direction })
      d

unfoldable pub ramp_timer_handler : Device → Device
unfolding ramp_tick
ramp_timer_handler d = ramp_tick d.ui.active_param d

-- `step_ms`.
unfoldable pub ramp_step_ms : ControlParam → RampStyle → ℕ
ramp_step_ms param style =
    if is_brightness param
    then (if is_stepped style
        then 200
        else if ltb (brightness_sweep_ms / 255) 1
        then 1
        else brightness_sweep_ms / 255)
    else if ltb (strobe_sweep_ms / 255) 1
    then 1
    else strobe_sweep_ms / 255

unfoldable pub start_ramping : ℤ → Device → Device
unfolding ramp_step_ms
start_ramping direction = on_ui λ u.
    let step_ms = ramp_step_ms u.active_param u.current_ramp_style in
    record u {
      ramp_direction = direction;
      ramp_active = true;
      ramp_timer = started step_ms step_ms;
    }

memorize : Bool → Device → Device
memorize true d =
    d
    |> on_ui (λ u. record u { memorized_brightness = u.current_brightness })
    |> nvs_write_byte id_mem_brightness d.ui.current_brightness
memorize false d = d

unfoldable pub stop_ramping : Device → Device
unfolding memorize
stop_ramping d =
    d
    |> on_ui (λ u. record u { ramp_timer = stopped; ramp_direction = pos 0 })
    |> memorize (d.ui.ramp_active && is_brightness d.ui.active_param)
    |> on_ui (λ u. record u { ramp_active = false })
