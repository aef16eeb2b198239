-- ===== src/Thermal.antt =====
-- lib/thermal_manager.c: the temperature, the PID loop and the throttle.
-- The `int32_t` arithmetic is that of the integers: signed overflow is undefined in C.
pub mod Bounds
pub mod Failure
pub mod Regulation
use zbeam.Base.{
  ℕ, ◌+◌, ◌-◌, ◌*◌, ◌/◌, ◌%◌, ◌<◌, Bool, true, false, ◌&&◌, ltb, ◌==◌, if◌then◌else◌, ◌|>◌,
}
use zbeam.Base.Int.{ℤ, pos, negsuc, ◌+ℤ◌, ◌-ℤ◌, ◌*ℤ◌, quot, abs, ltb_ℤ, wrap}
use zbeam.Env.{SensorRead, not_ready, fetch_failed, get_failed, sample}
use zbeam.Nvs.{nvs_read_byte, is_ok, id_thermal_limit, id_temp_calib_offset}

-- CONFIG_ZBEAM_PID_KP, _KI and _KD, in hundredths.
pub record Gains : Type 0 where
  pub kp : ℕ
  pub ki : ℕ
  pub kd : ℕ

-- The Kconfig defaults.
abbrev pub default_gains : Gains
default_gains = record { kp = 50; ki = 2; kd = 100 }

-- The static variables.
pub record Thermal : Type 0 where
  pub integral_error : ℤ
  pub prev_error : ℤ
  pub current_temp_mc : ℤ
  pub throttle_factor : ℕ  -- uint8_t
  pub temp_limit_mc : ℤ
  pub temp_offset_mc : ℤ

-- Their initial values, for CONFIG_ZBEAM_THERMAL_LIMIT_DEFAULT.
abbrev pub thermal_reset : ℕ → Thermal
thermal_reset limit_default = record {
  integral_error = pos 0;
  prev_error = pos 0;
  current_temp_mc = pos 25000;
  throttle_factor = 255;
  temp_limit_mc = pos (limit_default * 1000);
  temp_offset_mc = pos 0;
}

init_limit : (ℕ → ℤ × ℕ) → Thermal → Thermal
unfolding nvs_read_byte
init_limit driver t =
    let (rc, stored_limit) = nvs_read_byte driver id_thermal_limit 0 in
    if is_ok rc then record t { temp_limit_mc = pos (stored_limit * 1000) } else t

init_offset : (ℕ → ℤ × ℕ) → Thermal → Thermal
unfolding nvs_read_byte ◌-ℤ◌ ◌*ℤ◌
init_offset driver t =
    let (rc, stored_offset) = nvs_read_byte driver id_temp_calib_offset 0 in
    if is_ok rc then record t { temp_offset_mc = (pos stored_offset -ℤ pos 100) *ℤ pos 1000 } else t

unfoldable pub thermal_init : (ℕ → ℤ × ℕ) → Thermal → Thermal
unfolding init_limit init_offset
thermal_init driver t = t |> init_limit driver |> init_offset driver

unfoldable pub read_sensor_temp : SensorRead → Thermal → ℤ
unfolding ◌+ℤ◌ ◌*ℤ◌ quot
read_sensor_temp not_ready t = pos 25000
read_sensor_temp fetch_failed t = pos 25000
read_sensor_temp get_failed t = pos 25000
read_sensor_temp (sample val1 val2) t = val1 *ℤ pos 1000 +ℤ quot val2 1000 +ℤ t.temp_offset_mc

-- `if (x > hi) x = hi; if (x < lo) x = lo;`
unfoldable pub clamp : ℤ → ℤ → ℤ → ℤ
clamp lo hi x = let y = if ltb_ℤ hi x then hi else x in if ltb_ℤ y lo then lo else y

-- The integral term: only near the setpoint, and clamped.
unfoldable pub next_integral : ℤ → ℤ → ℤ
unfolding ◌+ℤ◌ abs clamp
next_integral error old =
    clamp (negsuc 19999) (pos 20000) (if ltb (abs error) 5000 then old +ℤ error else pos 0)

unfoldable pub pid : Gains → (error integral derivative : ℤ) → ℤ
pid g error integral derivative =
    quot (error *ℤ pos g.kp) 100
    +ℤ quot (integral *ℤ pos g.ki) 100
    +ℤ quot (derivative *ℤ pos g.kd) 100

-- From the PID's output to the change of the factor: scaled, at least one step when far from the
-- setpoint, at most 10 down and 2 up.
unfoldable pub nudge : (error change : ℤ) → ℤ
unfolding abs
nudge error change =
    if ltb 5000 (abs error) && (abs change == 0)
    then (if ltb_ℤ (pos 0) error then pos 1 else negsuc 0)
    else change

unfoldable pub factor_step : (error adjustment : ℤ) → ℤ
factor_step error adjustment = clamp (negsuc 1) (pos 10) (nudge error (quot adjustment 1000))

-- The new factor, forced down when critically hot, and clamped.
unfoldable pub next_factor : (error change : ℤ) → ℕ → ℕ
unfolding ◌-ℤ◌ wrap clamp
next_factor error change old =
    let stepped = pos old -ℤ change in
    let least = pos old -ℤ pos 5 in
    let forced = if ltb_ℤ (pos 10000) error && ltb_ℤ least stepped then least else stepped in
    wrap 256 (clamp (pos 2) (pos 255) forced)

unfoldable pub thermal_update : Gains → SensorRead → Thermal → Thermal
thermal_update g sensor t =
    let temp = read_sensor_temp sensor t in
    let error = temp -ℤ t.temp_limit_mc in
    let integral = next_integral error t.integral_error in
    let derivative = error -ℤ t.prev_error in
    let change = factor_step error (pid g error integral derivative) in
    record t {
      current_temp_mc = temp;
      integral_error = integral;
      prev_error = error;
      throttle_factor = next_factor error change t.throttle_factor;
    }

unfoldable pub thermal_apply_throttle : Thermal → ℕ → ℕ
thermal_apply_throttle t requested_brightness = requested_brightness * t.throttle_factor / 255 % 256

unfoldable pub thermal_get_temp_mc : Thermal → ℤ
thermal_get_temp_mc t = t.current_temp_mc

-- The byte in which the offset is stored.
unfoldable pub stored_offset : ℤ → ℕ
unfolding quot ◌+ℤ◌ wrap clamp
stored_offset offset = wrap 256 (clamp (pos 0) (pos 255) (quot offset 1000 +ℤ pos 100))

-- The new state, and the byte written to NVS_ID_TEMP_CALIB_OFFSET.
unfoldable pub thermal_calibrate_current_temp : SensorRead → ℤ → Thermal → Thermal × ℕ
unfolding read_sensor_temp stored_offset ◌-ℤ◌ ◌*ℤ◌
thermal_calibrate_current_temp sensor known_current_c t =
    let zeroed = record t { temp_offset_mc = pos 0 } in
    let raw_current = read_sensor_temp sensor zeroed in
    let offset = known_current_c *ℤ pos 1000 -ℤ raw_current in
    (record zeroed { temp_offset_mc = offset }, stored_offset offset)

-- The new state, and the byte written to NVS_ID_THERMAL_LIMIT.
unfoldable pub thermal_set_limit : ℕ → Thermal → Thermal × ℕ
thermal_set_limit limit_c t = (record t { temp_limit_mc = pos (limit_c * 1000) }, limit_c)
