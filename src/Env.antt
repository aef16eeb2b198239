-- ===== src/Env.antt =====
-- What the firmware reads from outside: the clock, random numbers, the temperature sensor, the ADC
-- and the non-volatile storage. Each is an argument of the definitions that use it.
use zbeam.Base.{ℕ, Bool}
use zbeam.Base.Int.{ℤ}

-- The result of `device_is_ready`, `sensor_sample_fetch` and `sensor_channel_get`, in that order;
-- a `struct sensor_value` is a whole part and millionths.
pub data SensorRead : Type 0 where
  not_ready fetch_failed get_failed : SensorRead
  sample : (val1 val2 : ℤ) → SensorRead

-- The result of `adc_is_ready_dt` and `adc_read_dt`, and what `adc_raw_to_millivolts_dt` makes of
-- the raw value.
pub data AdcRead : Type 0 where
  adc_not_ready adc_failed : AdcRead
  millivolts : ℤ → AdcRead

pub record Env : Type 0 where
  -- `k_uptime_get`
  pub uptime : ℕ
  -- the results of `sys_rand32_get`, in the order of the calls
  pub random : ℕ → ℕ
  pub sensor : SensorRead
  pub adc : AdcRead
  -- `zbeam,battery-divider-factor` of the device tree
  pub divider : ℕ
  -- `nvs_read` of one byte: the return code, and the byte if that is positive
  pub nvs_read : ℕ → ℤ × ℕ
  -- the same before `nvs_mount`
  pub nvs_read_unmounted : ℕ → ℤ × ℕ
  -- `device_is_ready` of the AUX LED's PWM
  pub aux_ready : Bool
