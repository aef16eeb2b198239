-- ===== src/Examples/Power.antt =====
-- The temperature and the battery at concrete readings.
use zbeam.Base.{ℕ, zero, suc, ◌+◌, ◌≤◌, ◌≡◌, refl, arith, ◌∷◌, replicate, All}
use zbeam.Base.Int.{pos, ◌-ℤ◌}
use zbeam.Env.{SensorRead, sample, not_ready, fetch_failed}
use zbeam.Thermal.{Thermal, default_gains, thermal_reset, thermal_update, read_sensor_temp}
use zbeam.Thermal.Bounds.{thermal_update-rate}
use zbeam.Thermal.Regulation.{updates, AllCritical, critical-min}
use zbeam.Thermal.Failure.{Fails, by_device, by_fetch, failing-full}
use zbeam.Batt.{batt_read_voltage_mv, batt_calibrate_voltage, divided_mv}
use zbeam.Batt.Accuracy.{calibrate-accurate}
use zbeam.Examples.Lamp.{env, lamp}

-- 60 degrees, with the limit at 45.
abbrev hot : SensorRead
hot = sample (pos 60) (pos 0)

abbrev cool : Thermal
cool = thermal_reset 45

thermal_update-rate_example :
    (2 ≤ (thermal_update default_gains hot cool).throttle_factor)
    × ((thermal_update default_gains hot cool).throttle_factor ≤ 255)
    × ((thermal_update default_gains hot cool).throttle_factor ≤ 257)
    × (255 ≤ (thermal_update default_gains hot cool).throttle_factor + 10)
thermal_update-rate_example = thermal_update-rate default_gains hot cool (omega arith) (omega arith)

replicate-AllCritical :
    (n : ℕ) (t : Thermal)
    → t.temp_limit_mc ≡ pos 45000
    → t.temp_offset_mc ≡ pos 0
    → AllCritical default_gains (replicate n hot) t
unfolding thermal_update read_sensor_temp ◌-ℤ◌
replicate-AllCritical zero t p q = tt
replicate-AllCritical (suc n) t p q =
    (rw (p, q) (omega arith), replicate-AllCritical n (thermal_update default_gains hot t) p q)

critical-min_example : (updates default_gains (replicate 51 hot) cool).throttle_factor ≡ 2
critical-min_example =
    critical-min default_gains (replicate 51 hot) cool (omega arith) (omega arith)
      (replicate-AllCritical 51 cool refl refl) (omega arith)

replicate-Fails : (n : ℕ) → All Fails (replicate n fetch_failed)
replicate-Fails zero = tt
replicate-Fails (suc n) = (by_fetch, replicate-Fails n)

-- At the minimum.
abbrev dimmed : Thermal
dimmed = record cool { throttle_factor = 2 }

failing-full_example :
    (updates default_gains (not_ready ∷ replicate 253 fetch_failed) dimmed).throttle_factor ≡ 255
failing-full_example =
    failing-full default_gains not_ready (replicate 253 fetch_failed) dimmed by_device
      (replicate-Fails 253) (omega arith) (omega arith) (omega arith) (omega arith)

-- 600 mV at the ADC and a divider of 6 are 3600 mV.
calibrate-accurate_example :
    let read = batt_read_voltage_mv env (batt_calibrate_voltage env 3730 lamp.batt) in
    (3730 ≤ read + 50) × (read ≤ 3730 + 50)
unfolding divided_mv
calibrate-accurate_example =
    calibrate-accurate env (pos 600) lamp.batt 3730 refl (omega arith) (omega arith) (omega arith)
      (omega arith) (omega arith)
