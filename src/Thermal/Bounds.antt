-- ===== src/Thermal/Bounds.antt =====
-- Bounds of one round of the PID loop of lib/thermal_manager.c.
use zbeam.Base.{ℕ, ◌+◌, ◌-◌, ◌≤◌, ◌≡◌, refl, arith}
use zbeam.Base.Int.{ℤ, pos, negsuc, ◌-ℤ◌, ◌≤ℤ◌, ◌<ℤ◌}
use zbeam.Env.{SensorRead}
use zbeam.Thermal.{
  Gains, Thermal, clamp, read_sensor_temp, next_integral, pid, factor_step, next_factor,
  thermal_update,
}

clamp-bounds : (lo hi x : ℤ) → lo ≤ℤ hi → (lo ≤ℤ clamp lo hi x) × (clamp lo hi x ≤ℤ hi)
unfolding clamp
clamp-bounds lo hi x h = ground arith

-- The step is at most 10 down and 2 up.
pub factor_step-bounds :
    (error adjustment : ℤ)
    → (negsuc 1 ≤ℤ factor_step error adjustment) × (factor_step error adjustment ≤ℤ pos 10)
unfolding factor_step
factor_step-bounds error adjustment = clamp-bounds (negsuc 1) (pos 10) _ (omega arith)

pub next_factor-bounds :
    (error change : ℤ) (old : ℕ)
    → (2 ≤ next_factor error change old) × (next_factor error change old ≤ 255)
unfolding next_factor
next_factor-bounds error change old = ground arith

pub next_factor-rate :
    (error change : ℤ) (old : ℕ)
    → 2 ≤ old
    → old ≤ 255
    → negsuc 1 ≤ℤ change
    → change ≤ℤ pos 10
    → (next_factor error change old ≤ old + 2) × (old ≤ next_factor error change old + 10)
unfolding next_factor
next_factor-rate error change old a b lo hi = ground arith

pub next_factor-critical :
    (error change : ℤ) (old : ℕ)
    → old ≤ 255
    → pos 10000 <ℤ error
    → next_factor error change old ≤ 2 + (old - 7)
unfolding next_factor
next_factor-critical error change old b hot = ground arith

module _ (g : Gains) (sensor : SensorRead) (t : Thermal) where
  -- How far the temperature is above the limit, as `thermal_update` computes it.
  abbrev pub error_of : ℤ
  error_of = read_sensor_temp sensor t -ℤ t.temp_limit_mc

  abbrev change_of : ℤ
  change_of =
      factor_step error_of
        (pid g error_of (next_integral error_of t.integral_error) (error_of -ℤ t.prev_error))

  update-factor :
      (thermal_update g sensor t).throttle_factor ≡ next_factor error_of change_of t.throttle_factor
  unfolding thermal_update
  update-factor = refl

  -- Whatever the sensor reads, an update keeps a throttle that is between 2 and 255 between
  -- 2 and 255, and raises it by at most 2 and lowers it by at most 10.
  pub thermal_update-rate :
      2 ≤ t.throttle_factor
      → t.throttle_factor ≤ 255
      → (2 ≤ (thermal_update g sensor t).throttle_factor)
        × ((thermal_update g sensor t).throttle_factor ≤ 255)
        × ((thermal_update g sensor t).throttle_factor ≤ t.throttle_factor + 2)
        × (t.throttle_factor ≤ (thermal_update g sensor t).throttle_factor + 10)
  thermal_update-rate a b = omega (
    arith,
    update-factor,
    next_factor-bounds error_of change_of t.throttle_factor,
    next_factor-rate error_of change_of t.throttle_factor a b (factor_step-bounds error_of _).0
        (factor_step-bounds error_of _).1,
  )

  -- More than 10 degrees above the limit an update takes at least 5 off a throttle of at
  -- most 255, down to 2.
  pub thermal_update-critical :
      t.throttle_factor ≤ 255
      → pos 10000 <ℤ error_of
      → (thermal_update g sensor t).throttle_factor ≤ 2 + (t.throttle_factor - 7)
  thermal_update-critical b hot =
      omega (arith, update-factor, next_factor-critical error_of change_of t.throttle_factor b hot)
