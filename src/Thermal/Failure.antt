-- ===== src/Thermal/Failure.antt =====
-- What lib/thermal_manager.c does while its sensor fails: the reading is then taken as 25 degrees.
use zbeam.Base.{ℕ, ◌+◌, ◌≤◌, ◌≡◌, ◌⊎◌, refl, inr, arith, List, [], ◌∷◌, length, All}
use zbeam.Base.Int.{ℤ, pos, negsuc, ◌-ℤ◌, ◌*ℤ◌, ◌<ℤ◌, ◌≤ℤ◌, quot, +ℤ_parts, -ℤ_parts}
use zbeam.Env.{SensorRead, not_ready, fetch_failed, get_failed}
use zbeam.Thermal.{
  Gains, Thermal, read_sensor_temp, clamp, nudge, factor_step, pid, next_integral, next_factor,
  thermal_update,
}
use zbeam.Thermal.Bounds.{thermal_update-rate}
use zbeam.Thermal.Regulation.{updates}

-- A reading that fails.
pub data Fails : SensorRead → Type 0 where
  by_device : Fails not_ready
  by_fetch : Fails fetch_failed
  by_get : Fails get_failed

Fails-read : {r : SensorRead} (t : Thermal) → Fails r → read_sensor_temp r t ≡ pos 25000
unfolding read_sensor_temp
Fails-read t by_device = refl
Fails-read t by_fetch = refl
Fails-read t by_get = refl

-- The term of a gain has the sign of what it multiplies.
gain-le : (e : ℤ) (k : ℕ) → e ≤ℤ pos 0 → quot (e *ℤ pos k) 100 ≤ℤ pos 0
unfolding quot ◌*ℤ◌
gain-le (pos n) k h = ground arith
gain-le (negsuc n) k h = ground arith

pid-le : (g : Gains) (e i d : ℤ) → e ≤ℤ pos 0 → i ≤ℤ pos 0 → d ≤ℤ pos 0 → pid g e i d ≤ℤ pos 0
unfolding pid
pid-le g e i d he hi hd =
    omega (arith, +ℤ_parts, gain-le e g.kp he, gain-le i g.ki hi, gain-le d g.kd hd)

integral_far : (e old : ℤ) → e <ℤ negsuc 4999 → next_integral e old ≡ pos 0
unfolding next_integral
integral_far e old h = ground arith

step-le : (e a : ℤ) → e <ℤ negsuc 4999 → a ≤ℤ pos 0 → factor_step e a ≤ℤ negsuc 0
unfolding factor_step nudge quot clamp
step-le e (pos n) h k = ground arith
step-le e (negsuc n) h k = ground arith

factor-up :
    (e c : ℤ) (old : ℕ)
    → old ≤ 255
    → e <ℤ negsuc 4999
    → c ≤ℤ negsuc 0
    → (next_factor e c old ≡ 255) ⊎ (old + 1 ≤ next_factor e c old)
unfolding next_factor
factor-up e c old b h k = ground arith

-- The last error is that of a failed reading.
abbrev IsSteady : Thermal → Type 0
IsSteady t = t.prev_error ≡ pos 25000 -ℤ t.temp_limit_mc

module _ (g : Gains) {r : SensorRead} (t : Thermal) (f : Fails r) where
  failed-keeps :
      IsSteady (thermal_update g r t) × ((thermal_update g r t).temp_limit_mc ≡ t.temp_limit_mc)
  unfolding thermal_update
  failed-keeps = (rw (Fails-read t f), refl)

  failed-up :
      pos 30000 <ℤ t.temp_limit_mc
      → IsSteady t
      → t.throttle_factor ≤ 255
      → ((thermal_update g r t).throttle_factor ≡ 255)
        ⊎ (t.throttle_factor + 1 ≤ (thermal_update g r t).throttle_factor)
  unfolding thermal_update
  failed-up hot steady b =
      let e = pos 25000 -ℤ t.temp_limit_mc in
      let cold : e <ℤ negsuc 4999 = omega (arith, -ℤ_parts (pos 25000) t.temp_limit_mc) in
      rw (Fails-read t f, steady)
        (factor-up e _ t.throttle_factor b cold (
          step-le e _ cold (
            pid-le g e _ _ (omega arith) (rw (integral_far e t.integral_error cold) (omega arith))
              (omega (arith, -ℤ_parts e e)))))

failed-le :
    (g : Gains) (rs : List SensorRead) (t : Thermal)
    → All Fails rs
    → pos 30000 <ℤ t.temp_limit_mc
    → IsSteady t
    → 2 ≤ t.throttle_factor
    → t.throttle_factor ≤ 255
    → ((updates g rs t).throttle_factor ≤ 255)
      × (((updates g rs t).throttle_factor ≡ 255)
          ⊎ (t.throttle_factor + length rs ≤ (updates g rs t).throttle_factor))
unfolding updates
failed-le g [] t f hot steady a b = (b, inr (omega arith))
failed-le g (r ∷ rs) t f hot steady a b =
    let keeps = failed-keeps g t f.0 in
    let rate = thermal_update-rate g r t a b in
    let hot' : pos 30000 <ℤ (thermal_update g r t).temp_limit_mc = rw keeps.1 hot in
    ground (
      arith,
      failed-up g t f.0 hot steady b,
      failed-le g rs (thermal_update g r t) f.1 hot' keeps.0 rate.0 rate.1,
    )

-- If the limit is above 30 degrees, 254 updates or more in a row with a failing sensor end at
-- full throttle, whatever the factor was between 2 and 255 and whatever the gains are.
pub failing-full :
    (g : Gains) (r : SensorRead) (rs : List SensorRead) (t : Thermal)
    → Fails r
    → All Fails rs
    → pos 30000 <ℤ t.temp_limit_mc
    → 2 ≤ t.throttle_factor
    → t.throttle_factor ≤ 255
    → 253 ≤ length rs
    → (updates g (r ∷ rs) t).throttle_factor ≡ 255
unfolding updates
failing-full g r rs t f fs hot a b n =
    let keeps = failed-keeps g t f in
    let rate = thermal_update-rate g r t a b in
    let hot' : pos 30000 <ℤ (thermal_update g r t).temp_limit_mc = rw keeps.1 hot in
    omega (arith, failed-le g rs (thermal_update g r t) fs hot' keeps.0 rate.0 rate.1)
