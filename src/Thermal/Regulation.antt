-- ===== src/Thermal/Regulation.antt =====
-- What the loop of lib/thermal_manager.c does over a run of updates, and what the throttle does to
-- a brightness.
use zbeam.Base.{ℕ, ◌+◌, ◌-◌, ◌*◌, ◌≤◌, ◌≡◌, arith, List, [], ◌∷◌, length}
use zbeam.Base.Int.{pos, ◌-ℤ◌, ◌<ℤ◌}
use zbeam.Env.{SensorRead}
use zbeam.Thermal.{Gains, Thermal, read_sensor_temp, thermal_update, thermal_apply_throttle}
use zbeam.Thermal.Bounds.{thermal_update-rate, thermal_update-critical}

-- The updates for a list of sensor readings.
unfoldable pub updates : Gains → List SensorRead → Thermal → Thermal
updates g [] t = t
updates g (r ∷ rs) t = updates g rs (thermal_update g r t)

-- At each of the updates the reading, with the offset, is more than 10 degrees above the limit.
abbrev pub AllCritical : Gains → List SensorRead → Thermal → Type 0
AllCritical g [] t = Unit
AllCritical g (r ∷ rs) t =
    (pos 10000 <ℤ (read_sensor_temp r t -ℤ t.temp_limit_mc))
    × AllCritical g rs (thermal_update g r t)

critical-le :
    (g : Gains) (rs : List SensorRead) (t : Thermal)
    → 2 ≤ t.throttle_factor
    → t.throttle_factor ≤ 255
    → AllCritical g rs t
    → (2 ≤ (updates g rs t).throttle_factor)
      × ((updates g rs t).throttle_factor ≤ 2 + (t.throttle_factor - 2 - 5 * length rs))
unfolding updates
critical-le g [] t a b h = omega arith
critical-le g (r ∷ rs) t a b h =
    let rate = thermal_update-rate g r t a b in
    omega (
      arith,
      thermal_update-critical g r t b h.0,
      critical-le g rs (thermal_update g r t) rate.0 rate.1 h.1,
    )

-- After 51 updates or more in a row, each more than 10 degrees above the limit, the throttle
-- is at its minimum of 2, whatever it was between 2 and 255 and whatever the gains are.
pub critical-min :
    (g : Gains) (rs : List SensorRead) (t : Thermal)
    → 2 ≤ t.throttle_factor
    → t.throttle_factor ≤ 255
    → AllCritical g rs t
    → 51 ≤ length rs
    → (updates g rs t).throttle_factor ≡ 2
critical-min g rs t a b h n = omega (arith, critical-le g rs t a b h)

module _ (t : Thermal) (factor : t.throttle_factor ≤ 255) where
  -- For levels and a factor of at most 255, the throttle never brightens, keeps the order of
  -- two levels, gives the level itself at factor 255 and darkness at level 0.
  pub throttle-bounds :
      (a b : ℕ)
      → a ≤ b
      → b ≤ 255
      → (thermal_apply_throttle t b ≤ b)
        × (thermal_apply_throttle t a ≤ thermal_apply_throttle t b)
        × (t.throttle_factor ≡ 255 → thermal_apply_throttle t b ≡ b)
        × (thermal_apply_throttle t 0 ≡ 0)
  unfolding thermal_apply_throttle
  throttle-bounds a b h k =
      let up : a * t.throttle_factor ≤ b * t.throttle_factor = grind arith in
      let top : b * t.throttle_factor ≤ b * 255 = grind arith in
      (omega arith, omega arith, λ e. rw e (omega arith), omega arith)
