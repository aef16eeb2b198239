-- ===== src/Ui/Steps.antt =====
-- The stepped ramp of src/ui_actions.c.
use native.Mathlib.Nat.{div-le_of_le-mul}
use zbeam.Base.{
  ℕ, ◌+◌, ◌-◌, ◌*◌, ◌/◌, ◌%◌, ◌^◌, ◌≡◌, ◌<◌, ◌≤◌, refl, arith, ltb, leb, if◌then◌else◌,
}
use zbeam.Base.Int.{ℤ, pos, negsuc}
use zbeam.Ui.Device.{Device, ramp_stepped, param_brightness, light, pulses, update_led_hardware}
use zbeam.Ui.Ramp.{
  step_range, nearest_step, next_step, step_value, stepped_tick, ramp_timer_handler,
}

clamped-lt :
    (moved direction : ℤ) (steps : ℕ)
    → 0 < steps
    → (elim moved as (λ _. ℕ × ℤ) [
      | pos i ↦ (if leb steps i then (steps - 1, negsuc 0) else (i, direction))
      | negsuc _ ↦ (0, pos 1)
    ]).0
      < steps
clamped-lt (pos i) direction steps h = ground arith
clamped-lt (negsuc i) direction steps h = h

next_step-lt :
    (idx direction : ℤ) (steps : ℕ) → 0 < steps → (next_step idx direction steps).0 < steps
unfolding next_step
next_step-lt idx direction steps h = clamped-lt _ direction steps h

step_range-eq :
    (floor ceiling : ℕ)
    → floor < ceiling
    → ceiling < 256
    → step_range floor ceiling ≡ ceiling - floor
unfolding step_range
step_range-eq floor ceiling h k = ground arith

step_value-between :
    (floor range steps idx : ℕ)
    → idx < steps
    → 2 ≤ steps
    → steps < 256
    → floor + range < 256
    → (floor ≤ step_value floor range steps idx)
      × (step_value floor range steps idx ≤ floor + range)
unfolding step_value
step_value-between floor range steps idx h two s f =
    let up : idx * range ≤ (steps - 1) * range = grind arith in
    let small : (steps - 1) * range ≤ 255 * range = grind arith in
    let most : idx * range / (steps - 1) ≤ range = div-le_of_le-mul (steps - 1) up in
    let whole : idx * range % 2 ^ 32 ≡ idx * range = omega arith in rw whole (omega arith)

-- The steps that are used when the setting has less than two.
abbrev pub used_steps : ℕ → ℕ
used_steps steps = if ltb steps 2 then 7 else steps

used_steps-bounds : (steps : ℕ) → steps < 256 → (2 ≤ used_steps steps) × (used_steps steps < 256)
used_steps-bounds steps h = ground arith

stepped_tick-between :
    (val floor ceiling : ℕ) (direction : ℤ) (steps : ℕ)
    → floor < ceiling
    → ceiling < 256
    → steps < 256
    → (floor ≤ (stepped_tick val floor ceiling direction steps).0)
      × ((stepped_tick val floor ceiling direction steps).0 ≤ ceiling)
unfolding stepped_tick
stepped_tick-between val floor ceiling direction steps h k s =
    let n = used_steps steps in
    let (two, few) = used_steps-bounds steps s in
    let range = step_range-eq floor ceiling h k in
    let idx = nearest_step val floor (step_range floor ceiling) n in
    let between =
      step_value-between floor (step_range floor ceiling) n (next_step idx direction n).0
        (next_step-lt idx direction n (omega arith)) two few (omega (arith, range)) in
    omega (arith, between, range)

-- With the stepped ramp on the brightness, a floor below a ceiling that fits in a byte and less
-- than 256 steps, a tick from any brightness gives one between the floor and the ceiling, and its
-- light.
pub ramp_timer_handler-stepped :
    (d : Device)
    → d.ui.active_param ≡ param_brightness
    → d.ui.current_ramp_style ≡ ramp_stepped
    → d.ui.brightness_floor < d.ui.brightness_ceiling
    → d.ui.brightness_ceiling < 256
    → d.ui.stepped_ramp_steps < 256
    → let e = ramp_timer_handler d in
      (d.ui.brightness_floor ≤ e.ui.current_brightness)
      × (e.ui.current_brightness ≤ d.ui.brightness_ceiling)
      × (pulses e.calls ≡ light d e.ui.current_brightness)
unfolding ramp_timer_handler update_led_hardware
ramp_timer_handler-stepped d p q h k s =
    rw (p, q)
      (let (x, y) =
          stepped_tick-between d.ui.current_brightness d.ui.brightness_floor d.ui.brightness_ceiling
            d.ui.ramp_direction d.ui.stepped_ramp_steps h k s in
        (x, y, refl))
