-- ===== src/Aux/Pattern.antt =====
-- The light patterns of lib/aux_manager.c.
use native.Mathlib.Nat.{div-le_of_le-mul}
use zbeam.Base.{ℕ, ◌*◌, ◌/◌, ◌^◌, ◌≤◌, ◌<◌, ◌≡◌, refl, Bool, true, false, All, arith}
use zbeam.Kernel.{Call, set_aux_pulse}
use zbeam.Tables.Sine.{pwm_sine_table}
use zbeam.Tables.Shape.{pwm_sine_table-le}
use zbeam.Aux.{AuxMode, sine, sine_max_duty, aux_pulse, Aux, next_sine_index, aux_work_handler}

-- In every mode and at every tick the pulse is no longer than the period, if no entry of the table
-- is above its stated maximum.
pub aux_pulse-le :
    (table : ℕ → ℕ) (mode : AuxMode) (period ticks i : ℕ)
    → ((j : ℕ) → table j ≤ sine_max_duty)
    → aux_pulse table mode period ticks i ≤ period
unfolding aux_pulse
aux_pulse-le table sine period ticks i h =
    let top : table i * period ≤ sine_max_duty * period = let hi = h i in grind arith in
    let most : table i * period / sine_max_duty ≤ period = div-le_of_le-mul sine_max_duty top in
    omega arith
aux_pulse-le table _ period ticks i h = ground arith

-- A call that sets the LED's pulse to at most the period.
abbrev pub PulseIn : (period : ℕ) → Call → Type 0
PulseIn period (set_aux_pulse p) = p ≤ period
PulseIn period _ = ⊥

next_sine_index-byte : (mode : AuxMode) (ticks i : ℕ) → i < 256 → next_sine_index mode ticks i < 256
unfolding next_sine_index
next_sine_index-byte mode ticks i h = ground arith

-- With the generated sine table, in every mode, a tick of the LED's timer sets a pulse that is no
-- longer than the period, or none if the LED is not ready; and the place in the table, the tick
-- count and the period stay in the ranges of their types: 8 bits, 32 bits, unchanged.
pub aux_work_handler-PulseIn :
    (ready : Bool) (a : Aux)
    → a.sine_index < 256
    → let (b, calls) = aux_work_handler pwm_sine_table ready a in
      All (PulseIn a.period) calls
      × (b.sine_index < 256)
      × (b.ticks < 2 ^ 32)
      × (b.period ≡ a.period)
unfolding aux_work_handler
aux_work_handler-PulseIn true a h = (
  (aux_pulse-le pwm_sine_table a.current_mode a.period _ _ pwm_sine_table-le, tt),
  next_sine_index-byte a.current_mode _ a.sine_index h,
  omega arith,
  refl,
)
aux_work_handler-PulseIn false a h =
    (tt, next_sine_index-byte a.current_mode _ a.sine_index h, omega arith, refl)
