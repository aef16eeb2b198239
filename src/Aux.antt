-- ===== src/Aux.antt =====
-- lib/aux_manager.c: the auxiliary LED.
pub mod Pattern
use zbeam.Base.{
  ℕ, ◌+◌, ◌*◌, ◌/◌, ◌%◌, ◌^◌, Bool, true, false, List, [], ◌∷◌, ltb, leb, ◌==◌, if◌then◌else◌,
}
use zbeam.Kernel.{Timer, stopped, started, Call, set_aux_pulse}

-- `aux_mode_t`, with the numbers of its constants.
pub data AuxMode : Type 0 where
  off low high blink sine : AuxMode

-- The static variables, and the period of `aux_pwm`, which the device tree fixes.
pub record Aux : Type 0 where
  pub current_mode : AuxMode
  pub period : ℕ
  pub timer : Timer
  pub ticks : ℕ  -- uint32_t
  pub sine_index : ℕ  -- uint8_t

abbrev pub sine_max_duty : ℕ
sine_max_duty = 8191

-- `pulse_ns` of `aux_work_handler`, after the tick is counted. `table` is
-- `pwm_sine_table_13bit_g28`, which a script generates.
unfoldable pub aux_pulse : (table : ℕ → ℕ) → AuxMode → (period ticks sine_index : ℕ) → ℕ
aux_pulse table off period ticks sine_index = 0
aux_pulse table low period ticks sine_index = period / 10
aux_pulse table high period ticks sine_index = period
aux_pulse table blink period ticks sine_index = if ltb (ticks % 300) 10 then period else 0
aux_pulse table sine period ticks sine_index = table sine_index * period / sine_max_duty % 2 ^ 32

is_sine : AuxMode → Bool
is_sine sine = true
is_sine _ = false

-- The new `sine_index`: a step every third tick in AUX_SINE.
unfoldable pub next_sine_index : AuxMode → (ticks sine_index : ℕ) → ℕ
unfolding is_sine
next_sine_index mode ticks sine_index =
    if is_sine mode
    then (if ticks % 3 == 0 then (sine_index + 1) % 256 else sine_index)
    else sine_index

-- The new state and the calls made; `ready` is `device_is_ready(aux_pwm.dev)`.
unfoldable pub aux_work_handler : (table : ℕ → ℕ) → (ready : Bool) → Aux → Aux × List Call
unfolding aux_pulse next_sine_index
aux_work_handler table ready a =
    let ticks = (a.ticks + 1) % 2 ^ 32 in
    let sine_index = next_sine_index a.current_mode ticks a.sine_index in
    let pulse_ns = aux_pulse table a.current_mode a.period ticks sine_index in
    (
      record a { ticks = ticks; sine_index = sine_index },
      if ready then set_aux_pulse pulse_ns ∷ [] else [],
    )

-- The new state and the calls made.
unfoldable pub aux_init : (ready : Bool) → Aux → Aux × List Call
aux_init ready a =
    if ready
    then (record a { timer = started 10 10; current_mode = off }, set_aux_pulse 0 ∷ [])
    else (a, [])

-- The mode of a number; one from AUX_MODE_COUNT on is taken as AUX_OFF.
unfoldable pub mode_of : ℕ → AuxMode
mode_of mode =
    if mode == 1
    then low
    else if mode == 2
    then high
    else if mode == 3
    then blink
    else if mode == 4
    then sine
    else off

unfoldable pub aux_set_mode : ℕ → Aux → Aux
unfolding mode_of
aux_set_mode mode a = record a { current_mode = mode_of mode }

-- `(current_mode + 1) % AUX_MODE_COUNT`.
unfoldable pub next_mode : AuxMode → AuxMode
next_mode off = low
next_mode low = high
next_mode high = blink
next_mode blink = sine
next_mode sine = off

unfoldable pub aux_cycle_mode : Aux → Aux
unfolding next_mode
aux_cycle_mode a = record a { current_mode = next_mode a.current_mode }
