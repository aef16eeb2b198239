-- ===== src/Pwm.antt =====
-- include/pwm_ramp.h and its three implementations, src/pwm_ramp_generic.c, src/pwm_ramp_esp32.c
-- and src/pwm_ramp_dma.c. Each has its own copy of the same three static variables.
pub mod Gpio
pub mod Generic
pub mod Esp32
pub mod Dma
pub mod Contract
pub mod Refine
pub mod DmaRun
pub mod Levels
pub mod GenericSteps
pub mod GenericRun
pub mod Esp32Steps
pub mod Esp32Run
use zbeam.Base.{ℕ, Bool, false, Option, none, List, [], ◌∷◌}

-- `struct pwm_dt_spec`, as far as it is used: whether its device is ready, and its period in ns.
pub record PwmSpec : Type 0 where
  pub ready : Bool
  pub period : ℕ  -- uint32_t

-- The calls of the drivers.
pub data PwmCall : Type 0 where
  set_pwm : (period pulse : ℕ) → PwmCall
  sleep_ms : ℕ → PwmCall
  -- `configure_gpio_for_ledc`
  route_gpio : PwmCall

-- The static variables, and the calls made so far, newest first.
pub record Ramp : Type 0 where
  pub pwm_dev : Option PwmSpec
  pub current_brightness : ℕ  -- uint8_t
  pub ramp_active : Bool
  pub calls : List PwmCall

-- Their initial values.
abbrev pub ramp_reset : Ramp
ramp_reset = record { pwm_dev = none; current_brightness = 0; ramp_active = false; calls = [] }

abbrev pub call_out : PwmCall → Ramp → Ramp
call_out c r = record r { calls = c ∷ r.calls }
