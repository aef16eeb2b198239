-- ===== src/Kernel.antt =====
-- What the firmware asks of Zephyr, as data: software timers, and the calls that leave the program.
use zbeam.Base.{ℕ, Bool, true, false, List}
use zbeam.Base.Int.{ℤ, negsuc}

-- The request last made of a `k_timer`: `k_timer_stop`, or `k_timer_start` with a delay and a
-- period in milliseconds (`K_NO_WAIT` is 0).
pub data Timer : Type 0 where
  stopped : Timer
  started : (delay period : ℕ) → Timer

abbrev pub runs : Timer → Bool
runs stopped = false
runs (started _ _) = true

-- A call of a driver or of the kernel whose result the caller does not use.
pub data Call : Type 0 where
  -- One `pwm_set_pulse_dt` for each emitter, in their order.
  set_pulses : List ℕ → Call
  set_aux_pulse : ℕ → Call
  sleep : ℕ → Call
  write_byte : (id value : ℕ) → Call
  delete_id : ℕ → Call
  reboot : Call

-- -ENOENT, -ENODEV and -ENOTSUP.
abbrev pub enoent : ℤ
enoent = negsuc 1

abbrev pub enodev : ℤ
enodev = negsuc 18

abbrev pub enotsup : ℤ
enotsup = negsuc 133
