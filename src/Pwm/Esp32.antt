-- ===== src/Pwm/Esp32.antt =====
-- src/pwm_ramp_esp32.c: the ramp with steps between which the hardware fades.
use zbeam.Base.{
  ℕ, zero, suc, ◌+◌, ◌-◌, ◌*◌, ◌/◌, ◌%◌, ◌^◌, Bool, true, false, Option, none, some, List, ltb,
  ◌==◌, if◌then◌else◌, ◌|>◌,
}
use zbeam.Base.Int.{ℤ, pos}
use zbeam.Tables.Ramp.{pwm_ramp_table, ramp_table_max_duty}
use zbeam.Kernel.{enodev}
use zbeam.Pwm.{PwmSpec, Ramp, set_pwm, sleep_ms, route_gpio, call_out}
use zbeam.Pwm.Gpio.{ledc_writes}
use zbeam.Pwm.Generic.{distance}

-- PWM_PERIOD_NS.
abbrev pub pwm_period_ns : ℕ
pwm_period_ns = 200000

-- CONFIG_PWM_RAMP_INTERPOLATION_STEP.
abbrev pub interpolation_step : ℕ
interpolation_step = 8

abbrev pub gpio8_func_out_sel_reg : ℕ
gpio8_func_out_sel_reg = 1610630516

-- The register writes that `route_gpio` stands for.
unfoldable pub configure_gpio_for_ledc : (register : ℕ → ℕ) → List (ℕ × ℕ)
unfolding ledc_writes
configure_gpio_for_ledc register = ledc_writes 8 gpio8_func_out_sel_reg register

unfoldable pub brightness_to_pulse_ns : ℕ → ℕ
brightness_to_pulse_ns brightness =
    pwm_ramp_table brightness * pwm_period_ns % 2 ^ 32 / ramp_table_max_duty

unfoldable pub pwm_ramp_init : PwmSpec → Ramp → ℤ × Ramp
pwm_ramp_init spec r =
    if spec.ready
    then (
      pos 0,
      call_out route_gpio
          (record r { pwm_dev = some spec; current_brightness = 0; ramp_active = false }),
    )
    else (enodev, r)

unfoldable pub set_on : Option PwmSpec → ℕ → Ramp → Ramp
set_on none brightness r = r
set_on (some dev) brightness r =
    record (call_out (set_pwm pwm_period_ns (brightness_to_pulse_ns brightness)) r) {
      current_brightness = brightness;
    }

unfoldable pub pwm_ramp_set_brightness : ℕ → Ramp → Ramp
unfolding set_on
pwm_ramp_set_brightness brightness r = set_on r.pwm_dev brightness r

unfoldable pub pwm_ramp_is_active : Ramp → Bool
pwm_ramp_is_active r = r.ramp_active

unfoldable pub pwm_ramp_stop : Ramp → Ramp
pwm_ramp_stop r = record r { ramp_active = false }

unfoldable pub pwm_ramp_get_brightness : Ramp → ℕ
pwm_ramp_get_brightness r = r.current_brightness

-- `next_idx`. Falling, a negative number is below `end`, or is 0 here where `end` is 0.
unfoldable pub next_idx : (rising : Bool) → (end_ i : ℕ) → ℕ
next_idx true end_ i = let next = i + interpolation_step in if ltb end_ next then end_ else next
next_idx false end_ i = let next = i - interpolation_step in if ltb next end_ then end_ else next

-- The loop's condition.
abbrev pub goes_on : (rising : Bool) → (end_ i : ℕ) → Bool
goes_on rising end_ i = if rising then ltb i end_ else ltb end_ i

-- `total_steps`.
abbrev pub total_steps : (target start : ℕ) → ℕ
total_steps target start = (distance target start + interpolation_step - 1) / interpolation_step

unfoldable pub finish : ℕ → Option Ramp → Option (ℤ × Ramp)
finish target none = none
finish target (some r) =
    some (pos 0, record (pwm_ramp_set_brightness target r) { ramp_active = false })

-- `stops k` says whether another thread calls `pwm_ramp_stop` in the sleep of round `k`.
module _ (stops : ℕ → Bool) where
  -- One round: the level is set, then the sleep.
  unfoldable pub ramp_round : (delay k next : ℕ) → Ramp → Ramp
  ramp_round delay k next r =
      let slept = r |> pwm_ramp_set_brightness next |> call_out (sleep_ms delay) in
      record (if stops k then pwm_ramp_stop slept else slept) { current_brightness = next }

  -- The loop from round `k` on; `none` means that the fuel runs out.
  unfoldable pub ramp_loop :
      (fuel delay : ℕ) → (rising : Bool) → (end_ k i : ℕ) → Ramp → Option Ramp
  ramp_loop zero delay rising end_ k i r = if goes_on rising end_ i then none else some r
  ramp_loop (suc fuel) delay rising end_ k i r = elim (goes_on rising end_ i) [
    | false ↦ some r
    | true ↦
        let r1 = ramp_round delay k (next_idx rising end_ i) r in
        elim r1.ramp_active [
          | true ↦
              ramp_loop fuel delay rising end_ (suc k)
                (if rising then i + interpolation_step else i - interpolation_step) r1
          | false ↦ some r1
        ]
  ]

  unfoldable pub start_on : Option PwmSpec → (target duration_ms : ℕ) → Ramp → Option (ℤ × Ramp)
  start_on none target duration_ms r = some (enodev, r)
  start_on (some dev) target duration_ms r =
      let active = record r { ramp_active = true } in
      let start = r.current_brightness in
      let steps = total_steps target start in
      if steps == 0
      then some (pos 0, record (pwm_ramp_set_brightness target active) { ramp_active = false })
      else finish target
          (ramp_loop 32 (duration_ms / steps) (ltb start target) target 0 start active)

  -- The result and the new state. 32 rounds of 8 levels are enough.
  unfoldable pub pwm_ramp_start : (target duration_ms : ℕ) → Ramp → Option (ℤ × Ramp)
  unfolding finish start_on
  pwm_ramp_start target duration_ms r = start_on r.pwm_dev target duration_ms r
