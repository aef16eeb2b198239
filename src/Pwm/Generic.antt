-- ===== src/Pwm/Generic.antt =====
-- src/pwm_ramp_generic.c: the ramp as a loop over the table.
use zbeam.Base.{
  ℕ, zero, suc, ◌+◌, ◌-◌, ◌*◌, ◌/◌, ◌%◌, ◌^◌, Bool, true, false, Option, none, some, ltb, ◌==◌,
  if◌then◌else◌, ◌|>◌,
}
use zbeam.Base.Int.{ℤ, pos}
use zbeam.Tables.Ramp.{pwm_ramp_table, ramp_table_max_duty}
use zbeam.Kernel.{enodev}
use zbeam.Pwm.{PwmSpec, Ramp, set_pwm, sleep_ms, call_out}

-- The product is a uint64_t, the result a uint32_t.
unfoldable pub brightness_to_pulse_ns : (period brightness : ℕ) → ℕ
brightness_to_pulse_ns period brightness =
    pwm_ramp_table brightness * period / ramp_table_max_duty % 2 ^ 32

unfoldable pub pwm_ramp_init : PwmSpec → Ramp → ℤ × Ramp
pwm_ramp_init spec r =
    if spec.ready
    then (pos 0, record r { pwm_dev = some spec; current_brightness = 0; ramp_active = false })
    else (enodev, r)

unfoldable pub set_on : Option PwmSpec → ℕ → Ramp → Ramp
set_on none brightness r = r
set_on (some dev) brightness r =
    record (call_out (set_pwm dev.period (brightness_to_pulse_ns dev.period brightness)) r) {
      current_brightness = brightness;
    }

unfoldable pub pwm_ramp_set_brightness : ℕ → Ramp → Ramp
unfolding set_on
pwm_ramp_set_brightness brightness r = set_on r.pwm_dev brightness r

unfoldable pub pwm_ramp_is_active : Ramp → Bool
pwm_ramp_is_active r = r.ramp_active

unfoldable pub pwm_ramp_stop : Ramp → Ramp
pwm_ramp_stop r = record r { ramp_active = false }

unfoldable pub pwm_ramp_get_brightness : Ramp → ℕ
pwm_ramp_get_brightness r = r.current_brightness

-- `abs(a - b)`.
abbrev pub distance : ℕ → ℕ → ℕ
distance a b = (a - b) + (b - a)

-- `step_delay_ms`.
unfoldable pub step_delay : (duration_ms steps : ℕ) → ℕ
step_delay duration_ms steps = let delay = duration_ms / steps in if ltb delay 1 then 1 else delay

unfoldable pub finish : ℕ → Option Ramp → Option (ℤ × Ramp)
finish target none = none
finish target (some r) =
    some (pos 0, record (pwm_ramp_set_brightness target r) { ramp_active = false })

-- `stops k` says whether another thread calls `pwm_ramp_stop` in the sleep of round `k`.
module _ (stops : ℕ → Bool) where
  -- One round: the level is set, then the sleep.
  unfoldable pub ramp_round : (delay k i : ℕ) → Ramp → Ramp
  ramp_round delay k i r =
      let slept = r |> pwm_ramp_set_brightness i |> call_out (sleep_ms delay) in
      if stops k then pwm_ramp_stop slept else slept

  -- `for (int i = start; i != end; i += direction)`, from round `k` on; `none` means that the fuel
  -- runs out. Falling, `i` is above `end` before each subtraction.
  unfoldable pub ramp_loop :
      (fuel delay : ℕ) → (rising : Bool) → (end_ k i : ℕ) → Ramp → Option Ramp
  ramp_loop zero delay rising end_ k i r = if i == end_ then some r else none
  ramp_loop (suc fuel) delay rising end_ k i r = elim (i == end_) [
    | true ↦ some r
    | false ↦
        let r1 = ramp_round delay k i r in
        elim r1.ramp_active [
          | true ↦ ramp_loop fuel delay rising end_ (suc k) (if rising then i + 1 else i - 1) r1
          | false ↦ some r1
        ]
  ]

  unfoldable pub start_on : Option PwmSpec → (target duration_ms : ℕ) → Ramp → Option (ℤ × Ramp)
  start_on none target duration_ms r = some (enodev, r)
  start_on (some dev) target duration_ms r =
      let active = record r { ramp_active = true } in
      let start = r.current_brightness in
      let steps = distance target start in
      if steps == 0
      then some (pos 0, record active { ramp_active = false })
      else finish target
          (ramp_loop 255 (step_delay duration_ms steps) (ltb start target) target 0 start active)

  -- The result and the new state. No two levels are more than 255 apart, so 255 rounds are enough.
  unfoldable pub pwm_ramp_start : (target duration_ms : ℕ) → Ramp → Option (ℤ × Ramp)
  unfolding finish start_on
  pwm_ramp_start target duration_ms r = start_on r.pwm_dev target duration_ms r
