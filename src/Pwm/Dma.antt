-- ===== src/Pwm/Dma.antt =====
-- src/pwm_ramp_dma.c: a stub, which sets no pulse.
use zbeam.Base.{ℕ, Bool, false, some, if◌then◌else◌}
use zbeam.Base.Int.{ℤ, pos}
use zbeam.Kernel.{enodev, enotsup}
use zbeam.Pwm.{PwmSpec, Ramp}

unfoldable pub pwm_ramp_init : PwmSpec → Ramp → ℤ × Ramp
pwm_ramp_init spec r =
    if spec.ready
    then (pos 0, record r { pwm_dev = some spec; current_brightness = 0; ramp_active = false })
    else (enodev, r)

unfoldable pub pwm_ramp_set_brightness : ℕ → Ramp → Ramp
pwm_ramp_set_brightness brightness r = record r { current_brightness = brightness }

unfoldable pub pwm_ramp_start : (target duration_ms : ℕ) → Ramp → ℤ × Ramp
pwm_ramp_start target duration_ms r =
    (enotsup, record r { current_brightness = target; ramp_active = false })

unfoldable pub pwm_ramp_is_active : Ramp → Bool
pwm_ramp_is_active r = r.ramp_active

unfoldable pub pwm_ramp_stop : Ramp → Ramp
pwm_ramp_stop r = record r { ramp_active = false }

unfoldable pub pwm_ramp_get_brightness : Ramp → ℕ
pwm_ramp_get_brightness r = r.current_brightness
