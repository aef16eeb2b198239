-- ===== src/Examples/Light.antt =====
-- The pulses of the emitters and of the auxiliary LED.
use zbeam.Base.{ℕ, ◌^◌, ◌<◌, ◌≡◌, ◌≢◌, arith, List, [], ◌∷◌, All, true}
use zbeam.Kernel.{stopped}
use zbeam.Thermal.{default_gains, thermal_update}
use zbeam.Channel.{Channel, auto_tint, sequential, channel_apply_mix}
use zbeam.Channel.Mix.{Within, channel_apply_mix-Within}
use zbeam.Aux.{Aux, sine, aux_work_handler}
use zbeam.Aux.Pattern.{PulseIn, aux_work_handler-PulseIn}
use zbeam.Tables.Sine.{pwm_sine_table}
use zbeam.Ui.Device.{light, pulses}
use zbeam.Ui.Actions.{action_off, action_lockout, thermal_timer_handler}
use zbeam.Ui.Dark.{action_off-dark, lockout-relit}
use zbeam.Examples.Lamp.{env, lamp}

abbrev emitters : List ℕ
emitters = 1000000 ∷ 1000000 ∷ 500000 ∷ []

abbrev spread : Channel
spread = record { emitters = emitters; current_mode = sequential }

abbrev tint : Channel
tint = record { emitters = emitters; current_mode = auto_tint }

channel_apply_mix-Within_example : Within (channel_apply_mix lamp.thermal spread 200) emitters
channel_apply_mix-Within_example =
    channel_apply_mix-Within lamp.thermal spread 200 (omega arith) (omega arith)
      (omega arith, (omega arith, (omega arith, tt)))

abbrev glow : Aux
glow = record { current_mode = sine; period = 1000; timer = stopped; ticks = 8; sine_index = 255 }

aux_work_handler-PulseIn_example :
    let (b, calls) = aux_work_handler pwm_sine_table true glow in
    All (PulseIn 1000) calls × (b.sine_index < 256) × (b.ticks < 2 ^ 32) × (b.period ≡ 1000)
aux_work_handler-PulseIn_example = aux_work_handler-PulseIn true glow (omega arith)

action_off-dark_example :
    let e = action_off env lamp in
    (pulses e.calls ≡ light lamp 0)
    × (e.ui.ramp_timer ≡ stopped)
    × (e.ui.strobe_timer ≡ stopped)
    × (e.ui.thermal_timer ≡ stopped)
    × (e.pm.is_suspended ≡ true)
    × (e.ui.last_off_time ≡ 5000)
    × (lamp.channel.current_mode ≢ auto_tint → All (λ x. x ≡ 0) (pulses e.calls))
action_off-dark_example = action_off-dark env lamp

lockout-relit_example :
    let e = action_lockout lamp in
    (pulses e.calls ≡ light lamp 0)
    × (e.ui.thermal_timer ≡ lamp.ui.thermal_timer)
    × (pulses (thermal_timer_handler default_gains env e).calls
        ≡ channel_apply_mix (thermal_update default_gains env.sensor lamp.thermal) lamp.channel 60)
lockout-relit_example = lockout-relit default_gains env lamp
