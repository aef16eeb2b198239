-- ===== src/Ui/Stuck.antt =====
-- What the ramp of src/ui_actions.c changes once a strobe has been on.
use zbeam.Base.{ℕ, ◌≡◌, refl, ◌∙◌, ◌|>◌, arith}
use zbeam.Base.Int.{ℤ}
use zbeam.Env.{Env}
use zbeam.Ui.Device.{Device, param_frequency, update_led_hardware, on_ui, on_pm}
use zbeam.Pm.{pm_resume}
use zbeam.Kernel.{started}
use zbeam.Ui.Ramp.{ramp_timer_handler, start_ramping, stop_ramping}
use zbeam.Ui.Strobe.{action_strobe}
use zbeam.Ui.Actions.{
  action_off, action_on, action_moon, action_turbo, action_lockout, light_chosen,
}

stop-param : (d : Device) → (stop_ramping d).ui.active_param ≡ d.ui.active_param
unfolding stop_ramping
stop-param d = ground arith

light_chosen-param :
    (now : ℕ) (d : Device) → (light_chosen now d).ui.active_param ≡ d.ui.active_param
unfolding light_chosen update_led_hardware
light_chosen-param now d = ground arith

-- After `action_strobe` the ramp acts on the strobe's frequency. Turning the lamp off, on, to the
-- floor or the ceiling, locking it, and starting and stopping a ramp do not change what the ramp
-- acts on; and a tick that acts on the frequency leaves that and the brightness as they are and
-- gives the emitters nothing.
pub ramp-frequency :
    (env : Env) (direction : ℤ) (d : Device)
    → ((action_strobe d).ui.active_param ≡ param_frequency)
      × ((action_off env d).ui.active_param ≡ d.ui.active_param)
      × ((action_on env d).ui.active_param ≡ d.ui.active_param)
      × ((action_moon d).ui.active_param ≡ d.ui.active_param)
      × ((action_turbo d).ui.active_param ≡ d.ui.active_param)
      × ((action_lockout d).ui.active_param ≡ d.ui.active_param)
      × ((start_ramping direction d).ui.active_param ≡ d.ui.active_param)
      × ((stop_ramping d).ui.active_param ≡ d.ui.active_param)
      × (d.ui.active_param ≡ param_frequency
          → ((ramp_timer_handler d).ui.active_param ≡ param_frequency)
            × ((ramp_timer_handler d).ui.current_brightness ≡ d.ui.current_brightness)
            × ((ramp_timer_handler d).calls ≡ d.calls))
unfolding action_strobe action_off action_on action_moon action_turbo action_lockout start_ramping
    ramp_timer_handler update_led_hardware
ramp-frequency env direction d =
    let woken = d |> on_pm pm_resume in
    let heated = woken |> on_ui (λ u. record u { thermal_timer = started 500 500 }) in
    (
      refl,
      stop-param d,
      light_chosen-param env.uptime (stop_ramping heated) ∙ stop-param heated,
      refl,
      stop-param woken,
      stop-param d,
      refl,
      stop-param d,
      λ h. rw h (refl, refl, refl),
    )
