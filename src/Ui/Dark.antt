-- ===== src/Ui/Dark.antt =====
-- What turns the lamp off in src/ui_actions.c, and what turns it on again afterwards.
use zbeam.Base.{ℕ, ◌≡◌, ◌≢◌, refl, arith, true, false, List, All, subst, sym, if◌then◌else◌}
use zbeam.Env.{Env}
use zbeam.Kernel.{stopped}
use zbeam.Thermal.{Gains, thermal_update}
use zbeam.Channel.{auto_tint, channel_apply_mix}
use zbeam.Channel.Mix.{channel_apply_mix-dark}
use zbeam.Pm.{Pm, pm_suspend}
use zbeam.Ui.Device.{Device, update_led_hardware, pulses, light}
use zbeam.Ui.Ramp.{stop_ramping}
use zbeam.Ui.Actions.{action_off, action_lockout, thermal_timer_handler}
use zbeam.Ui.Config.{buzz_timer_handler}

-- What `stop_ramping` leaves.
pub stop-keeps :
    (d : Device)
    → let e = stop_ramping d in
      (e.thermal ≡ d.thermal)
      × (e.channel ≡ d.channel)
      × (e.pm ≡ d.pm)
      × (e.ui.ramp_timer ≡ stopped)
      × (e.ui.ramp_active ≡ false)
      × (e.ui.thermal_timer ≡ d.ui.thermal_timer)
      × (e.ui.buzz_timer ≡ d.ui.buzz_timer)
      × (e.ui.current_brightness ≡ d.ui.current_brightness)
unfolding stop_ramping
stop-keeps d = ground arith

same_light :
    (d e : Device) (level : ℕ)
    → e.thermal ≡ d.thermal
    → e.channel ≡ d.channel
    → light e level ≡ light d level
same_light d e level p q = cc

same_heat :
    (g : Gains) (env : Env) (d e : Device)
    → e.thermal ≡ d.thermal
    → e.channel ≡ d.channel
    → e.ui.current_brightness ≡ d.ui.current_brightness
    → channel_apply_mix (thermal_update g env.sensor e.thermal) e.channel e.ui.current_brightness
      ≡ channel_apply_mix (thermal_update g env.sensor d.thermal) d.channel d.ui.current_brightness
same_heat g env d e p q r = cc

dark_pulses :
    (d : Device) {ps : List ℕ}
    → ps ≡ light d 0
    → d.channel.current_mode ≢ auto_tint
    → All (λ x. x ≡ 0) ps
dark_pulses d p ne =
    subst (All (λ x. x ≡ 0)) (sym p) (channel_apply_mix-dark d.thermal d.channel ne)

pm_suspend-suspended : (p : Pm) → (pm_suspend p).is_suspended ≡ true
unfolding pm_suspend
pm_suspend-suspended p = ground arith

-- After `action_off` the emitters have the light of level 0, the ramp, strobe and thermal timers
-- are stopped, the device is suspended and the time is recorded; in every mode but the tint mix
-- every pulse is 0.
pub action_off-dark :
    (env : Env) (d : Device)
    → let e = action_off env d in
      (pulses e.calls ≡ light d 0)
      × (e.ui.ramp_timer ≡ stopped)
      × (e.ui.strobe_timer ≡ stopped)
      × (e.ui.thermal_timer ≡ stopped)
      × (e.pm.is_suspended ≡ true)
      × (e.ui.last_off_time ≡ env.uptime)
      × (d.channel.current_mode ≢ auto_tint → All (λ x. x ≡ 0) (pulses e.calls))
unfolding action_off update_led_hardware
action_off-dark env d =
    let (thermal, channel, pm, timer, _, _, _, _) = stop-keeps d in
    let lit = same_light d (stop_ramping d) 0 thermal channel in
    (
      lit,
      timer,
      refl,
      refl,
      pm_suspend-suspended (stop_ramping d).pm,
      refl,
      λ ne. dark_pulses d lit ne,
    )

-- `action_lockout` gives the emitters the light of level 0 and leaves the thermal timer as it
-- was; the next tick of that timer gives them the light of the current brightness again.
pub lockout-relit :
    (g : Gains) (env : Env) (d : Device)
    → let e = action_lockout d in
      (pulses e.calls ≡ light d 0)
      × (e.ui.thermal_timer ≡ d.ui.thermal_timer)
      × (pulses (thermal_timer_handler g env e).calls
          ≡ channel_apply_mix
              (thermal_update g env.sensor d.thermal)
              d.channel
              d.ui.current_brightness)
unfolding action_lockout thermal_timer_handler update_led_hardware
lockout-relit g env d =
    let (thermal, channel, _, _, _, heat, _, level) = stop-keeps d in
    (
      same_light d (stop_ramping d) 0 thermal channel,
      heat,
      same_heat g env d (stop_ramping d) thermal channel level,
    )

-- A tick of the buzz timer lights level 4 and level 1 in turn.
pub buzz-light :
    (d : Device)
    → (pulses (buzz_timer_handler d).calls ≡ light d (if d.ui.buzz_state then 1 else 4))
      × (pulses (buzz_timer_handler (buzz_timer_handler d)).calls
          ≡ light d (if d.ui.buzz_state then 4 else 1))
unfolding buzz_timer_handler update_led_hardware
buzz-light d = ground arith
