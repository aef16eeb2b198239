-- ===== src/System/Quiet.antt =====
-- Where the program does not go on: `sys_reboot` does not return, and `k_msleep` must not be called in
-- an interrupt, where the kernel runs the handlers of the timers.
use zbeam.Base.{
  ℕ, suc, ◌≡◌, refl, ◌∙◌, inl, inr, Bool, true, false, Bool-cases, if◌then◌else◌, List, [], ◌∷◌,
  ltb,
}
use zbeam.Env.{Env}
use zbeam.Kernel.{Call, set_pulses, set_aux_pulse, sleep, write_byte, delete_id, reboot}
use zbeam.Thermal.{Gains}
use zbeam.Ui.Device.{
  Device, StrobeType, strobe_party, strobe_tactical, strobe_candle, strobe_bike,
  update_led_hardware,
}
use zbeam.Ui.Ramp.{ramp_timer_handler, stop_ramping}
use zbeam.Ui.Strobe.{strobe_tick, strobe_timer_handler}
use zbeam.Ui.Actions.{thermal_timer_handler, action_off, light_chosen, action_on}
use zbeam.Ui.Config.{buzz_timer_handler}
use zbeam.Ui.Timers.{param_cases}
use zbeam.Aux.{aux_work_handler}
use zbeam.System.Events.{aux_tick}

pub data Context : Type 0 where
  in_thread in_interrupt : Context

-- The calls that end the program.
abbrev pub ends : Call → Context → Bool
ends reboot c = true
ends (sleep ms) in_interrupt = true
ends (sleep ms) in_thread = false
ends (set_pulses ps) c = false
ends (set_aux_pulse p) c = false
ends (write_byte id value) c = false
ends (delete_id id) c = false

-- How many of them a log has.
abbrev pub ends_in : Context → List Call → ℕ
ends_in c [] = 0
ends_in c (call ∷ calls) = if ends call c then suc (ends_in c calls) else ends_in c calls

-- A step makes none of them.
abbrev pub Quiet : Context → Device → Device → Type 0
Quiet c d e = ends_in c e.calls ≡ ends_in c d.calls

module _ (c : Context) where
  pub stop-Quiet : (d : Device) → Quiet c d (stop_ramping d)
  unfolding stop_ramping
  stop-Quiet d = elim (param_cases d.ui.active_param) [
    | inl p ↦ elim (Bool-cases d.ui.ramp_active) [ inl r ↦ rw (p, r) refl | inr r ↦ rw (p, r) refl ]
    | inr p ↦ elim (Bool-cases d.ui.ramp_active) [ inl r ↦ rw (p, r) refl | inr r ↦ rw (p, r) refl ]
  ]

  pub off-Quiet : (env : Env) (d : Device) → Quiet c d (action_off env d)
  unfolding action_off update_led_hardware
  off-Quiet env d = stop-Quiet d

  chosen-Quiet : (now : ℕ) (d : Device) → Quiet c d (light_chosen now d)
  unfolding light_chosen update_led_hardware
  chosen-Quiet now d = elim (Bool-cases (ltb 0 d.ui.override_brightness)) [
    | inl e ↦ rw e refl
    | inr e ↦ rw e refl
  ]

  pub on-Quiet : (env : Env) (d : Device) → Quiet c d (action_on env d)
  unfolding action_on
  on-Quiet env d = chosen-Quiet env.uptime _ ∙ stop-Quiet _

  pub heat-Quiet : (g : Gains) (env : Env) (d : Device) → Quiet c d (thermal_timer_handler g env d)
  unfolding thermal_timer_handler update_led_hardware
  heat-Quiet g env d = refl

  pub buzz-Quiet : (d : Device) → Quiet c d (buzz_timer_handler d)
  unfolding buzz_timer_handler update_led_hardware
  buzz-Quiet d = refl

  pub ramp-Quiet : (d : Device) → Quiet c d (ramp_timer_handler d)
  unfolding ramp_timer_handler update_led_hardware
  ramp-Quiet d = elim (param_cases d.ui.active_param) [ inl p ↦ rw p refl | inr p ↦ rw p refl ]

  tick-Quiet : (env : Env) (s : StrobeType) (d : Device) → Quiet c d (strobe_tick env s d).1
  unfolding strobe_tick update_led_hardware
  tick-Quiet env strobe_party d = elim (Bool-cases d.ui.strobe_on) [
    | inl e ↦ rw e refl
    | inr e ↦ rw e refl
  ]
  tick-Quiet env strobe_tactical d = refl
  tick-Quiet env strobe_candle d = refl
  tick-Quiet env strobe_bike d = refl

  pub flash-Quiet : (env : Env) (d : Device) → Quiet c d (strobe_timer_handler env d)
  unfolding strobe_timer_handler
  flash-Quiet env d = tick-Quiet env d.ui.current_strobe_mode d

  pub aux-Quiet : (env : Env) (d : Device) → Quiet c d (aux_tick env d)
  unfolding aux_tick aux_work_handler
  aux-Quiet env d = elim (Bool-cases env.aux_ready) [ inl e ↦ rw e refl | inr e ↦ rw e refl ]
