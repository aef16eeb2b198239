-- ===== src/Examples/Controls.antt =====
-- The ramp, the memory and the settings of a concrete lamp.
use zbeam.Base.{[], ℕ, ◌≡◌, ◌<◌, ◌≤◌, refl, arith, false}
use zbeam.Base.Int.{ℤ, pos}
use zbeam.Env.{Env}
use zbeam.Kernel.{stopped, started}
use zbeam.Node.{adv_config_floor}
use zbeam.Ui.Device.{
  Device, param_brightness, param_frequency, ramp_stepped, mem_auto, mem_hybrid, mem_manual, light,
  pulses,
}
use zbeam.Ui.Ramp.{ramp_timer_handler, start_ramping, stop_ramping}
use zbeam.Ui.Memory.{Brings, chosen, remembered, action_on-chosen, off_on-memory}
use zbeam.Ui.Stuck.{ramp-frequency}
use zbeam.Ui.Steps.{ramp_timer_handler-stepped}
use zbeam.Ui.Strobe.{action_strobe}
use zbeam.Ui.Actions.{
  action_moon, action_turbo, action_lockout, action_on, action_off, ui_toggle_mode,
  action_toggle_ramp_style,
}
use zbeam.Ui.Config.{cb_config_floor_set, cb_config_ceiling_set}
use zbeam.Ui.Init.{load_settings}
use zbeam.Ui.Settings.{Recalls, load_settings-restores}
use zbeam.Examples.Lamp.{env, ui, lamp}

action_on-chosen_example :
    let e = action_on env lamp in
    (e.pm.is_suspended ≡ false)
    × (e.ui.thermal_timer ≡ started 500 500)
    × (e.ui.ramp_timer ≡ stopped)
    × (e.ui.override_brightness ≡ 0)
    × (e.ui.current_brightness ≡ 60)
    × (pulses e.calls ≡ light lamp 60)
unfolding chosen remembered
action_on-chosen_example = action_on-chosen env lamp

-- Ten minutes later.
abbrev later : Env
later = record env { uptime = 605000 }

off_on-memory_example :
    let e = action_on later (action_off env lamp) in
    (mem_auto ≡ mem_auto → Brings e lamp 60)
    × (mem_auto ≡ mem_hybrid → 600000 ≤ 300000 → Brings e lamp 60)
    × (mem_auto ≡ mem_hybrid → 0 < 300000 → 300000 < 600000 → Brings e lamp 120)
    × (mem_auto ≡ mem_manual → Brings e lamp 120)
off_on-memory_example = off_on-memory env later lamp refl refl refl

-- Storage that holds the byte 1 under every id.
abbrev ones : ℕ → ℤ × ℕ
ones id = (pos 1, 1)

load_settings-restores_example :
    let mode = (ui_toggle_mode lamp).1 in
    let style = (action_toggle_ramp_style lamp).1 in
    let low = (cb_config_floor_set adv_config_floor 1 lamp).1 in
    let high = (cb_config_ceiling_set adv_config_floor 1 lamp).1 in
    let booted = load_settings ones ui in
    (Recalls ones mode.calls → booted.current_ui_mode ≡ mode.ui.current_ui_mode)
    × (Recalls ones style.calls → booted.current_ramp_style ≡ style.ui.current_ramp_style)
    × (Recalls ones low.calls → booted.brightness_floor ≡ low.ui.brightness_floor)
    × (Recalls ones high.calls → booted.brightness_ceiling ≡ high.ui.brightness_ceiling)
load_settings-restores_example =
    load_settings-restores ones ui lamp adv_config_floor 1 (omega arith)

-- The lamp with a stepped ramp.
abbrev stepped : Device
stepped = record lamp { ui = record ui { current_ramp_style = ramp_stepped } }

ramp_timer_handler-stepped_example :
    let e = ramp_timer_handler stepped in
    (1 ≤ e.ui.current_brightness)
    × (e.ui.current_brightness ≤ 150)
    × (pulses e.calls ≡ light lamp e.ui.current_brightness)
ramp_timer_handler-stepped_example =
    ramp_timer_handler-stepped stepped refl refl (omega arith) (omega arith) (omega arith)

ramp-frequency_example :
    ((action_strobe lamp).ui.active_param ≡ param_frequency)
    × ((action_off env lamp).ui.active_param ≡ param_brightness)
    × ((action_on env lamp).ui.active_param ≡ param_brightness)
    × ((action_moon lamp).ui.active_param ≡ param_brightness)
    × ((action_turbo lamp).ui.active_param ≡ param_brightness)
    × ((action_lockout lamp).ui.active_param ≡ param_brightness)
    × ((start_ramping (pos 1) lamp).ui.active_param ≡ param_brightness)
    × ((stop_ramping lamp).ui.active_param ≡ param_brightness)
    × (param_brightness ≡ param_frequency
        → ((ramp_timer_handler lamp).ui.active_param ≡ param_frequency)
          × ((ramp_timer_handler lamp).ui.current_brightness ≡ 60)
          × ((ramp_timer_handler lamp).calls ≡ []))
ramp-frequency_example = ramp-frequency env (pos 1) lamp
