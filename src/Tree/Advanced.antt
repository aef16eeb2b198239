-- ===== src/Tree/Advanced.antt =====
-- src/ui_advanced.c: the callbacks and the nodes of the advanced interface.
use zbeam.Base.{none, some, [], ◌∷◌, ◌|>◌}
use zbeam.Base.Int.{pos, negsuc}
use zbeam.Env.{Env}
use zbeam.Fsm.{Callback, FsmNode}
use zbeam.Node.{
  Node, adv_off, adv_on, adv_ramp, adv_turbo, adv_lockout, adv_battcheck, adv_tempcheck, adv_reset,
  adv_strobe, adv_config_floor, adv_config_ceiling, adv_aux_config, adv_cal_voltage,
  adv_cal_thermal_current, adv_cal_thermal_limit, node_aux_config, node_battcheck,
  node_config_ceiling, node_config_floor, node_factory_reset, node_lockout, node_moon, node_off,
  node_on, node_ramp, node_strobe, node_turbo,
}
use zbeam.Ui.Device.{Device}
use zbeam.Ui.Ramp.{start_ramping, stop_ramping}
use zbeam.Ui.Strobe.{action_strobe, action_strobe_next}
use zbeam.Ui.Actions.{
  action_off, action_on, action_ramp, action_moon, action_turbo, action_lockout, action_battcheck,
  action_tempcheck, action_aux_config, action_factory_reset, ui_toggle_mode,
  action_toggle_ramp_style,
}
use zbeam.Ui.Config.{
  action_config_floor, action_config_ceiling, cb_config_floor_set, cb_config_ceiling_set,
  action_cal_voltage_entry, cb_cal_voltage_set, action_cal_thermal_entry, cb_cal_thermal_set,
  action_cal_thermal_limit_entry, cb_cal_thermal_limit_set,
}
use zbeam.Tree.Simple.{blank}

unfoldable pub cb_adv_hold_from_off : Callback Node Device
unfolding action_moon start_ramping
cb_adv_hold_from_off self count d = (none, d |> action_moon |> start_ramping (pos 1))

unfoldable pub cb_adv_hold_ramp_up : Callback Node Device
unfolding start_ramping
cb_adv_hold_ramp_up self count d = (none, start_ramping (pos 1) d)

unfoldable pub cb_adv_hold_ramp_down : Callback Node Device
unfolding start_ramping
cb_adv_hold_ramp_down self count d = (none, start_ramping (negsuc 0) d)

unfoldable pub cb_adv_ramp_release : Callback Node Device
unfolding stop_ramping
cb_adv_ramp_release self count d = (some adv_on, stop_ramping d)

unfoldable pub cb_adv_lockout_momentary : Callback Node Device
unfolding action_moon
cb_adv_lockout_momentary self count d = (none, action_moon d)

unfoldable pub cb_adv_lockout_release : Env → Callback Node Device
unfolding action_off
cb_adv_lockout_release env self count d = (none, action_off env d)

unfoldable pub cb_adv_strobe_release : Callback Node Device
unfolding stop_ramping
cb_adv_strobe_release self count d = (none, stop_ramping d)

unfoldable pub cb_10h_toggle : Callback Node Device
unfolding ui_toggle_mode
cb_10h_toggle self count d = ui_toggle_mode d

unfoldable pub cb_adv_toggle_ramp_style : Callback Node Device
unfolding action_toggle_ramp_style
cb_adv_toggle_ramp_style self count d = action_toggle_ramp_style d

unfoldable pub cb_strobe_next : Callback Node Device
unfolding action_strobe_next
cb_strobe_next self count d = action_strobe_next d

unfoldable pub adv_off_node : Env → FsmNode Node Device
adv_off_node env = record blank {
  id = node_off;
  action_routine = some (action_off env);
  click_map =
      (0, adv_on)
      ∷ (1, adv_turbo)
      ∷ (2, adv_battcheck)
      ∷ (3, adv_lockout)
      ∷ (4, adv_reset)
      ∷ (6, adv_aux_config)
      ∷ [];
  hold_map = (0, adv_ramp) ∷ (2, adv_strobe) ∷ [];
  hold_callbacks = (0, cb_adv_hold_from_off) ∷ (9, cb_10h_toggle) ∷ [];
}

unfoldable pub adv_on_node : Env → FsmNode Node Device
adv_on_node env = record blank {
  id = node_on;
  action_routine = some (action_on env);
  click_map = (0, adv_off) ∷ (1, adv_turbo) ∷ (3, adv_lockout) ∷ [];
  click_callbacks = (2, cb_adv_toggle_ramp_style) ∷ [];
  hold_map = (0, adv_ramp) ∷ (1, adv_ramp) ∷ (6, adv_config_floor) ∷ [];
  hold_callbacks = (0, cb_adv_hold_ramp_up) ∷ (1, cb_adv_hold_ramp_down) ∷ [];
}

unfoldable pub adv_ramp_node : FsmNode Node Device
adv_ramp_node = record blank {
  id = node_ramp;
  action_routine = some action_ramp;
  release_callback = some cb_adv_ramp_release;
  click_map = (0, adv_off) ∷ [];
}

unfoldable pub adv_moon_node : FsmNode Node Device
adv_moon_node = record blank {
  id = node_moon;
  action_routine = some action_moon;
  click_map = (0, adv_off) ∷ [];
  hold_map = (0, adv_ramp) ∷ [];
  hold_callbacks = (0, cb_adv_hold_ramp_up) ∷ [];
}

unfoldable pub adv_turbo_node : FsmNode Node Device
adv_turbo_node = record blank {
  id = node_turbo;
  action_routine = some action_turbo;
  click_map = (0, adv_off) ∷ (1, adv_on) ∷ [];
}

unfoldable pub adv_lockout_node : Env → FsmNode Node Device
adv_lockout_node env = record blank {
  id = node_lockout;
  action_routine = some action_lockout;
  click_map = (3, adv_off) ∷ [];
  hold_callbacks = (0, cb_adv_lockout_momentary) ∷ [];
  release_callback = some (cb_adv_lockout_release env);
}

unfoldable pub adv_battcheck_node : Env → FsmNode Node Device
adv_battcheck_node env = record blank {
  id = node_battcheck;
  action_routine = some (action_battcheck env);
  timeout_ms = 4000;
  click_map = (0, adv_off) ∷ (1, adv_tempcheck) ∷ [];
  hold_map = (6, adv_cal_voltage) ∷ [];
}

unfoldable pub adv_tempcheck_node : FsmNode Node Device
adv_tempcheck_node = record blank {
  id = node_battcheck;
  action_routine = some action_tempcheck;
  timeout_ms = 4000;
  click_map = (0, adv_off) ∷ (1, adv_battcheck) ∷ [];
  hold_map = (6, adv_cal_thermal_current) ∷ [];
}

unfoldable pub adv_reset_node : FsmNode Node Device
adv_reset_node = record blank {
  id = node_factory_reset;
  action_routine = some action_factory_reset;
}

unfoldable pub adv_strobe_node : FsmNode Node Device
adv_strobe_node = record blank {
  id = node_strobe;
  action_routine = some action_strobe;
  release_callback = some cb_adv_strobe_release;
  click_map = (0, adv_off) ∷ [];
  click_callbacks = (1, cb_strobe_next) ∷ [];
}

unfoldable pub adv_config_floor_node : FsmNode Node Device
adv_config_floor_node = record blank {
  id = node_config_floor;
  action_routine = some action_config_floor;
  any_click_callback = some cb_config_floor_set;
  timeout_ms = 2000;
  timeout_node = some adv_config_ceiling;
}

unfoldable pub adv_config_ceiling_node : FsmNode Node Device
adv_config_ceiling_node = record blank {
  id = node_config_ceiling;
  action_routine = some action_config_ceiling;
  any_click_callback = some cb_config_ceiling_set;
  timeout_ms = 2000;
  timeout_node = some adv_on;
}

unfoldable pub adv_aux_config_node : FsmNode Node Device
adv_aux_config_node = record blank {
  id = node_aux_config;
  action_routine = some action_aux_config;
  click_map = (0, adv_off) ∷ (6, adv_aux_config) ∷ [];
}

unfoldable pub adv_cal_voltage_node : Env → FsmNode Node Device
adv_cal_voltage_node env = record blank {
  id = node_battcheck;
  action_routine = some action_cal_voltage_entry;
  any_click_callback = some (cb_cal_voltage_set env);
  timeout_ms = 4000;
  timeout_node = some adv_battcheck;
}

unfoldable pub adv_cal_thermal_current_node : Env → FsmNode Node Device
adv_cal_thermal_current_node env = record blank {
  id = node_battcheck;
  action_routine = some action_cal_thermal_entry;
  any_click_callback = some (cb_cal_thermal_set env);
  timeout_ms = 4000;
  timeout_node = some adv_cal_thermal_limit;
}

unfoldable pub adv_cal_thermal_limit_node : FsmNode Node Device
adv_cal_thermal_limit_node = record blank {
  id = node_battcheck;
  action_routine = some action_cal_thermal_limit_entry;
  any_click_callback = some cb_cal_thermal_limit_set;
  timeout_ms = 4000;
  timeout_node = some adv_tempcheck;
}
