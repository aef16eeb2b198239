-- ===== src/Tree/Simple.antt =====
-- src/ui_simple.c: the callbacks and the nodes of the simple interface. A node is a function of
-- the readings that its routines may make.
use zbeam.Base.{none, some, [], ◌∷◌, ◌|>◌}
use zbeam.Base.Int.{pos, negsuc}
use zbeam.Env.{Env}
use zbeam.Fsm.{Callback, FsmNode, zero_node}
use zbeam.Node.{
  Node, simple_off, simple_on, simple_ramp, simple_turbo, simple_lockout, simple_battcheck,
  node_battcheck, node_factory_reset, node_lockout, node_moon, node_off, node_on, node_ramp,
  node_turbo,
}
use zbeam.Ui.Device.{Device}
use zbeam.Ui.Ramp.{start_ramping, stop_ramping}
use zbeam.Ui.Actions.{
  action_off, action_on, action_ramp, action_moon, action_turbo, action_lockout, action_battcheck,
  action_factory_reset, ui_toggle_mode, ui_set_next_brightness_floor,
  ui_set_next_brightness_ceiling,
}

unfoldable pub cb_simple_hold_from_off : Callback Node Device
unfolding action_moon start_ramping
cb_simple_hold_from_off self count d = (none, d |> action_moon |> start_ramping (pos 1))

unfoldable pub cb_simple_hold_ramp_up : Callback Node Device
unfolding start_ramping
cb_simple_hold_ramp_up self count d = (none, start_ramping (pos 1) d)

unfoldable pub cb_simple_hold_ramp_down : Callback Node Device
unfolding start_ramping
cb_simple_hold_ramp_down self count d = (none, start_ramping (negsuc 0) d)

unfoldable pub cb_simple_ramp_release : Callback Node Device
unfolding stop_ramping
cb_simple_ramp_release self count d = (some simple_on, stop_ramping d)

unfoldable pub cb_simple_lockout_momentary : Callback Node Device
unfolding action_moon
cb_simple_lockout_momentary self count d = (none, action_moon d)

unfoldable pub cb_simple_lockout_release : Env → Callback Node Device
unfolding action_off
cb_simple_lockout_release env self count d = (none, action_off env d)

unfoldable pub cb_10h_toggle : Callback Node Device
unfolding ui_toggle_mode
cb_10h_toggle self count d = ui_toggle_mode d

unfoldable pub cb_simple_unlock_floor : Callback Node Device
unfolding ui_set_next_brightness_floor
cb_simple_unlock_floor self count d = (some simple_on, ui_set_next_brightness_floor d)

unfoldable pub cb_simple_unlock_ceiling : Callback Node Device
unfolding ui_set_next_brightness_ceiling
cb_simple_unlock_ceiling self count d = (some simple_on, ui_set_next_brightness_ceiling d)

abbrev pub blank : FsmNode Node Device
blank = zero_node Node Device

unfoldable pub simple_off_node : Env → FsmNode Node Device
simple_off_node env = record blank {
  id = node_off;
  action_routine = some (action_off env);
  click_map = (0, simple_on) ∷ (1, simple_turbo) ∷ (2, simple_battcheck) ∷ (3, simple_lockout) ∷ [];
  hold_map = (0, simple_ramp) ∷ (1, simple_turbo) ∷ [];
  hold_callbacks = (0, cb_simple_hold_from_off) ∷ (9, cb_10h_toggle) ∷ [];
}

unfoldable pub simple_on_node : Env → FsmNode Node Device
simple_on_node env = record blank {
  id = node_on;
  action_routine = some (action_on env);
  click_map = (0, simple_off) ∷ (1, simple_turbo) ∷ (3, simple_lockout) ∷ [];
  hold_map = (0, simple_ramp) ∷ (1, simple_ramp) ∷ [];
  hold_callbacks = (0, cb_simple_hold_ramp_up) ∷ (1, cb_simple_hold_ramp_down) ∷ [];
}

unfoldable pub simple_ramp_node : FsmNode Node Device
simple_ramp_node = record blank {
  id = node_ramp;
  action_routine = some action_ramp;
  release_callback = some cb_simple_ramp_release;
  click_map = (0, simple_off) ∷ [];
}

unfoldable pub simple_moon_node : FsmNode Node Device
simple_moon_node = record blank {
  id = node_moon;
  action_routine = some action_moon;
  click_map = (0, simple_off) ∷ [];
  hold_map = (0, simple_ramp) ∷ [];
  hold_callbacks = (0, cb_simple_hold_ramp_up) ∷ [];
}

unfoldable pub simple_turbo_node : FsmNode Node Device
simple_turbo_node = record blank {
  id = node_turbo;
  action_routine = some action_turbo;
  click_map = (0, simple_off) ∷ (1, simple_on) ∷ [];
}

unfoldable pub simple_lockout_node : Env → FsmNode Node Device
simple_lockout_node env = record blank {
  id = node_lockout;
  action_routine = some action_lockout;
  click_map = (2, simple_off) ∷ (3, simple_on) ∷ (4, simple_turbo) ∷ [];
  hold_callbacks = (0, cb_simple_lockout_momentary) ∷ (3, cb_simple_unlock_floor) ∷ [];
  release_callback = some (cb_simple_lockout_release env);
}

unfoldable pub simple_battcheck_node : Env → FsmNode Node Device
simple_battcheck_node env = record blank {
  id = node_battcheck;
  action_routine = some (action_battcheck env);
  timeout_ms = 4000;
  click_map = (0, simple_off) ∷ [];
}

unfoldable pub simple_reset_node : FsmNode Node Device
simple_reset_node = record blank {
  id = node_factory_reset;
  action_routine = some action_factory_reset;
}
