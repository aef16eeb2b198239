-- ===== src/Tree/Table.antt =====
-- What is stored at each node's address, for the readings of one moment.
use zbeam.Env.{Env}
use zbeam.Fsm.{FsmNode}
use zbeam.Node.{
  Node, simple_off, simple_on, simple_ramp, simple_moon, simple_turbo, simple_lockout,
  simple_battcheck, simple_reset, adv_off, adv_on, adv_ramp, adv_moon, adv_turbo, adv_lockout,
  adv_battcheck, adv_tempcheck, adv_reset, adv_strobe, adv_config_floor, adv_config_ceiling,
  adv_aux_config, adv_cal_voltage, adv_cal_thermal_current, adv_cal_thermal_limit,
}
use zbeam.Ui.Device.{Device}
use zbeam.Tree.Simple.{
  blank, simple_off_node, simple_on_node, simple_ramp_node, simple_moon_node, simple_turbo_node,
  simple_lockout_node, simple_battcheck_node, simple_reset_node,
}
use zbeam.Tree.Advanced.{
  adv_off_node, adv_on_node, adv_ramp_node, adv_moon_node, adv_turbo_node, adv_lockout_node,
  adv_battcheck_node, adv_tempcheck_node, adv_reset_node, adv_strobe_node, adv_config_floor_node,
  adv_config_ceiling_node, adv_aux_config_node, adv_cal_voltage_node, adv_cal_thermal_current_node,
  adv_cal_thermal_limit_node,
}

unfoldable pub table : Env → Node → FsmNode Node Device
unfolding simple_off_node simple_on_node simple_ramp_node simple_moon_node simple_turbo_node
    simple_lockout_node simple_battcheck_node simple_reset_node adv_off_node adv_on_node
    adv_ramp_node adv_moon_node adv_turbo_node adv_lockout_node adv_battcheck_node
    adv_tempcheck_node adv_reset_node adv_strobe_node adv_config_floor_node adv_config_ceiling_node
    adv_aux_config_node adv_cal_voltage_node adv_cal_thermal_current_node adv_cal_thermal_limit_node
table env simple_off = simple_off_node env
table env simple_on = simple_on_node env
table env simple_ramp = simple_ramp_node
table env simple_moon = simple_moon_node
table env simple_turbo = simple_turbo_node
table env simple_lockout = simple_lockout_node env
table env simple_battcheck = simple_battcheck_node env
table env simple_reset = simple_reset_node
table env adv_off = adv_off_node env
table env adv_on = adv_on_node env
table env adv_ramp = adv_ramp_node
table env adv_moon = adv_moon_node
table env adv_turbo = adv_turbo_node
table env adv_lockout = adv_lockout_node env
table env adv_battcheck = adv_battcheck_node env
table env adv_tempcheck = adv_tempcheck_node
table env adv_reset = adv_reset_node
table env adv_strobe = adv_strobe_node
table env adv_config_floor = adv_config_floor_node
table env adv_config_ceiling = adv_config_ceiling_node
table env adv_aux_config = adv_aux_config_node
table env adv_cal_voltage = adv_cal_voltage_node env
table env adv_cal_thermal_current = adv_cal_thermal_current_node env
table env adv_cal_thermal_limit = adv_cal_thermal_limit_node
table env _ = blank
