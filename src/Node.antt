-- ===== src/Node.antt =====
-- The nodes that src/ui_simple.c and src/ui_advanced.c define: a constructor is a node's address.
use zbeam.Base.{ℕ}

pub data Node : Type 0 where
  simple_off simple_on simple_ramp simple_moon simple_turbo : Node
  simple_lockout simple_battcheck simple_reset : Node
  adv_off adv_on adv_ramp adv_moon adv_turbo adv_lockout : Node
  adv_battcheck adv_tempcheck adv_reset adv_strobe : Node
  adv_config_floor adv_config_ceiling adv_aux_config : Node
  adv_cal_voltage adv_cal_thermal_current adv_cal_thermal_limit : Node
  -- declared in ui_advanced.c and never initialised
  adv_blink adv_party_strobe adv_config_steps : Node

pub Node-discrete : Discrete Node
Node-discrete = hlevel

-- `enum fsm_node_id` of include/ui_actions.h. Some ids no node has, and `node_battcheck` is the id of
-- five nodes; nothing reads an id.
abbrev pub node_off : ℕ
node_off = 0

abbrev pub node_on : ℕ
node_on = 1

abbrev pub node_ramp : ℕ
node_ramp = 2

abbrev pub node_moon : ℕ
node_moon = 3

abbrev pub node_turbo : ℕ
node_turbo = 4

abbrev pub node_lockout : ℕ
node_lockout = 5

abbrev pub node_battcheck : ℕ
node_battcheck = 6

abbrev pub node_tempcheck : ℕ
node_tempcheck = 7

abbrev pub node_sos : ℕ
node_sos = 8

abbrev pub node_beacon : ℕ
node_beacon = 9

abbrev pub node_strobe : ℕ
node_strobe = 10

abbrev pub node_party_strobe : ℕ
node_party_strobe = 11

abbrev pub node_strobe_tactical : ℕ
node_strobe_tactical = 12

abbrev pub node_strobe_candle : ℕ
node_strobe_candle = 13

abbrev pub node_config_floor : ℕ
node_config_floor = 14

abbrev pub node_config_ceiling : ℕ
node_config_ceiling = 15

abbrev pub node_config_steps : ℕ
node_config_steps = 16

abbrev pub node_aux_config : ℕ
node_aux_config = 17

abbrev pub node_blink : ℕ
node_blink = 18

abbrev pub node_factory_reset : ℕ
node_factory_reset = 19

abbrev pub node_count : ℕ
node_count = 20
