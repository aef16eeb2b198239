-- ===== src/Tree/Modes.antt =====
-- Which software timers run in which node of src/ui_simple.c and src/ui_advanced.c: what a node's
-- routine leaves.
use zbeam.Base.{◌≡◌, refl, inl, inr, Bool, true, false}
use zbeam.Env.{Env}
use zbeam.Fsm.Within.{Enters}
use zbeam.Node.{
  Node, simple_off, simple_on, simple_ramp, simple_moon, simple_turbo, simple_lockout,
  simple_battcheck, simple_reset, adv_off, adv_on, adv_ramp, adv_moon, adv_turbo, adv_lockout,
  adv_battcheck, adv_tempcheck, adv_reset, adv_strobe, adv_config_floor, adv_config_ceiling,
  adv_aux_config, adv_cal_voltage, adv_cal_thermal_current, adv_cal_thermal_limit, adv_blink,
  adv_party_strobe, adv_config_steps,
}
use zbeam.Ui.Device.{Device}
use zbeam.Ui.Actions.{action_on, action_ramp, action_aux_config, get_start_node}
use zbeam.Ui.Config.{
  action_config_floor, action_config_ceiling, action_cal_voltage_entry, action_cal_thermal_entry,
  action_cal_thermal_limit_entry,
}
use zbeam.Kernel.{started}
use zbeam.Ui.Memory.{action_on-chosen}
use zbeam.Ui.Timers.{
  Timing, IsAsleep, off-Timing, on-Timing, turbo-Timing, lockout-Timing, batt-Timing, temp-Timing,
  reset-Timing, strobe-Timing,
}
use zbeam.Ui.Timers.{mode_cases}
use zbeam.Tree.Table.{table}

-- The nodes in which the brightness is being ramped.
abbrev pub is_ramp : Node → Bool
is_ramp simple_ramp = true
is_ramp adv_ramp = true
is_ramp _ = false

-- The node of the strobes.
abbrev pub is_strobe : Node → Bool
is_strobe adv_strobe = true
is_strobe _ = false

-- The nodes of the lamp that is off.
pub data IsOff : Node → Type 0 where
  by_simple : IsOff simple_off
  by_advanced : IsOff adv_off

-- The nodes of the lamp that is on.
pub data IsOn : Node → Type 0 where
  by_simple_on : IsOn simple_on
  by_advanced_on : IsOn adv_on

-- The thermal timer runs and the device is awake.
abbrev pub IsAwake : Device → Type 0
IsAwake d = (d.ui.thermal_timer ≡ started 500 500) × (d.pm.is_suspended ≡ false)

on-IsAwake : (env : Env) (d : Device) → IsAwake (action_on env d)
on-IsAwake env d = let (awake, heat, _, _, _, _) = action_on-chosen env d in (heat, awake)

-- The nodes that some way leads to. The two moon nodes and `simple_reset` are in no map and no
-- callback, and three nodes are never initialised.
abbrev pub is_used : Node → Bool
is_used simple_moon = false
is_used simple_reset = false
is_used adv_moon = false
is_used adv_blink = false
is_used adv_party_strobe = false
is_used adv_config_steps = false
is_used _ = true

-- The ramp's timer runs exactly in a ramp's node, the strobe's exactly in the strobe's; and in a node
-- of the lamp that is off the thermal timer is stopped and the device suspended, in a node of the
-- lamp that is on it runs and the device is awake. The node is in use.
abbrev pub Fits : Node → Device → Type 0
Fits n d =
    Timing (is_ramp n) (is_strobe n) d
    × (IsOff n → IsAsleep d)
    × (IsOn n → IsAwake d)
    × (is_used n ≡ true)

-- What a routine needs to leave that in its node.
abbrev pub Ready : Node → Device → Type 0
Ready simple_off d = Unit
Ready adv_off d = Unit
Ready adv_strobe d = Unit
Ready simple_ramp d = Timing true false d
Ready adv_ramp d = Timing true false d
Ready simple_moon d = is_used simple_moon ≡ true
Ready adv_moon d = is_used adv_moon ≡ true
Ready simple_reset d = is_used simple_reset ≡ true
Ready adv_blink d = is_used adv_blink ≡ true
Ready adv_party_strobe d = is_used adv_party_strobe ≡ true
Ready adv_config_steps d = is_used adv_config_steps ≡ true
Ready _ d = Timing false false d

pub enter : (env : Env) (n : Node) (d : Device) → Ready n d → Enters (table env) Fits n d
unfolding table action_ramp action_aux_config action_config_floor action_config_ceiling
    action_cal_voltage_entry action_cal_thermal_entry action_cal_thermal_limit_entry
enter env simple_off d r = let (t, z) = off-Timing env d in (t, (λ _. z), (λ h. elim h [ ]), refl)
enter env adv_off d r = let (t, z) = off-Timing env d in (t, (λ _. z), (λ h. elim h [ ]), refl)
enter env simple_on d r = (on-Timing env d false r.1, λ h. elim h [ ], λ _. on-IsAwake env d, refl)
enter env adv_on d r = (on-Timing env d false r.1, λ h. elim h [ ], λ _. on-IsAwake env d, refl)
enter env simple_ramp d r = (r, λ h. elim h [ ], λ h. elim h [ ], refl)
enter env adv_ramp d r = (r, λ h. elim h [ ], λ h. elim h [ ], refl)
enter env simple_moon d r = cc
enter env adv_moon d r = cc
enter env simple_turbo d r = (turbo-Timing d false r.1, λ h. elim h [ ], λ h. elim h [ ], refl)
enter env adv_turbo d r = (turbo-Timing d false r.1, λ h. elim h [ ], λ h. elim h [ ], refl)
enter env simple_lockout d r = (lockout-Timing d false r.1, λ h. elim h [ ], λ h. elim h [ ], refl)
enter env adv_lockout d r = (lockout-Timing d false r.1, λ h. elim h [ ], λ h. elim h [ ], refl)
enter env simple_battcheck d r =
    (batt-Timing env d false r.1, λ h. elim h [ ], λ h. elim h [ ], refl)
enter env adv_battcheck d r = (batt-Timing env d false r.1, λ h. elim h [ ], λ h. elim h [ ], refl)
enter env adv_tempcheck d r = (temp-Timing d false r.1, λ h. elim h [ ], λ h. elim h [ ], refl)
enter env simple_reset d r = cc
enter env adv_reset d r = (reset-Timing d false r.1, λ h. elim h [ ], λ h. elim h [ ], refl)
enter env adv_strobe d r = (strobe-Timing d, λ h. elim h [ ], λ h. elim h [ ], refl)
enter env adv_config_floor d r = (r, λ h. elim h [ ], λ h. elim h [ ], refl)
enter env adv_config_ceiling d r = (r, λ h. elim h [ ], λ h. elim h [ ], refl)
enter env adv_aux_config d r = (r, λ h. elim h [ ], λ h. elim h [ ], refl)
enter env adv_cal_voltage d r = (r, λ h. elim h [ ], λ h. elim h [ ], refl)
enter env adv_cal_thermal_current d r = (r, λ h. elim h [ ], λ h. elim h [ ], refl)
enter env adv_cal_thermal_limit d r = (r, λ h. elim h [ ], λ h. elim h [ ], refl)
enter env adv_blink d r = cc
enter env adv_party_strobe d r = cc
enter env adv_config_steps d r = cc

-- An off node can be entered from any state.
pub off-Enters :
    (env : Env) (home : Node) → IsOff home → (d : Device) → Enters (table env) Fits home d
off-Enters env home by_simple d = enter env simple_off d tt
off-Enters env home by_advanced d = enter env adv_off d tt

pub start-IsOff : (d : Device) → IsOff (get_start_node d)
unfolding get_start_node
start-IsOff d = elim (mode_cases d.ui.current_ui_mode) [
  | inl e ↦ rw e by_simple
  | inr e ↦ rw e by_advanced
]
