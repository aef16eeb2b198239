-- ===== src/Tree/Routes.antt =====
-- How each node in use of src/ui_simple.c and src/ui_advanced.c is reached from the lamp that is off.
use zbeam.Base.{ℕ, ◌≡◌, refl, true, some, List, [], ◌∷◌}
use zbeam.Env.{Env}
use zbeam.Msg.{ZbeamMsg, input_tap, input_hold_start}
use zbeam.Fsm.{Machine, dispatch_input, fsm_process_msg, fsm_transition_to, reset_inactivity_timer}
use zbeam.Node.{
  Node, simple_off, simple_on, simple_ramp, simple_moon, simple_turbo, simple_lockout,
  simple_battcheck, simple_reset, adv_off, adv_on, adv_ramp, adv_moon, adv_turbo, adv_lockout,
  adv_battcheck, adv_tempcheck, adv_reset, adv_strobe, adv_config_floor, adv_config_ceiling,
  adv_aux_config, adv_cal_voltage, adv_cal_thermal_current, adv_cal_thermal_limit, adv_blink,
  adv_party_strobe, adv_config_steps,
}
use zbeam.Worker.{handle_all, handle_msg}
use zbeam.Ui.Device.{Device}
use zbeam.Ui.Config.{cb_config_floor_set, cb_cal_thermal_set}
use zbeam.Tree.Advanced.{cb_adv_hold_from_off}
use zbeam.Tree.Simple.{cb_simple_hold_from_off}
use zbeam.Tree.Table.{table}
use zbeam.Tree.Modes.{is_used}

abbrev pub taps : ℕ → ZbeamMsg
taps n = record { type = input_tap; count = n; severity = 0 }

abbrev pub held : ℕ → ZbeamMsg
held n = record { type = input_hold_start; count = n; severity = 0 }

-- The node of the lamp that is off in the same interface.
abbrev pub off_of : Node → Node
off_of simple_off = simple_off
off_of simple_on = simple_off
off_of simple_ramp = simple_off
off_of simple_turbo = simple_off
off_of simple_lockout = simple_off
off_of simple_battcheck = simple_off
off_of _ = adv_off

abbrev pub route : Node → List ZbeamMsg
route simple_on = taps 1 ∷ []
route simple_ramp = held 1 ∷ []
route simple_turbo = taps 2 ∷ []
route simple_battcheck = taps 3 ∷ []
route simple_lockout = taps 4 ∷ []
route adv_on = taps 1 ∷ []
route adv_ramp = held 1 ∷ []
route adv_turbo = taps 2 ∷ []
route adv_battcheck = taps 3 ∷ []
route adv_lockout = taps 4 ∷ []
route adv_reset = taps 5 ∷ []
route adv_aux_config = taps 7 ∷ []
route adv_strobe = held 3 ∷ []
route adv_tempcheck = taps 3 ∷ taps 2 ∷ []
route adv_cal_voltage = taps 3 ∷ held 7 ∷ []
route adv_cal_thermal_current = taps 3 ∷ taps 2 ∷ held 7 ∷ []
route adv_cal_thermal_limit = taps 3 ∷ taps 2 ∷ held 7 ∷ taps 1 ∷ []
route adv_config_floor = taps 1 ∷ held 7 ∷ []
route adv_config_ceiling = taps 1 ∷ held 7 ∷ taps 1 ∷ []
route _ = []

abbrev Arrives : Env → Node → Machine Node Device → Type 0
Arrives env n m =
    (m' : Machine Node Device) × (handle_all (table env) (route n) m ≡ some m')
    × (m'.fsm.current_node ≡ some n)

-- From the lamp that is off, whatever the rest of its state, the taps and holds of a node's route lead
-- to that node: to each node in use of either interface.
pub route-Arrives :
    (env : Env) (n : Node) (m : Machine Node Device)
    → is_used n ≡ true
    → m.fsm.current_node ≡ some (off_of n)
    → Arrives env n m
unfolding handle_all handle_msg fsm_process_msg dispatch_input table fsm_transition_to
    reset_inactivity_timer cb_config_floor_set cb_cal_thermal_set cb_adv_hold_from_off
    cb_simple_hold_from_off
route-Arrives env simple_off m used here = (m, refl, here)
route-Arrives env simple_on m used here = rw here (_, refl, refl)
route-Arrives env simple_ramp m used here = rw here (_, refl, refl)
route-Arrives env simple_turbo m used here = rw here (_, refl, refl)
route-Arrives env simple_lockout m used here = rw here (_, refl, refl)
route-Arrives env simple_battcheck m used here = rw here (_, refl, refl)
route-Arrives env adv_off m used here = (m, refl, here)
route-Arrives env adv_on m used here = rw here (_, refl, refl)
route-Arrives env adv_ramp m used here = rw here (_, refl, refl)
route-Arrives env adv_turbo m used here = rw here (_, refl, refl)
route-Arrives env adv_lockout m used here = rw here (_, refl, refl)
route-Arrives env adv_battcheck m used here = rw here (_, refl, refl)
route-Arrives env adv_tempcheck m used here = rw here (_, refl, refl)
route-Arrives env adv_reset m used here = rw here (_, refl, refl)
route-Arrives env adv_strobe m used here = rw here (_, refl, refl)
route-Arrives env adv_config_floor m used here = rw here (_, refl, refl)
route-Arrives env adv_config_ceiling m used here = rw here (_, refl, refl)
route-Arrives env adv_aux_config m used here = rw here (_, refl, refl)
route-Arrives env adv_cal_voltage m used here = rw here (_, refl, refl)
route-Arrives env adv_cal_thermal_current m used here = rw here (_, refl, refl)
route-Arrives env adv_cal_thermal_limit m used here = rw here (_, refl, refl)
route-Arrives env simple_moon m used here = cc
route-Arrives env adv_moon m used here = cc
route-Arrives env simple_reset m used here = cc
route-Arrives env adv_blink m used here = cc
route-Arrives env adv_party_strobe m used here = cc
route-Arrives env adv_config_steps m used here = cc
