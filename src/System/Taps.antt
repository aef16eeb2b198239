-- ===== src/System/Taps.antt =====
-- The taps that turn the lamp on and off, in both interfaces.
use zbeam.Base.{◌≡◌, refl, some, [], ◌∷◌}
use zbeam.Env.{Env}
use zbeam.Msg.{ZbeamMsg, input_tap}
use zbeam.Fsm.{Machine, dispatch_input, fsm_process_msg, fsm_transition_to, reset_inactivity_timer}
use zbeam.Node.{Node, simple_off, simple_on, adv_off, adv_on}
use zbeam.Worker.{handle_all, handle_msg}
use zbeam.Ui.Device.{Device, UiMode, ui_simple, ui_advanced}
use zbeam.Ui.Actions.{action_off, action_on}
use zbeam.Tree.Table.{table}

abbrev pub one_tap : ZbeamMsg
one_tap = record { type = input_tap; count = 1; severity = 0 }

tap-simple :
    (env : Env) (m : Machine Node Device)
    → m.fsm.current_node ≡ some simple_off
    → (m' : Machine Node Device) × (handle_all (table env) (one_tap ∷ []) m ≡ some m')
      × (m'.fsm.current_node ≡ some simple_on)
      × (m'.fsm.emergency_shutdown_active ≡ m.fsm.emergency_shutdown_active)
      × (m'.rest ≡ action_on env m.rest)
unfolding handle_all handle_msg fsm_process_msg dispatch_input table fsm_transition_to
    reset_inactivity_timer
tap-simple env m here = rw here (_, refl, refl, refl, refl)

tap-advanced :
    (env : Env) (m : Machine Node Device)
    → m.fsm.current_node ≡ some adv_off
    → (m' : Machine Node Device) × (handle_all (table env) (one_tap ∷ []) m ≡ some m')
      × (m'.fsm.current_node ≡ some adv_on)
      × (m'.fsm.emergency_shutdown_active ≡ m.fsm.emergency_shutdown_active)
      × (m'.rest ≡ action_on env m.rest)
unfolding handle_all handle_msg fsm_process_msg dispatch_input table fsm_transition_to
    reset_inactivity_timer
tap-advanced env m here = rw here (_, refl, refl, refl, refl)

tap_off-simple :
    (env : Env) (m : Machine Node Device)
    → m.fsm.current_node ≡ some simple_on
    → (m' : Machine Node Device) × (handle_all (table env) (one_tap ∷ []) m ≡ some m')
      × (m'.fsm.current_node ≡ some simple_off)
      × (m'.rest ≡ action_off env m.rest)
unfolding handle_all handle_msg fsm_process_msg dispatch_input table fsm_transition_to
    reset_inactivity_timer
tap_off-simple env m here = rw here (_, refl, refl, refl)

tap_off-advanced :
    (env : Env) (m : Machine Node Device)
    → m.fsm.current_node ≡ some adv_on
    → (m' : Machine Node Device) × (handle_all (table env) (one_tap ∷ []) m ≡ some m')
      × (m'.fsm.current_node ≡ some adv_off)
      × (m'.rest ≡ action_off env m.rest)
unfolding handle_all handle_msg fsm_process_msg dispatch_input table fsm_transition_to
    reset_inactivity_timer
tap_off-advanced env m here = rw here (_, refl, refl, refl)

-- The node that a tap leads to from the start node of an interface.
abbrev pub on_node : UiMode → Node
on_node ui_simple = simple_on
on_node ui_advanced = adv_on

abbrev pub off_node : UiMode → Node
off_node ui_simple = simple_off
off_node ui_advanced = adv_off

pub tap-on :
    (u : UiMode) (env : Env) (m : Machine Node Device)
    → m.fsm.current_node ≡ some (off_node u)
    → (m' : Machine Node Device) × (handle_all (table env) (one_tap ∷ []) m ≡ some m')
      × (m'.fsm.current_node ≡ some (on_node u))
      × (m'.fsm.emergency_shutdown_active ≡ m.fsm.emergency_shutdown_active)
      × (m'.rest ≡ action_on env m.rest)
tap-on ui_simple env m here = tap-simple env m here
tap-on ui_advanced env m here = tap-advanced env m here

pub tap-off :
    (u : UiMode) (env : Env) (m : Machine Node Device)
    → m.fsm.current_node ≡ some (on_node u)
    → (m' : Machine Node Device) × (handle_all (table env) (one_tap ∷ []) m ≡ some m')
      × (m'.fsm.current_node ≡ some (off_node u))
      × (m'.rest ≡ action_off env m.rest)
tap-off ui_simple env m here = tap_off-simple env m here
tap-off ui_advanced env m here = tap_off-advanced env m here
