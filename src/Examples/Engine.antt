-- ===== src/Examples/Engine.antt =====
-- The engine of lib/fsm_engine.c on the tree of lib/zbeam_tree_simple.c.
use zbeam.Base.{◌≡◌, ◌≢◌, arith, refl, some, List, [], ◌∷◌}
use zbeam.Worker.{handle_msg}
use zbeam.Kernel.{stopped, started}
use zbeam.Msg.{ZbeamMsg, input_tap, input_hold_start, timeout_inactivity}
use zbeam.Fsm.{Machine, fsm_init, fsm_process_msg, dispatch_input, inactivity_timer_handler}
use zbeam.Fsm.Armed.{IsArmed}
use zbeam.Fsm.Dispatch.{dispatch_input-current, first_some, goal_of}
use zbeam.Fsm.Timeout.{initially, later, message, Reach-IsArmed}
use zbeam.Node.{Node, simple_off, adv_on, adv_config_ceiling}
use zbeam.Safety.{shutdown_msg}
use zbeam.Tree.Table.{table}
use zbeam.Ui.Actions.{action_on}
use zbeam.Tree.Menus.{menu_timeout-buzz}
use zbeam.Tree.Confined.{by_off}
use zbeam.Tree.Inside.{AtSimple, simple-AtSimple}
use zbeam.Ui.Device.{Device}
use zbeam.Examples.Lamp.{env, ui, lamp, unset, at_off, one_tap}

dispatch_input-current_example :
    (dispatch_input (table env) input_tap 1 at_off).fsm.current_node
    ≡ first_some (goal_of (table env) input_tap simple_off 1 lamp) (some simple_off)
dispatch_input-current_example =
    dispatch_input-current (table env) input_tap 1 simple_off at_off refl

-- The lamp after `fsm_init` and one tap.
abbrev tapped : Machine Node Device
tapped = fsm_process_msg (table env) one_tap (fsm_init (table env) (some simple_off) unset)

Reach-IsArmed_example : IsArmed (table env) simple_off tapped
unfolding table
Reach-IsArmed_example = Reach-IsArmed (table env) refl (later (initially lamp) (message one_tap))

abbrev timeout_msg : ZbeamMsg
timeout_msg = record { type = timeout_inactivity; count = 0; severity = 0 }

-- A tap and then a shutdown.
abbrev tap_and_shutdown : List ZbeamMsg
tap_and_shutdown = one_tap ∷ shutdown_msg ∷ []

tap-not-hold : input_tap ≢ input_hold_start
tap-not-hold = ground arith

simple-AtSimple_example :
    ((m : Machine Node Device) × (handle_msg (table env) one_tap at_off ≡ some m) × AtSimple m)
    × AtSimple (inactivity_timer_handler (table env) at_off)
simple-AtSimple_example =
    simple-AtSimple env simple_off simple_off at_off one_tap by_off by_off refl refl
      (λ p _. tap-not-hold p)

-- The lamp in the menu of the ceiling, buzzing.
abbrev in_menu : Machine Node Device
in_menu = record {
  fsm = record (at_off.fsm) { current_node = some adv_config_ceiling };
  rest = record lamp { ui = record ui { buzz_timer = started 20 20 } };
}

menu_timeout-buzz_example :
    let e = inactivity_timer_handler (table env) in_menu in
    (e.fsm.current_node ≡ some adv_on)
    × (e.fsm.inactivity_timer ≡ stopped)
    × (e.rest ≡ action_on env in_menu.rest)
    × (e.rest.ui.buzz_timer ≡ started 20 20)
menu_timeout-buzz_example = menu_timeout-buzz env in_menu refl
