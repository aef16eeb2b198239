-- ===== src/Tree/Menus.antt =====
-- How the menus of src/ui_advanced.c are left when no click comes.
use zbeam.Base.{ℕ, ◌≡◌, refl, ◌∙◌, some, arith}
use zbeam.Env.{Env}
use zbeam.Kernel.{stopped}
use zbeam.Fsm.{Machine, inactivity_timer_handler}
use zbeam.Node.{Node, adv_on, adv_config_ceiling}
use zbeam.Ui.Device.{Device, update_led_hardware}
use zbeam.Ui.Dark.{stop-keeps}
use zbeam.Ui.Actions.{action_on, light_chosen}
use zbeam.Tree.Table.{table}

light_chosen-buzz : (now : ℕ) (d : Device) → (light_chosen now d).ui.buzz_timer ≡ d.ui.buzz_timer
unfolding light_chosen update_led_hardware
light_chosen-buzz now d = ground arith

action_on-buzz : (env : Env) (d : Device) → (action_on env d).ui.buzz_timer ≡ d.ui.buzz_timer
unfolding action_on
action_on-buzz env d =
    let (_, _, _, _, _, _, buzz, _) = stop-keeps _ in light_chosen-buzz env.uptime _ ∙ buzz

-- When the ceiling's menu times out, the current node is `on`, without a timeout, `action_on`
-- has run, and the buzz timer is as it was: if it ran, it runs on.
pub menu_timeout-buzz :
    (env : Env) (m : Machine Node Device)
    → m.fsm.current_node ≡ some adv_config_ceiling
    → let e = inactivity_timer_handler (table env) m in
      (e.fsm.current_node ≡ some adv_on)
      × (e.fsm.inactivity_timer ≡ stopped)
      × (e.rest ≡ action_on env m.rest)
      × (e.rest.ui.buzz_timer ≡ m.rest.ui.buzz_timer)
unfolding inactivity_timer_handler table
menu_timeout-buzz env m here = rw here (refl, refl, refl, action_on-buzz env m.rest)
