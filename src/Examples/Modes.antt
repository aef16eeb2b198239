-- ===== src/Examples/Modes.antt =====
-- The modes of the lamp, the order of its messages and its strobes, at concrete inputs.
use zbeam.Base.{◌≡◌, ◌⊎◌, ◌++◌, arith, refl, true, false, none, some, List, [], ◌∷◌}
use zbeam.Env.{Env}
use zbeam.Kernel.{stopped, started}
use zbeam.Msg.{ZbeamMsg}
use zbeam.Fsm.{Machine, fsm_init, fsm_transition_to}
use zbeam.Fsm.Armed.{IsArmed}
use zbeam.Fsm.Timeout.{initially, Reach-IsArmed}
use zbeam.Node.{
  Node, simple_off, simple_on, simple_turbo, adv_strobe, adv_off, adv_cal_voltage,
  adv_cal_thermal_limit,
}
use zbeam.Thermal.{default_gains}
use zbeam.Worker.{handle_all, fsm_worker_post_msg}
use zbeam.Worker.Loop.{Worker, Turn, post, turn, turns, steps, accepted}
use zbeam.Worker.Order.{steps-in_order, turns-drain}
use zbeam.Ui.Device.{Device, update_led_hardware, ui_simple, ui_advanced, pulses, light}
use zbeam.Ui.Init.{ui_init}
use zbeam.Ui.Actions.{action_off, get_start_node}
use zbeam.Ui.Ramp.{stop_ramping}
use zbeam.Ui.Memory.{chosen, remembered}
use zbeam.Ui.Strobe.{action_strobe_bike}
use zbeam.Ui.Flash.{flashes, bike-cycle}
use zbeam.Tree.Table.{table}
use zbeam.Tree.Routes.{route, held, route-Arrives}
use zbeam.Tree.StrobeNode.{let_go, hold-idle}
use zbeam.System.{boot}
use zbeam.System.Events.{taken, thermal_expiry, inactivity_expiry}
use zbeam.System.Live.{live_events}
use zbeam.Tap.{key, click_expiry}
use zbeam.Safety.{default_limits, safety_reset, check_fault}
use zbeam.System.Threads.{Threads, Act, input, monitor, work, expiry, expire, act, acts}
use zbeam.System.Prompt.{powered_up, acts-Fits, fault-prompt, Darkens, Fitting, End}
use zbeam.System.Hold.{ramped_until, hold-ramps}
use zbeam.System.Interrupts.{by_voltage}
use zbeam.System.Sleep.{menu-ends}
use zbeam.System.Home.{battery_check, check-reverts}
use zbeam.System.Turbo.{two_taps, heat_ticks, turbo-unregulated}
use zbeam.Examples.Lamp.{env, lamp, unset, at_off, one_tap}
use zbeam.Examples.Guard.{list_queue, list_get, list_put}
use zbeam.Examples.Whole.{too_hot, board, before, later, night, up}

check-reverts_example :
    (m' : Machine Node Device) × (live_events default_gains (battery_check env later night) up.lamp
      ≡ some m')
    × (m'.fsm.current_node ≡ some simple_off)
    × (m'.rest.ui.current_ui_mode ≡ ui_advanced)
unfolding ui_init live_events boot fsm_init fsm_transition_to get_start_node action_off stop_ramping
    update_led_hardware table
check-reverts_example =
    check-reverts default_gains board env before [] env later night up.lamp refl refl refl

turbo-unregulated_example :
    (m' : Machine Node Device) × (live_events default_gains ((later, taken two_taps) ∷ []) up.lamp
      ≡ some m')
    × (m'.fsm.current_node ≡ some simple_turbo)
    × (m'.rest.pm.is_suspended ≡ false)
    × (pulses m'.rest.calls ≡ light up.lamp.rest up.lamp.rest.ui.brightness_ceiling)
    × (m'.rest.ui.thermal_timer ≡ stopped)
    × (live_events default_gains (heat_ticks (night ∷ [])) m' ≡ some m')
unfolding ui_init live_events boot fsm_init fsm_transition_to get_start_node table
turbo-unregulated_example =
    turbo-unregulated default_gains board env before [] ui_simple later (night ∷ []) up.lamp refl
      refl

-- The engine after `fsm_init`, with one message in the queue.
abbrev waiting : Worker list_queue Node Device
waiting = record {
  fsm_msgq = one_tap ∷ [];
  worker_running = true;
  engine = fsm_init (table env) (some simple_off) unset;
}

abbrev order : List Turn
order = post two_taps ∷ turn ∷ post one_tap ∷ turn ∷ []

steps-in_order_example :
    (w' : Worker list_queue Node Device) × (handled : List ZbeamMsg) × (steps list_queue
        (table env)
        order
        waiting
      ≡ some w')
    × (handle_all (table env) handled waiting.engine ≡ some w'.engine)
    × (handled ++ w'.fsm_msgq ≡ one_tap ∷ two_taps ∷ one_tap ∷ [])
    × IsArmed (table env) simple_off w'.engine
unfolding accepted table list_get list_put fsm_worker_post_msg
steps-in_order_example =
    steps-in_order list_queue (table env) refl order waiting
      (Reach-IsArmed (table env) refl (initially lamp))

turns-drain_example :
    (w' : Worker list_queue Node Device) × (steps list_queue (table env) (turns 3) waiting
      ≡ some w')
    × (w'.fsm_msgq ≡ [])
    × (handle_all (table env) (one_tap ∷ []) waiting.engine ≡ some w'.engine)
unfolding table
turns-drain_example =
    turns-drain list_queue (table env) refl 3 waiting
      (Reach-IsArmed (table env) refl (initially lamp)) (omega arith)

bike-cycle_example :
    let e = flashes (env ∷ later ∷ night ∷ env ∷ []) (action_strobe_bike lamp) in
    (e.ui.strobe_timer ≡ started 20 0) × (pulses e.calls ≡ light lamp 40)
bike-cycle_example = bike-cycle env (later ∷ night ∷ env ∷ []) lamp

abbrev at_adv_off : Machine Node Device
at_adv_off = record at_off { fsm = record (at_off.fsm) { current_node = some adv_off } }

route-Arrives_example :
    (m' : Machine Node Device) × (handle_all (table env) (route adv_cal_thermal_limit) at_adv_off
      ≡ some m')
    × (m'.fsm.current_node ≡ some adv_cal_thermal_limit)
route-Arrives_example = route-Arrives env adv_cal_thermal_limit at_adv_off refl refl

abbrev strobing : Machine Node Device
strobing = record at_off { fsm = record (at_off.fsm) { current_node = some adv_strobe } }

hold-idle_example :
    (m' : Machine Node Device) × (handle_all (table env) (held 1 ∷ let_go ∷ []) strobing ≡ some m')
    × (m'.fsm.current_node ≡ some adv_strobe)
    × (m'.rest ≡ stop_ramping lamp)
    × (m'.rest.ui.strobe_frequency ≡ 128)
hold-idle_example = hold-idle env 1 strobing refl

-- A press, its release and the end of the wait, a turn of the worker, and a tick of the thermal timer.
abbrev pressed : List (Env × Act)
pressed =
    (env, input (key 1))
    ∷ (env, input (key 0))
    ∷ (env, input click_expiry)
    ∷ (env, work)
    ∷ (later, expiry thermal_expiry)
    ∷ []

abbrev running : Threads list_queue
running =
    powered_up list_queue default_gains default_limits board env before (one_tap ∷ []) safety_reset

acts-Fits_example :
    ((t : Threads list_queue) × (acts list_queue default_gains default_limits pressed running
        ≡ some t)
      × Fitting list_queue default_gains default_limits board env before
          (one_tap ∷ [])
          safety_reset
          t)
    ⊎ End list_queue default_gains default_limits board env before
        (one_tap ∷ [])
        safety_reset
        pressed
        running
acts-Fits_example =
    acts-Fits list_queue default_gains default_limits board env before (one_tap ∷ []) safety_reset
      pressed

-- After the fault the worker handles the tap that was waiting, the button goes down, and the worker
-- handles the shutdown.
abbrev after_fault : List (Env × Act)
after_fault = (later, work) ∷ (later, input (key 1)) ∷ (night, work) ∷ []

fault-prompt_example :
    (t' : Threads list_queue) × (act list_queue default_gains default_limits env
        (monitor too_hot)
        running
      ≡ some t')
    × (Darkens list_queue default_gains default_limits board env before
          (one_tap ∷ [])
          safety_reset
          after_fault
          t'
        ⊎ End list_queue default_gains default_limits board env before
            (one_tap ∷ [])
            safety_reset
            after_fault
            t')
unfolding acts check_fault
fault-prompt_example =
    fault-prompt list_queue default_gains default_limits board env before (one_tap ∷ [])
      safety_reset [] running env too_hot after_fault refl refl refl (omega arith) (omega arith)

-- The menu of the voltage, with its timeout running.
abbrev waiting_menu : Machine Node Device
waiting_menu = record at_off {
  fsm = record (at_off.fsm) {
    current_node = some adv_cal_voltage;
    inactivity_timer = started 4000 0;
  };
}

menu-ends_example :
    expire list_queue default_gains default_limits env inactivity_expiry waiting_menu ≡ none
menu-ends_example =
    menu-ends list_queue default_gains default_limits env adv_cal_voltage waiting_menu by_voltage
      refl refl

-- Two expiries of the ramp's timer lead from the floor, 1, to the level 3.
hold-ramps_example :
    (m' : Machine Node Device) × (live_events default_gains
        ((env, taken (held 1)) ∷ ramped_until (later ∷ later ∷ []) night)
        at_off
      ≡ some m')
    × (m'.fsm.current_node ≡ some simple_on)
    × (m'.rest.pm.is_suspended ≡ false)
    × (m'.rest.ui.thermal_timer ≡ started 500 500)
    × (m'.rest.ui.ramp_timer ≡ stopped)
    × (m'.rest.ui.current_brightness ≡ 3)
    × (pulses m'.rest.calls ≡ light lamp 3)
unfolding chosen remembered
hold-ramps_example =
    hold-ramps default_gains ui_simple env (later ∷ later ∷ []) night at_off refl refl refl
      (omega arith) (omega arith) (omega arith)
