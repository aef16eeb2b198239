-- ===== src/Examples/Whole.antt =====
-- The whole firmware at concrete inputs: its start, a press, and a fault.
use zbeam.Base.{◌-◌, ◌≡◌, refl, true, false, some, List, [], ◌∷◌, All}
use zbeam.Base.Int.{pos}
use zbeam.Env.{Env}
use zbeam.Kernel.{stopped, started}
use zbeam.Fsm.{Machine}
use zbeam.Node.{Node, simple_off, simple_on}
use zbeam.Thermal.{default_gains}
use zbeam.Tap.{tap_run, tap_reset}
use zbeam.Safety.{Readings, default_limits, safety_reset, check_fault, safety_round}
use zbeam.Worker.{handle_all}
use zbeam.Ui.Device.{Device, ui_simple, pulses, light}
use zbeam.Ui.Init.{ui_init}
use zbeam.Ui.Actions.{get_start_node}
use zbeam.Ui.Memory.{chosen, kept_level}
use zbeam.Tree.Table.{table}
use zbeam.Pwm.{ramp_reset}
use zbeam.Pwm.Contract.{generic_ops}
use zbeam.System.{System, Board, boot}
use zbeam.System.Boot.{boot-dark}
use zbeam.System.Taps.{one_tap}
use zbeam.System.Tapped.{press, press-lights}
use zbeam.System.Events.{Event, taken, thermal_expiry, on_events}
use zbeam.System.Fault.{fault-relit}
use zbeam.Examples.Lamp.{env, unset}

abbrev pub board : Board
board = record {
  aux_pin_ready = true;
  pwm_led = some (record { ready = true; period = 1000000 });
  ramp_ops = generic_ops;
  default_mode = ui_simple;
  esp32c3 = true;
  register = λ _. 0;
}

abbrev pub before : System
before = record { lamp = unset; ramp = ramp_reset; tap = tap_reset 400 500; boot_calls = [] }

abbrev pub later : Env
later = record env { uptime = 9000 }

abbrev pub night : Env
night = record env { uptime = 20000 }

abbrev pub up : System
up = boot board env before

boot-dark_example :
    (up.lamp.fsm.current_node ≡ some simple_off)
    × (up.lamp.fsm.home_node ≡ some simple_off)
    × (up.lamp.fsm.inactivity_timer ≡ stopped)
    × All (λ x. x ≡ 0) (pulses up.lamp.rest.calls)
    × (up.lamp.rest.ui.ramp_timer ≡ stopped)
    × (up.lamp.rest.ui.strobe_timer ≡ stopped)
    × (up.lamp.rest.ui.thermal_timer ≡ stopped)
    × (up.lamp.rest.pm.is_suspended ≡ true)
unfolding get_start_node ui_init
boot-dark_example = boot-dark board env before

press-lights_example :
    let d = up.lamp.rest in
    let level =
      chosen d.ui.override_brightness d.ui.current_mem_mode
        (9000 - d.ui.last_off_time)
        d.ui.hybrid_timeout_ms
        d.ui.manual_mem_level
        (kept_level d.ui) in
    let (t, posted) = tap_run press up.tap in
    (lit : Machine Node Device) × (dark : Machine Node Device) × (handle_all
        (table later)
        posted
        up.lamp
      ≡ some lit)
    × (handle_all (table night) (tap_run press t).1 lit ≡ some dark)
    × (lit.fsm.current_node ≡ some simple_on)
    × (lit.rest.pm.is_suspended ≡ false)
    × (lit.rest.ui.thermal_timer ≡ started 500 500)
    × (lit.rest.ui.current_brightness ≡ level)
    × (pulses lit.rest.calls ≡ light d level)
    × (dark.fsm.current_node ≡ some simple_off)
    × All (λ x. x ≡ 0) (pulses dark.rest.calls)
unfolding ui_init
press-lights_example = press-lights board env later night before (refl, refl)

abbrev events : List (Env × Event)
events = (env, taken one_tap) ∷ (later, thermal_expiry) ∷ []

abbrev pub too_hot : Readings
too_hot = record { temperature_c10 = pos 900; current_ma = 800; voltage_mv = 3800 }

fault-relit_example :
    (m : Machine Node Device) × (m' : Machine Node Device) × (lit : Machine Node Device)
    × (on_events default_gains events up.lamp ≡ some m)
    × (handle_all (table later) (safety_round default_limits too_hot safety_reset).1 m ≡ some m')
    × (handle_all (table night) (one_tap ∷ []) m' ≡ some lit)
    × (lit.fsm.current_node ≡ some simple_on)
    × (lit.fsm.emergency_shutdown_active ≡ true)
    × (lit.rest.pm.is_suspended ≡ false)
    × (pulses lit.rest.calls
        ≡ light m'.rest (
            chosen m'.rest.ui.override_brightness m'.rest.ui.current_mem_mode
              (20000 - 9000)
              m'.rest.ui.hybrid_timeout_ms
              m'.rest.ui.manual_mem_level
              (kept_level m'.rest.ui)))
unfolding check_fault ui_init
fault-relit_example =
    fault-relit default_gains board env before events later default_limits too_hot safety_reset
      night refl refl
