-- ===== src/System/Fault.antt =====
-- From a bad reading of lib/safety_monitor.c to the dark lamp, and what the next press does.
use zbeam.Base.{
  ◌-◌, ◌≡◌, refl, ◌∙◌, sym, ap, subst, arith, true, false, some, List, [], ◌∷◌, ltb, if◌then◌else◌,
}
use zbeam.Env.{Env}
use zbeam.Kernel.{stopped, started}
use zbeam.Fsm.{FsmNode, Machine, fsm_emergency_off}
use zbeam.Fsm.Armed.{IsArmed}
use zbeam.Node.{Node}
use zbeam.Thermal.{Gains}
use zbeam.Safety.{
  Limits, Readings, Safety, check_fault, is_safe, shutdown_msg, safety_round,
  safety_emergency_shutdown,
}
use zbeam.Worker.{handle_all, handle_msg}
use zbeam.Ui.Device.{Device, pulses, light}
use zbeam.Ui.Init.{ui_init}
use zbeam.Ui.Actions.{action_off, action_on, get_start_node}
use zbeam.Ui.Memory.{chosen, kept_level, action_on-chosen, off-memory}
use zbeam.Ui.Dark.{action_off-dark}
use zbeam.Tree.Table.{table}
use zbeam.System.{System, Board, boot}
use zbeam.System.Boot.{boot-state, start-action}
use zbeam.System.Taps.{one_tap, on_node, tap-on}
use zbeam.System.Tapped.{off_node-start}
use zbeam.System.Events.{Event, on_events, on_events-IsArmed}

-- A round that finds the first fault.
pub fault-posts :
    (l : Limits) (r : Readings) (g : Safety)
    → is_safe (check_fault l r) ≡ false
    → g.shutdown_triggered ≡ false
    → (safety_round l r g).1 ≡ shutdown_msg ∷ []
unfolding safety_round safety_emergency_shutdown
fault-posts l r g bad first = ground arith

module _ {N S : Type 0} (table : N → FsmNode N S) where
  -- The shutdown message at a home node that has a routine.
  shutdown-state :
      (home : N) (act : S → S) (m : Machine N S)
      → m.fsm.home_node ≡ some home
      → (table home).action_routine ≡ some act
      → (m' : Machine N S) × (handle_all table (shutdown_msg ∷ []) m ≡ some m')
        × (m'.fsm.current_node ≡ some home)
        × (m'.fsm.home_node ≡ some home)
        × (m'.fsm.inactivity_timer ≡ stopped)
        × (m'.fsm.emergency_shutdown_active ≡ true)
        × (m'.rest ≡ act m.rest)
  unfolding handle_all handle_msg fsm_emergency_off
  shutdown-state home act m h a = rw (h, a) (_, refl, refl, refl, refl, refl, refl)

pub start_IsArmed :
    (b : Board) (env : Env) (s : System)
    → IsArmed
        (table env)
        (get_start_node (ui_init b.default_mode env s.lamp.rest))
        (boot b env s).lamp
start_IsArmed b env s =
    let before = ui_init b.default_mode env s.lamp.rest in
    let (here, home, timer, _) = boot-state b env s in
    let (_, untimed) = start-action env before in
    record {
      here = get_start_node before;
      current = here;
      timer =
          timer
          ∙ subst (λ ms. stopped ≡ (if ltb 0 ms then started ms 0 else stopped)) (sym untimed) refl;
      home_lem = home;
    }

-- What a fault leaves, in the words of the engine.
record Shut (b : Board) (env now : Env) (s : System) (m m' : Machine Node Device) : Type 0 where
  current : m'.fsm.current_node ≡ some (get_start_node (ui_init b.default_mode env s.lamp.rest))
  timer : m'.fsm.inactivity_timer ≡ stopped
  flag : m'.fsm.emergency_shutdown_active ≡ true
  rest : m'.rest ≡ action_off now m.rest

module _ (gains : Gains) (b : Board) (env : Env) (s : System) (es : List (Env × Event)) (now : Env)
    (l : Limits) (r : Readings) (g : Safety) where
  fault-Shut :
      is_safe (check_fault l r) ≡ false
      → g.shutdown_triggered ≡ false
      → (m : Machine Node Device) × (m' : Machine Node Device) × (on_events gains es
            (boot b env s).lamp
          ≡ some m)
        × (handle_all (table now) (safety_round l r g).1 m ≡ some m')
        × Shut b env now s m m'
  fault-Shut bad first =
      let before = ui_init b.default_mode env s.lamp.rest in
      let (m, e, a) =
        on_events-IsArmed gains (λ env'. (start-action env' before).1) es env (boot b env s).lamp
          (start_IsArmed b env s) in
      let (m', e', here, _, timer, flag, rest) =
        shutdown-state (table now) (get_start_node before) (action_off now) m a.home_lem
          (start-action now before).0 in
      (
        m,
        m',
        e,
        subst (λ ms. handle_all (table now) ms m ≡ some m') (sym (fault-posts l r g bad first)) e',
        record { current = here; timer = timer; flag = flag; rest = rest },
      )

  -- After `main` and any sequence of messages and timer expiries, each with its own readings, the
  -- engine has never lacked a node; and then a round of the safety monitor whose reading is beyond
  -- a limit, the first such, posts a message with which the worker turns the lamp off: the engine is
  -- at the start node with the shutdown flag set and no timeout, the emitters have the light of level
  -- 0, the ramp, strobe and thermal timers are stopped and the device is suspended.
  pub fault-dark :
      is_safe (check_fault l r) ≡ false
      → g.shutdown_triggered ≡ false
      → (m : Machine Node Device) × (m' : Machine Node Device) × (on_events gains es
            (boot b env s).lamp
          ≡ some m)
        × (handle_all (table now) (safety_round l r g).1 m ≡ some m')
        × (m'.fsm.current_node ≡ some (get_start_node (ui_init b.default_mode env s.lamp.rest)))
        × (m'.fsm.inactivity_timer ≡ stopped)
        × (m'.fsm.emergency_shutdown_active ≡ true)
        × (pulses m'.rest.calls ≡ light m.rest 0)
        × (m'.rest.ui.ramp_timer ≡ stopped)
        × (m'.rest.ui.strobe_timer ≡ stopped)
        × (m'.rest.ui.thermal_timer ≡ stopped)
        × (m'.rest.pm.is_suspended ≡ true)
  fault-dark bad first =
      let (m, m', e, e', shut) = fault-Shut bad first in
      let (dark, ramp, strobe, heat, asleep, _, _) = action_off-dark now m.rest in
      (
        m,
        m',
        e,
        e',
        shut.current,
        shut.timer,
        shut.flag,
        ap (λ d. pulses d.calls) shut.rest ∙ dark,
        ap (λ d. d.ui.ramp_timer) shut.rest ∙ ramp,
        ap (λ d. d.ui.strobe_timer) shut.rest ∙ strobe,
        ap (λ d. d.ui.thermal_timer) shut.rest ∙ heat,
        ap (λ d. d.pm.is_suspended) shut.rest ∙ asleep,
      )

  -- After `main`, any sequence of messages and timer expiries, and the shutdown for a first fault, the
  -- next tap lights the lamp as any tap does: the engine goes to the node for the lit lamp, the device
  -- is awake and the emitters have the light of the level that the override or the memory mode
  -- chooses, while the shutdown flag is still set.
  pub fault-relit :
      (later : Env)
      → is_safe (check_fault l r) ≡ false
      → g.shutdown_triggered ≡ false
      → (m : Machine Node Device) × (m' : Machine Node Device) × (lit : Machine Node Device)
        × (on_events gains es (boot b env s).lamp ≡ some m)
        × (handle_all (table now) (safety_round l r g).1 m ≡ some m')
        × (handle_all (table later) (one_tap ∷ []) m' ≡ some lit)
        × (lit.fsm.current_node
            ≡ some (on_node (ui_init b.default_mode env s.lamp.rest).ui.current_ui_mode))
        × (lit.fsm.emergency_shutdown_active ≡ true)
        × (lit.rest.pm.is_suspended ≡ false)
        × (pulses lit.rest.calls
            ≡ light m'.rest (
                chosen m'.rest.ui.override_brightness m'.rest.ui.current_mem_mode
                  (later.uptime - now.uptime)
                  m'.rest.ui.hybrid_timeout_ms
                  m'.rest.ui.manual_mem_level
                  (kept_level m'.rest.ui)))
  fault-relit later bad first =
      let before = ui_init b.default_mode env s.lamp.rest in
      let (m, m', e, e', shut) = fault-Shut bad first in
      let (lit, e2, there, flag, on) =
        tap-on before.ui.current_ui_mode later m'
          (shut.current ∙ ap (λ n. some n) (sym (off_node-start before))) in
      let (awake, _, _, _, _, bright) = action_on-chosen later m'.rest in
      let u = m'.rest.ui in
      let since : m'.rest.ui.last_off_time ≡ now.uptime =
        ap (λ d. d.ui.last_off_time) shut.rest ∙ (off-memory now m.rest).3 in
      (
        m,
        m',
        lit,
        e,
        e',
        e2,
        there,
        flag ∙ shut.flag,
        ap (λ d. d.pm.is_suspended) on ∙ awake,
        ap (λ d. pulses d.calls) on
            ∙ subst
                (λ t.
                  pulses (action_on later m'.rest).calls
                  ≡ light m'.rest (
                      chosen u.override_brightness u.current_mem_mode (later.uptime - t)
                        u.hybrid_timeout_ms u.manual_mem_level (kept_level u)))
                since bright,
      )
