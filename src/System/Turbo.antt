-- ===== src/System/Turbo.antt =====
-- Turbo straight from a lamp that is off: `action_turbo` of src/ui_actions.c starts no thermal timer.
use zbeam.Base.{◌≡◌, refl, sym, ap, ◌∙◌, subst, false, some, List, [], ◌∷◌}
use zbeam.Env.{Env}
use zbeam.Kernel.{stopped}
use zbeam.Msg.{ZbeamMsg, input_tap}
use zbeam.Fsm.{Machine, dispatch_input, fsm_process_msg, fsm_transition_to, reset_inactivity_timer}
use zbeam.Node.{Node, simple_turbo, adv_turbo}
use zbeam.Worker.{handle_msg}
use zbeam.Thermal.{Gains}
use zbeam.Pm.{pm_resume}
use zbeam.Ui.Device.{
  Device, UiMode, ui_simple, ui_advanced, pulses, light, on_pm, update_led_hardware,
}
use zbeam.Ui.Actions.{action_turbo}
use zbeam.Ui.Memory.{pm_resume-awake}
use zbeam.Ui.Dark.{stop-keeps}
use zbeam.Tree.Table.{table}
use zbeam.Tree.Modes.{IsOff}
use zbeam.System.{System, Board, boot}
use zbeam.System.Taps.{off_node}
use zbeam.System.Home.{off_node-IsOff}
use zbeam.System.Events.{Event, taken, thermal_expiry, on_event}
use zbeam.System.Live.{live_event, live_events}
use zbeam.System.Modes.{lamp-In}

abbrev pub two_taps : ZbeamMsg
two_taps = record { type = input_tap; count = 2; severity = 0 }

abbrev pub turbo_node : UiMode → Node
turbo_node ui_simple = simple_turbo
turbo_node ui_advanced = adv_turbo

doubled :
    (u : UiMode) (env : Env) (m : Machine Node Device)
    → m.fsm.current_node ≡ some (off_node u)
    → (m' : Machine Node Device) × (handle_msg (table env) two_taps m ≡ some m')
      × (m'.fsm.current_node ≡ some (turbo_node u))
      × (m'.rest ≡ action_turbo m.rest)
unfolding handle_msg fsm_process_msg dispatch_input table fsm_transition_to reset_inactivity_timer
doubled ui_simple env m here = rw here (_, refl, refl, refl)
doubled ui_advanced env m here = rw here (_, refl, refl, refl)

some_here :
    (n : Node) (m : Machine Node Device) (k : Node)
    → m.fsm.current_node ≡ some n
    → m.fsm.current_node ≡ some k
    → k ≡ n
some_here n m k p q = cc

-- `action_turbo` leaves the thermal timer, and gives the light of the ceiling.
turbo-heat :
    (d : Device)
    → let e = action_turbo d in
      (e.ui.thermal_timer ≡ d.ui.thermal_timer)
      × (e.pm.is_suspended ≡ false)
      × (pulses e.calls ≡ light d d.ui.brightness_ceiling)
unfolding action_turbo update_led_hardware
turbo-heat d =
    let e = on_pm pm_resume d in
    let (thermal, channel, pm, _, _, heat, _, _) = stop-keeps e in
    (heat, ap (λ p. p.is_suspended) pm ∙ pm_resume-awake d.pm, cc)

-- The thermal timer's expiries, at the given moments.
abbrev pub heat_ticks : List Env → List (Env × Event)
heat_ticks [] = []
heat_ticks (env ∷ envs) = (env, thermal_expiry) ∷ heat_ticks envs

no_ticks :
    (gains : Gains) (envs : List Env) (m : Machine Node Device)
    → m.rest.ui.thermal_timer ≡ stopped
    → live_events gains (heat_ticks envs) m ≡ some m
unfolding live_events
no_ticks gains [] m h = refl
no_ticks gains (env ∷ envs) m h =
    let still : live_event gains env thermal_expiry m ≡ some m = rw (live_event, h) refl in
    rw (live_events, still) (no_ticks gains envs m h)

-- After `main` and any events that have led to a node of the lamp that is off, two taps lead to turbo:
-- the device is awake, the emitters have the light of the ceiling, and the thermal timer is stopped,
-- so that no expiry of it, at whatever temperatures, changes anything.
pub turbo-unregulated :
    (gains : Gains) (b : Board) (env : Env) (s : System) (es : List (Env × Event)) (u : UiMode)
    (now : Env) (later : List Env) (m : Machine Node Device)
    → live_events gains es (boot b env s).lamp ≡ some m
    → m.fsm.current_node ≡ some (off_node u)
    → (m' : Machine Node Device) × (live_events gains ((now, taken two_taps) ∷ []) m ≡ some m')
      × (m'.fsm.current_node ≡ some (turbo_node u))
      × (m'.rest.pm.is_suspended ≡ false)
      × (pulses m'.rest.calls ≡ light m.rest m.rest.ui.brightness_ceiling)
      × (m'.rest.ui.thermal_timer ≡ stopped)
      × (live_events gains (heat_ticks later) m' ≡ some m')
unfolding live_events on_event
turbo-unregulated gains b env s es u now later m e here =
    let (m0, e0, w) = lamp-In gains b env s es in
    let same : m0 ≡ m = cc in
    let here_is : w.here ≡ off_node u =
      some_here (off_node u) m w.here here (ap (λ k. k.fsm.current_node) (sym same) ∙ w.current) in
    let off : IsOff w.here = subst (λ n. IsOff n) (sym here_is) (off_node-IsOff u) in
    let cold : m.rest.ui.thermal_timer ≡ stopped =
      ap (λ k. k.rest.ui.thermal_timer) (sym same) ∙ (w.state.1 off).0 in
    let (m', e', there, rest) = doubled u now m here in
    let (heat, awake, bright) = turbo-heat m.rest in
    let still = ap (λ d. d.ui.thermal_timer) rest ∙ heat ∙ cold in
    (
      m',
      rw (live_events, e') refl,
      there,
      ap (λ d. d.pm.is_suspended) rest ∙ awake,
      ap (λ d. pulses d.calls) rest ∙ bright,
      still,
      no_ticks gains later m' still,
    )
