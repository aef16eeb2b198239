-- ===== src/System/Events.antt =====
-- Everything that can happen to the lamp once `main` has put it together: the messages that the
-- worker takes from its queue, and the expiries of the software timers.
use zbeam.Base.{◌≡◌, refl, subst, ltb, if◌then◌else◌, Option, none, some, List, [], ◌∷◌, ◌++◌}
use zbeam.Env.{Env}
use zbeam.Kernel.{stopped, started}
use zbeam.Msg.{ZbeamMsg}
use zbeam.Fsm.{Machine, inactivity_timer_handler}
use zbeam.Fsm.Armed.{IsArmed, handler-IsArmed, rest-IsArmed}
use zbeam.Node.{
  Node, simple_off, simple_on, simple_ramp, simple_moon, simple_turbo, simple_lockout,
  simple_battcheck, simple_reset, adv_off, adv_on, adv_ramp, adv_moon, adv_turbo, adv_lockout,
  adv_battcheck, adv_tempcheck, adv_reset, adv_strobe, adv_config_floor, adv_config_ceiling,
  adv_aux_config, adv_cal_voltage, adv_cal_thermal_current, adv_cal_thermal_limit, adv_blink,
  adv_party_strobe, adv_config_steps,
}
use zbeam.Thermal.{Gains}
use zbeam.Aux.{aux_work_handler}
use zbeam.Tables.Sine.{pwm_sine_table}
use zbeam.Worker.{handle_msg}
use zbeam.Worker.Run.{handle_msg-IsArmed}
use zbeam.Ui.Device.{Device}
use zbeam.Ui.Ramp.{ramp_timer_handler}
use zbeam.Ui.Strobe.{strobe_timer_handler}
use zbeam.Ui.Actions.{thermal_timer_handler}
use zbeam.Ui.Config.{buzz_timer_handler}
use zbeam.Tree.Table.{table}

pub data Event : Type 0 where
  taken : ZbeamMsg → Event
  inactivity_expiry thermal_expiry ramp_expiry strobe_expiry buzz_expiry aux_expiry : Event

-- The handler of the AUX timer, with its state and its calls put back.
unfoldable pub aux_tick : Env → Device → Device
unfolding aux_work_handler
aux_tick env d =
    let (aux, calls) = aux_work_handler pwm_sine_table env.aux_ready d.aux in
    record d { aux = aux; calls = calls ++ d.calls }

module _ (gains : Gains) where
  -- The handler of an event, with the readings of its moment; `none` is a fault.
  unfoldable pub on_event : Env → Event → Machine Node Device → Option (Machine Node Device)
  on_event env (taken msg) m = handle_msg (table env) msg m
  on_event env inactivity_expiry m = some (inactivity_timer_handler (table env) m)
  on_event env thermal_expiry m = some (record m { rest = thermal_timer_handler gains env m.rest })
  on_event env ramp_expiry m = some (record m { rest = ramp_timer_handler m.rest })
  on_event env strobe_expiry m = some (record m { rest = strobe_timer_handler env m.rest })
  on_event env buzz_expiry m = some (record m { rest = buzz_timer_handler m.rest })
  on_event env aux_expiry m = some (record m { rest = aux_tick env m.rest })

  unfoldable pub on_events : List (Env × Event) → Machine Node Device → Option (Machine Node Device)
  on_events [] m = some m
  on_events ((env, e) ∷ es) m = elim (on_event env e m) [ none ↦ none | some m' ↦ on_events es m' ]

-- The readings have no influence on a node's timeout.
same_timeout : (a b : Env) (n : Node) → (table a n).timeout_ms ≡ (table b n).timeout_ms
unfolding table
same_timeout a b simple_off = refl
same_timeout a b simple_on = refl
same_timeout a b simple_ramp = refl
same_timeout a b simple_moon = refl
same_timeout a b simple_turbo = refl
same_timeout a b simple_lockout = refl
same_timeout a b simple_battcheck = refl
same_timeout a b simple_reset = refl
same_timeout a b adv_off = refl
same_timeout a b adv_on = refl
same_timeout a b adv_ramp = refl
same_timeout a b adv_moon = refl
same_timeout a b adv_turbo = refl
same_timeout a b adv_lockout = refl
same_timeout a b adv_battcheck = refl
same_timeout a b adv_tempcheck = refl
same_timeout a b adv_reset = refl
same_timeout a b adv_strobe = refl
same_timeout a b adv_config_floor = refl
same_timeout a b adv_config_ceiling = refl
same_timeout a b adv_aux_config = refl
same_timeout a b adv_cal_voltage = refl
same_timeout a b adv_cal_thermal_current = refl
same_timeout a b adv_cal_thermal_limit = refl
same_timeout a b adv_blink = refl
same_timeout a b adv_party_strobe = refl
same_timeout a b adv_config_steps = refl

other_readings :
    (a b : Env) {start : Node} {m : Machine Node Device}
    → IsArmed (table a) start m
    → IsArmed (table b) start m
other_readings a b {start} {m} armed = record {
  here = armed.here;
  current = armed.current;
  timer =
      subst (λ ms. m.fsm.inactivity_timer ≡ (if ltb 0 ms then started ms 0 else stopped))
        (same_timeout a b armed.here) armed.timer;
  home_lem = armed.home_lem;
}

module _ (gains : Gains) {start : Node}
    (untimed : (env : Env) → (table env start).timeout_ms ≡ 0) where
  on_event-IsArmed :
      (env : Env) (e : Event) (m : Machine Node Device)
      → IsArmed (table env) start m
      → (m' : Machine Node Device) × (on_event gains env e m ≡ some m')
        × IsArmed (table env) start m'
  unfolding on_event
  on_event-IsArmed env (taken msg) m a = handle_msg-IsArmed (table env) (untimed env) msg m a
  on_event-IsArmed env inactivity_expiry m a = (_, refl, handler-IsArmed (table env) start m a)
  on_event-IsArmed env thermal_expiry m a = (_, refl, rest-IsArmed (table env) start m _ a)
  on_event-IsArmed env ramp_expiry m a = (_, refl, rest-IsArmed (table env) start m _ a)
  on_event-IsArmed env strobe_expiry m a = (_, refl, rest-IsArmed (table env) start m _ a)
  on_event-IsArmed env buzz_expiry m a = (_, refl, rest-IsArmed (table env) start m _ a)
  on_event-IsArmed env aux_expiry m a = (_, refl, rest-IsArmed (table env) start m _ a)

  -- No sequence of events makes a fault, and all keep the engine's invariant.
  pub on_events-IsArmed :
      (es : List (Env × Event)) (env : Env) (m : Machine Node Device)
      → IsArmed (table env) start m
      → (m' : Machine Node Device) × (on_events gains es m ≡ some m') × IsArmed (table env) start m'
  unfolding on_events
  on_events-IsArmed [] env m a = (m, refl, a)
  on_events-IsArmed ((now, e) ∷ es) env m a =
      let (m1, e1, a1) = on_event-IsArmed now e m (other_readings env now a) in
      let (m2, e2, a2) = on_events-IsArmed es env m1 (other_readings now env a1) in
      (m2, rw (on_events, e1) e2, a2)
