-- ===== src/System/Modes.antt =====
-- Which timers run in which mode of the lamp, from the start on.
use zbeam.Base.{◌≡◌, refl, sym, ap, ◌∙◌, inl, inr, true, Bool-cases, Option, some, List, [], ◌∷◌}
use zbeam.Env.{Env}
use zbeam.Kernel.{runs}
use zbeam.Fsm.{Machine}
use zbeam.Fsm.Within.{Within, rest-Within}
use zbeam.Fsm.Within.Steps.{handler-Within, init-Within}
use zbeam.Worker.Within.{handle_msg-Within}
use zbeam.Node.{Node}
use zbeam.Thermal.{Gains}
use zbeam.Ui.Device.{Device}
use zbeam.Ui.Init.{ui_init}
use zbeam.Ui.Actions.{get_start_node}
use zbeam.Ui.Timers.{IsAsleep, Keeps, heat-Keeps, buzz-Keeps, ramp-Keeps, flash-Keeps}
use zbeam.Tree.Table.{table}
use zbeam.Tree.Modes.{
  IsOn, IsAwake, Fits, IsOff, is_ramp, is_strobe, is_used, off-Enters, start-IsOff,
}
use zbeam.Tree.TableMoves.{table-Moves}
use zbeam.System.{System, Board, boot}
use zbeam.System.Events.{
  Event, taken, inactivity_expiry, thermal_expiry, ramp_expiry, strobe_expiry, buzz_expiry,
  aux_expiry, aux_tick, on_event,
}
use zbeam.System.Live.{can_happen, live_event, live_events}

-- What the tick of a timer leaves fits too, if it leaves the strobe's timer.
keep-Fits :
    (n : Node) (d e : Device)
    → Keeps d e
    → runs e.ui.strobe_timer ≡ runs d.ui.strobe_timer
    → Fits n d
    → Fits n e
keep-Fits n d e (ramp, heat, pm) strobe ((r, s), off, on, used) = (
  (ap runs ramp ∙ r, strobe ∙ s),
  (λ o. (heat ∙ (off o).0, ap (λ p. p.is_suspended) pm ∙ (off o).1)),
  (λ o. (heat ∙ (on o).0, ap (λ p. p.is_suspended) pm ∙ (on o).1)),
  used,
)

abbrev pub In : Env → Node → Machine Node Device → Type 0
In env home m = Within (table env) Fits home m

-- The invariant does not depend on the readings.
pub other_readings : (a b : Env) {home : Node} {m : Machine Node Device} → In a home m → In b home m
other_readings a b w = record {
  here = w.here;
  current = w.current;
  home_lem = w.home_lem;
  state = w.state;
}

abbrev pub Result : Env → Node → Option (Machine Node Device) → Type 0
Result env home o = (m : Machine Node Device) × (o ≡ some m) × In env home m

module _ (gains : Gains) (home : Node) (at : IsOff home) where
  ticked :
      (env : Env) (m : Machine Node Device) (e : Device)
      → Keeps m.rest e
      → runs e.ui.strobe_timer ≡ runs m.rest.ui.strobe_timer
      → In env home m
      → Result env home (some (record m { rest = e }))
  ticked env m e k s w = (
    record m { rest = e },
    refl,
    rest-Within (table env) Fits (table-Moves env home at) (off-Enters env home at) m e w
        (keep-Fits w.here m.rest e k s w.state),
  )

  event-In :
      (env : Env) (e : Event) (m : Machine Node Device)
      → can_happen e m ≡ true
      → In env home m
      → Result env home (on_event gains env e m)
  unfolding on_event aux_tick
  event-In env (taken msg) m h w =
      handle_msg-Within (table env) Fits (table-Moves env home at) (off-Enters env home at) msg m w
  event-In env inactivity_expiry m h w = (
    _,
    refl,
    handler-Within (table env) Fits (table-Moves env home at) (off-Enters env home at) m w,
  )
  event-In env thermal_expiry m h w =
      let (k, s) = heat-Keeps gains env m.rest in ticked env m _ k (ap runs s) w
  event-In env ramp_expiry m h w = let (k, s) = ramp-Keeps m.rest in ticked env m _ k (ap runs s) w
  event-In env strobe_expiry m h w =
      let (k, s) = flash-Keeps env m.rest in ticked env m _ k (s ∙ sym h) w
  event-In env buzz_expiry m h w = let (k, s) = buzz-Keeps m.rest in ticked env m _ k (ap runs s) w
  event-In env aux_expiry m h w = ticked env m _ (refl, refl, refl) refl w

  pub live-In :
      (env : Env) (e : Event) (m : Machine Node Device)
      → In env home m
      → Result env home (live_event gains env e m)
  live-In env e m w = elim (Bool-cases (can_happen e m)) [
    | inl h ↦ rw h (event-In env e m h w)
    | inr h ↦ rw h (m, refl, w)
  ]

  lives-In :
      (es : List (Env × Event)) (env : Env) (m : Machine Node Device)
      → In env home m
      → Result env home (live_events gains es m)
  unfolding live_events
  lives-In [] env m w = (m, refl, w)
  lives-In ((now, e) ∷ es) env m w =
      let (m1, e1, w1) = live-In now e m (other_readings env now w) in
      let (m2, e2, w2) = lives-In es env m1 (other_readings now env w1) in
      (m2, rw (live_events, e1) e2, w2)

pub boot-In :
    (b : Board) (env : Env) (s : System)
    → In env (get_start_node (ui_init b.default_mode env s.lamp.rest)) (boot b env s).lamp
unfolding boot
boot-In b env s =
    let before = ui_init b.default_mode env s.lamp.rest in
    let at = start-IsOff before in
    init-Within (table env) Fits (table-Moves env _ at) (off-Enters env _ at)
      (record (s.lamp) { rest = before })

-- The invariant after `main` and any events.
pub lamp-In :
    (gains : Gains) (b : Board) (env : Env) (s : System) (es : List (Env × Event))
    → Result env
        (get_start_node (ui_init b.default_mode env s.lamp.rest))
        (live_events gains es (boot b env s).lamp)
lamp-In gains b env s es =
    lives-In gains _ (start-IsOff (ui_init b.default_mode env s.lamp.rest)) es env
      (boot b env s).lamp (boot-In b env s)

-- After `main` and any sequence of messages and of expiries of running timers, each with its own
-- readings, the engine has never lacked a node: it is in some node, which is neither a moon
-- node nor `simple_reset` nor one of the nodes that are never initialised, its home is the start node,
-- the timer of the ramp runs exactly if that is a ramp's node, the timer of the strobe exactly
-- if it is the strobe's node; if it is a node of the lamp that is off, the thermal timer is
-- stopped and the device suspended, and if it is one of the lamp that is on, that timer runs with a
-- period of 500 ms and the device is awake.
pub live_events-Fits :
    (gains : Gains) (b : Board) (env : Env) (s : System) (es : List (Env × Event))
    → (m : Machine Node Device) × (live_events gains es (boot b env s).lamp ≡ some m)
      × (n : Node) × (m.fsm.current_node ≡ some n)
      × (m.fsm.home_node ≡ some (get_start_node (ui_init b.default_mode env s.lamp.rest)))
      × (is_used n ≡ true)
      × (runs m.rest.ui.ramp_timer ≡ is_ramp n)
      × (runs m.rest.ui.strobe_timer ≡ is_strobe n)
      × (IsOff n → IsAsleep m.rest)
      × (IsOn n → IsAwake m.rest)
live_events-Fits gains b env s es =
    let (m, e, w) = lamp-In gains b env s es in
    let ((ramp, strobe), off, on, used) = w.state in
    (m, e, w.here, w.current, w.home_lem, used, ramp, strobe, off, on)
