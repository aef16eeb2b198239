-- ===== src/System/Live.antt =====
-- The events of the lamp as the kernel makes them: a timer expires only while it runs.
use zbeam.Base.{Bool, true, if◌then◌else◌, Option, none, some, List, [], ◌∷◌}
use zbeam.Env.{Env}
use zbeam.Kernel.{runs}
use zbeam.Fsm.{Machine}
use zbeam.Node.{Node}
use zbeam.Thermal.{Gains}
use zbeam.Ui.Device.{Device}
use zbeam.System.Events.{
  Event, taken, inactivity_expiry, thermal_expiry, ramp_expiry, strobe_expiry, buzz_expiry,
  aux_expiry, on_event,
}

-- Whether an event can happen: a message can always be taken, and a running timer expires.
abbrev pub can_happen : Event → Machine Node Device → Bool
can_happen (taken _) m = true
can_happen inactivity_expiry m = runs m.fsm.inactivity_timer
can_happen thermal_expiry m = runs m.rest.ui.thermal_timer
can_happen ramp_expiry m = runs m.rest.ui.ramp_timer
can_happen strobe_expiry m = runs m.rest.ui.strobe_timer
can_happen buzz_expiry m = runs m.rest.ui.buzz_timer
can_happen aux_expiry m = runs m.rest.aux.timer

module _ (gains : Gains) where
  -- An event, if it can happen.
  abbrev pub live_event : Env → Event → Machine Node Device → Option (Machine Node Device)
  live_event env e m = if can_happen e m then on_event gains env e m else some m

  unfoldable pub live_events :
      List (Env × Event) → Machine Node Device → Option (Machine Node Device)
  live_events [] m = some m
  live_events ((env, e) ∷ es) m = elim (live_event env e m) [
    | none ↦ none
    | some m' ↦ live_events es m'
  ]
