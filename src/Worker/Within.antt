-- ===== src/Worker/Within.antt =====
-- An invariant that depends on the current node, in the worker of lib/fsm_worker.c.
use zbeam.Base.{◌≡◌, refl, Option, some}
use zbeam.Msg.{
  MsgType, input_tap, input_hold_start, input_hold_release, timeout_inactivity, timeout_ramp_tick,
  safety_shutdown, safety_thermal_warn, system_shutdown, ZbeamMsg,
}
use zbeam.Fsm.{FsmNode, Machine}
use zbeam.Fsm.Within.{Enters, Moves, Within}
use zbeam.Fsm.Within.Steps.{process_msg-Within, process_timer-Within, emergency-Within}
use zbeam.Worker.{handle_type, handle_msg}

module _ {N S : Type 0} (table : N → FsmNode N S) (holds : N → S → Type 0) {home : N}
    (moves : (self : N) → Moves table holds home self)
    (returns : (s : S) → Enters table holds home s) where
  abbrev Result : Option (Machine N S) → Type 0
  Result o = (m : Machine N S) × (o ≡ some m) × Within table holds home m

  handle_type-Within :
      (t : MsgType) (msg : ZbeamMsg) (m : Machine N S)
      → Within table holds home m
      → Result (handle_type table t msg m)
  unfolding handle_type
  handle_type-Within safety_shutdown msg m w = emergency-Within table holds moves returns m w
  handle_type-Within system_shutdown msg m w = emergency-Within table holds moves returns m w
  handle_type-Within safety_thermal_warn msg m w = (m, refl, w)
  handle_type-Within input_tap msg m w =
      (_, refl, process_msg-Within table holds moves returns msg m w)
  handle_type-Within input_hold_start msg m w =
      (_, refl, process_msg-Within table holds moves returns msg m w)
  handle_type-Within input_hold_release msg m w =
      (_, refl, process_msg-Within table holds moves returns msg m w)
  handle_type-Within timeout_inactivity msg m w =
      (_, refl, process_timer-Within table holds moves returns msg m w)
  handle_type-Within timeout_ramp_tick msg m w =
      (_, refl, process_timer-Within table holds moves returns msg m w)

  -- The worker handles a message without a fault where the invariant holds, and keeps it.
  pub handle_msg-Within :
      (msg : ZbeamMsg) (m : Machine N S)
      → Within table holds home m
      → Result (handle_msg table msg m)
  unfolding handle_msg
  handle_msg-Within msg m w = handle_type-Within msg.type msg m w
