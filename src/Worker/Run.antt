-- ===== src/Worker/Run.antt =====
-- The loop of lib/fsm_worker.c on the engine of lib/fsm_engine.c.
use zbeam.Base.{◌≡◌, refl, Option, some, List, [], ◌∷◌}
use zbeam.Msg.{
  MsgType, input_tap, input_hold_start, input_hold_release, timeout_inactivity, timeout_ramp_tick,
  safety_shutdown, safety_thermal_warn, system_shutdown, ZbeamMsg,
}
use zbeam.Fsm.{FsmNode, Machine, fsm_emergency_off}
use zbeam.Fsm.Armed.{IsArmed, process_msg-IsArmed, process_timer-IsArmed, emergency-IsArmed}
use zbeam.Fsm.Timeout.{
  Reach, message, timer_message, emergency, later, Reach-IsArmed, emergency-returns,
  emergency_found,
}
use zbeam.Worker.{handle_type, handle_msg, handle_all}

module _ {N S : Type 0} (table : N → FsmNode N S) {start : N}
    (untimed : (table start).timeout_ms ≡ 0) where
  -- There is a next state, and it is reached from the start.
  abbrev pub Goes : Option (Machine N S) → Type 0
  Goes o = (m : Machine N S) × (o ≡ some m) × Reach table start m

  emergency-Goes : {m : Machine N S} → Reach table start m → Goes (fsm_emergency_off table m)
  emergency-Goes r =
      let (m', e, _, _, _) = emergency-returns table untimed r in (m', e, later r (emergency e))

  handle_type-Goes :
      (t : MsgType) (msg : ZbeamMsg) {m : Machine N S}
      → Reach table start m
      → Goes (handle_type table t msg m)
  unfolding handle_type
  handle_type-Goes safety_shutdown msg r = emergency-Goes r
  handle_type-Goes system_shutdown msg r = emergency-Goes r
  handle_type-Goes safety_thermal_warn msg {m} r = (m, refl, r)
  handle_type-Goes input_tap msg r = (_, refl, later r (message msg))
  handle_type-Goes input_hold_start msg r = (_, refl, later r (message msg))
  handle_type-Goes input_hold_release msg r = (_, refl, later r (message msg))
  handle_type-Goes timeout_inactivity msg r = (_, refl, later r (timer_message msg))
  handle_type-Goes timeout_ramp_tick msg r = (_, refl, later r (timer_message msg))

  handle_all-Goes :
      (msgs : List ZbeamMsg) {m : Machine N S}
      → Reach table start m
      → Goes (handle_all table msgs m)
  unfolding handle_all handle_msg
  handle_all-Goes [] {m} r = (m, refl, r)
  handle_all-Goes (msg ∷ msgs) r =
      let (m1, e, r1) = handle_type-Goes msg.type msg r in
      rw (handle_all, e) (handle_all-Goes msgs r1)

  -- From a state that the engine reaches after `fsm_init` with a start node that has no timeout,
  -- the worker handles any sequence of messages without a fault, and afterwards there is a current
  -- node, the inactivity timer runs exactly as it asks, and home is the start.
  pub handle_all-IsArmed :
      (msgs : List ZbeamMsg) {m : Machine N S}
      → Reach table start m
      → (m' : Machine N S) × (handle_all table msgs m ≡ some m') × IsArmed table start m'
  handle_all-IsArmed msgs r =
      let (m', e, r') = handle_all-Goes msgs r in (m', e, Reach-IsArmed table untimed r')

module _ {N S : Type 0} (table : N → FsmNode N S) {start : N}
    (untimed : (table start).timeout_ms ≡ 0) where
  emergency_off-IsArmed :
      (m : Machine N S)
      → IsArmed table start m
      → (m' : Machine N S) × (fsm_emergency_off table m ≡ some m') × IsArmed table start m'
  emergency_off-IsArmed m a =
      let (m', e) = emergency_found table start m a.home_lem in
      (m', e, emergency-IsArmed table start m m' untimed a e)

  handle_type-IsArmed :
      (t : MsgType) (msg : ZbeamMsg) (m : Machine N S)
      → IsArmed table start m
      → (m' : Machine N S) × (handle_type table t msg m ≡ some m') × IsArmed table start m'
  unfolding handle_type
  handle_type-IsArmed safety_shutdown msg m a = emergency_off-IsArmed m a
  handle_type-IsArmed system_shutdown msg m a = emergency_off-IsArmed m a
  handle_type-IsArmed safety_thermal_warn msg m a = (m, refl, a)
  handle_type-IsArmed input_tap msg m a = (_, refl, process_msg-IsArmed table start msg m a)
  handle_type-IsArmed input_hold_start msg m a = (_, refl, process_msg-IsArmed table start msg m a)
  handle_type-IsArmed input_hold_release msg m a =
      (_, refl, process_msg-IsArmed table start msg m a)
  handle_type-IsArmed timeout_inactivity msg m a =
      (_, refl, process_timer-IsArmed table start msg m a)
  handle_type-IsArmed timeout_ramp_tick msg m a =
      (_, refl, process_timer-IsArmed table start msg m a)

  -- The worker handles a message without a fault where the invariant holds, and keeps it.
  pub handle_msg-IsArmed :
      (msg : ZbeamMsg) (m : Machine N S)
      → IsArmed table start m
      → (m' : Machine N S) × (handle_msg table msg m ≡ some m') × IsArmed table start m'
  unfolding handle_msg
  handle_msg-IsArmed msg m a = handle_type-IsArmed msg.type msg m a
