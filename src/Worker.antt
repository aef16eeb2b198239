-- ===== src/Worker.antt =====
-- lib/fsm_worker.c: the message queue and the thread that empties it.
pub mod Queue
pub mod Run
pub mod Within
pub mod Loop
pub mod Order
use zbeam.Base.{ℕ, ◌+◌, ◌≤◌, ◌<◌, ◌≡◌, Bool, true, Option, none, some, List, [], ◌∷◌, ◌++◌, length}
use zbeam.Base.Int.{ℤ, pos, negsuc}
use zbeam.Msg.{
  MsgType, input_tap, input_hold_start, input_hold_release, timeout_inactivity, timeout_ramp_tick,
  safety_shutdown, safety_thermal_warn, system_shutdown, ZbeamMsg,
}
use zbeam.Fsm.{FsmNode, Machine, fsm_process_msg, fsm_process_timer, fsm_emergency_off}

-- CONFIG_ZBEAM_FSM_MSGQ_DEPTH.
abbrev pub queue_depth : ℕ
queue_depth = 8

-- Zephyr's `k_msgq`, as its documentation has it: `put` without waiting returns 0 and appends, or
-- returns an error and changes nothing if the queue is full; `get` takes the oldest message.
pub record MsgQueue : Type 1 where
  pub Q : Type 0
  pub put : ZbeamMsg → Q → ℤ × Q
  pub get : Q → Option (ZbeamMsg × Q)
  pub contents : Q → List ZbeamMsg
  pub put-room :
      (m : ZbeamMsg) (q : Q)
      → length (contents q) < queue_depth
      → ((put m q).0 ≡ pos 0) × (contents (put m q).1 ≡ contents q ++ (m ∷ []))
  pub put-full : (m : ZbeamMsg) (q : Q) → queue_depth ≤ length (contents q) → (put m q).1 ≡ q
  pub get-nil : (q : Q) → contents q ≡ [] → get q ≡ none
  pub get-cons :
      (q : Q) (m : ZbeamMsg) (ms : List ZbeamMsg)
      → contents q ≡ m ∷ ms
      → (q' : Q) × (get q ≡ some (m, q')) × (contents q' ≡ ms)

-- -EINVAL.
abbrev pub einval : ℤ
einval = negsuc 21

-- `fsm_worker_post_msg`; `none` is the NULL pointer.
unfoldable pub fsm_worker_post_msg : (k : MsgQueue) → Option ZbeamMsg → k.Q → ℤ × k.Q
fsm_worker_post_msg k none q = (einval, q)
fsm_worker_post_msg k (some m) q = k.put m q

-- Posts whose results are ignored.
unfoldable pub post_all : (k : MsgQueue) → List ZbeamMsg → k.Q → k.Q
unfolding fsm_worker_post_msg
post_all k [] q = q
post_all k (m ∷ ms) q = post_all k ms (fsm_worker_post_msg k (some m) q).1

module _ {N S : Type 0} (table : N → FsmNode N S) where
  handle_type : MsgType → ZbeamMsg → Machine N S → Option (Machine N S)
  handle_type safety_shutdown msg m = fsm_emergency_off table m
  handle_type safety_thermal_warn msg m = some m
  handle_type input_tap msg m = some (fsm_process_msg table msg m)
  handle_type input_hold_start msg m = some (fsm_process_msg table msg m)
  handle_type input_hold_release msg m = some (fsm_process_msg table msg m)
  handle_type timeout_inactivity msg m = some (fsm_process_timer table msg m)
  handle_type timeout_ramp_tick msg m = some (fsm_process_timer table msg m)
  handle_type system_shutdown msg m = fsm_emergency_off table m

  -- The switch of `fsm_worker_entry`; `none` is a fault.
  unfoldable pub handle_msg : ZbeamMsg → Machine N S → Option (Machine N S)
  unfolding handle_type
  handle_msg msg m = handle_type msg.type msg m

  -- The loop of `fsm_worker_entry` over the messages that it takes from the queue, in order.
  unfoldable pub handle_all : List ZbeamMsg → Machine N S → Option (Machine N S)
  handle_all [] m = some m
  handle_all (msg ∷ msgs) m = elim (handle_msg msg m) [ none ↦ none | some m' ↦ handle_all msgs m' ]
