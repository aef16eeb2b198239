-- ===== src/Worker/Loop.antt =====
-- The thread of lib/fsm_worker.c on its queue, while other threads post: the messages are handled in
-- the order in which they were accepted.
use zbeam.Base.{
  ℕ, zero, suc, Bool, true, Option, none, some, List, [], ◌∷◌, ◌++◌, length, ltb, if◌then◌else◌,
}
use zbeam.Msg.{ZbeamMsg}
use zbeam.Fsm.{FsmNode, Machine}
use zbeam.Worker.{MsgQueue, queue_depth, fsm_worker_post_msg, handle_msg}

-- The static variables of fsm_worker.c, and the engine.
pub record Worker (k : MsgQueue) (N S : Type 0) : Type 0 where
  pub fsm_msgq : k.Q
  pub worker_running : Bool
  pub engine : Machine N S

-- What happens next: another thread posts a message, or the worker's loop goes round.
pub data Turn : Type 0 where
  post : ZbeamMsg → Turn
  turn : Turn

module _ (k : MsgQueue) {N S : Type 0} (table : N → FsmNode N S) where
  open k use {Q, get, contents}

  -- The start of `fsm_worker_entry`.
  unfoldable pub start_worker : Worker k N S → Worker k N S
  start_worker w = record w { worker_running = true }

  abbrev pub go_on : Option (Machine N S) → Q → Worker k N S → Option (Worker k N S)
  go_on none q w = none
  go_on (some m) q w = some (record w { fsm_msgq = q; engine = m })

  abbrev pub taken : Option (ZbeamMsg × Q) → Worker k N S → Option (Worker k N S)
  taken none w = some w
  taken (some (msg, q)) w = go_on (handle_msg table msg w.engine) q w

  -- The body of its loop; on an empty queue the thread waits. `none` is a fault.
  unfoldable pub worker_turn : Worker k N S → Option (Worker k N S)
  worker_turn w = taken (get w.fsm_msgq) w

  unfoldable pub fsm_worker_is_running : Worker k N S → Bool
  fsm_worker_is_running w = w.worker_running

  unfoldable pub fsm_worker_get_queue : Worker k N S → Q
  fsm_worker_get_queue w = w.fsm_msgq

  abbrev pub step : Turn → Worker k N S → Option (Worker k N S)
  step (post msg) w = some (record w { fsm_msgq = (fsm_worker_post_msg k (some msg) w.fsm_msgq).1 })
  step turn w = worker_turn w

  unfoldable pub steps : List Turn → Worker k N S → Option (Worker k N S)
  steps [] w = some w
  steps (t ∷ ts) w = elim (step t w) [ none ↦ none | some w' ↦ steps ts w' ]

module _ (k : MsgQueue) where
  open k use {Q, get, contents}

  -- The queue after a step, and a message that it accepts.
  abbrev after_turn : Option (ZbeamMsg × Q) → Q → Q
  after_turn none q = q
  after_turn (some (msg, q')) q = q'

  abbrev pub next_queue : Turn → Q → Q
  next_queue (post msg) q = (fsm_worker_post_msg k (some msg) q).1
  next_queue turn q = after_turn (get q) q

  abbrev pub accepts : Turn → Q → List ZbeamMsg
  accepts (post msg) q = if ltb (length (contents q)) queue_depth then msg ∷ [] else []
  accepts turn q = []

  -- The posted messages for which there was room, in order.
  unfoldable pub accepted : List Turn → Q → List ZbeamMsg
  accepted [] q = []
  accepted (t ∷ ts) q = accepts t q ++ accepted ts (next_queue t q)

-- Turns of the loop alone.
abbrev pub turns : ℕ → List Turn
turns zero = []
turns (suc n) = turn ∷ turns n
