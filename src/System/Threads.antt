-- ===== src/System/Threads.antt =====
-- The threads of the firmware at work together: key events and the two timers of the tap engine, the
-- rounds of the safety monitor, the turns of the worker's loop and the expiries of the other timers,
-- in any order, on one message queue.
use zbeam.Base.{ℕ, suc, ◌==◌, if◌then◌else◌, Option, none, some, List, [], ◌∷◌}
use zbeam.Env.{Env}
use zbeam.Msg.{ZbeamMsg}
use zbeam.Fsm.{Machine}
use zbeam.Node.{Node}
use zbeam.Thermal.{Gains}
use zbeam.Tap.{Tap, TapEvent, tap_step}
use zbeam.Safety.{Limits, Readings, Safety, safety_round}
use zbeam.Worker.{MsgQueue, post_all, handle_msg}
use zbeam.Ui.Device.{Device}
use zbeam.Tree.Table.{table}
use zbeam.System.Events.{Event, taken}
use zbeam.System.Live.{live_event}
use zbeam.System.Quiet.{Context, in_thread, in_interrupt, ends_in}

-- The state of all threads.
pub record Threads (k : MsgQueue) : Type 0 where
  pub lamp : Machine Node Device
  pub queue : k.Q
  pub tap : Tap
  pub safety : Safety

pub data Act : Type 0 where
  -- A key event, or an expiry of the tap engine's timers.
  input : TapEvent → Act
  -- A round of the safety monitor, with what it reads.
  monitor : Readings → Act
  -- A turn of the worker's loop.
  work : Act
  -- An expiry of another timer.
  expiry : Event → Act

abbrev pub and_then {ℓ κ} : {A : Type ℓ} {B : Type κ} → Option A → (A → Option B) → Option B
and_then none f = none
and_then (some a) f = f a

-- The program after a step, if it goes on: `none` after a call that ends it.
unfoldable pub outlives :
    Context → Machine Node Device → Machine Node Device → Option (Machine Node Device)
outlives c before m = if ends_in c m.rest.calls == ends_in c before.rest.calls then some m else none

module _ (k : MsgQueue) (gains : Gains) (limits : Limits) where
  open k use {Q, get}

  -- Messages do not come from timers.
  abbrev pub expired : Env → Event → Machine Node Device → Option (Machine Node Device)
  expired env (taken msg) m = some m
  expired env e m = live_event gains env e m

  -- The handler of a timer, in the interrupt.
  abbrev pub expire : Env → Event → Machine Node Device → Option (Machine Node Device)
  expire env e m = and_then (expired env e m) λ m'. outlives in_interrupt m m'

  abbrev pub worked : Env → Option (ZbeamMsg × Q) → Threads k → Option (Threads k)
  worked env none t = some t
  worked env (some (msg, q)) t =
      and_then (and_then (handle_msg (table env) msg t.lamp) λ m. outlives in_thread t.lamp m)
        λ m. some (record t { lamp = m; queue = q })

  unfoldable pub act : Env → Act → Threads k → Option (Threads k)
  act env (input e) t =
      let (tap, posts) = tap_step e t.tap in
      some (record t { tap = tap; queue = post_all k posts t.queue })
  act env (monitor r) t =
      let (safety, posts) = safety_round limits r t.safety in
      some (record t { safety = safety; queue = post_all k posts t.queue })
  act env work t = worked env (get t.queue) t
  act env (expiry e) t = and_then (expire env e t.lamp) λ m. some (record t { lamp = m })

  -- A schedule, each act with the readings of its moment; `none` is a fault or the end of the program.
  unfoldable pub acts : List (Env × Act) → Threads k → Option (Threads k)
  acts [] t = some t
  acts ((env, a) ∷ rest) t = and_then (act env a t) λ t'. acts rest t'

-- The turns of the worker in a schedule.
abbrev pub works : List (Env × Act) → ℕ
works [] = 0
works ((env, work) ∷ rest) = suc (works rest)
works ((env, input e) ∷ rest) = works rest
works ((env, monitor r) ∷ rest) = works rest
works ((env, expiry e) ∷ rest) = works rest
