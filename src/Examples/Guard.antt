-- ===== src/Examples/Guard.antt =====
-- The safety monitor and the worker's queue at concrete readings, with a queue that is a list.
use zbeam.Base.{
  ◌≡◌, ◌↔◌, ◌<◌, ◌≤◌, refl, arith, true, Option, none, some, List, [], ◌∷◌, ◌++◌, length, replicate,
  ltb, if◌then◌else◌,
}
use zbeam.Base.Int.{ℤ, pos, negsuc}
use zbeam.Msg.{ZbeamMsg}
use zbeam.Safety.{
  Readings, Safety, default_limits, safety_reset, safety_ok, check_fault, shutdown_msg,
  safety_round, safety_run,
}
use zbeam.Safety.Shutdown.{Within, check_fault_iff, shutdowns, run-shutdowns}
use zbeam.Worker.{MsgQueue, queue_depth, post_all}
use zbeam.Worker.Queue.{full_queue-loses_shutdown}
use zbeam.Examples.Lamp.{one_tap}

abbrev good : Readings
good = record { temperature_c10 = pos 400; current_ma = 800; voltage_mv = 3800 }

abbrev over : Readings
over = record { temperature_c10 = pos 400; current_ma = 3000; voltage_mv = 3800 }

abbrev warm : Readings
warm = record { temperature_c10 = pos 650; current_ma = 800; voltage_mv = 3800 }

check_fault_iff_example : (check_fault default_limits warm ≡ safety_ok) ↔ Within default_limits warm
check_fault_iff_example = check_fault_iff default_limits warm

run-shutdowns_example :
    (shutdowns (safety_run default_limits (good ∷ over ∷ over ∷ []) safety_reset).1 ≡ 1)
    × ((safety_run default_limits (good ∷ over ∷ over ∷ []) safety_reset).0.shutdown_triggered
        ≡ true)
unfolding check_fault
run-shutdowns_example = run-shutdowns default_limits (good ∷ over ∷ over ∷ []) safety_reset refl

abbrev tripped : Safety
tripped = record safety_reset { shutdown_triggered = true }

unfoldable pub list_put : ZbeamMsg → List ZbeamMsg → ℤ × List ZbeamMsg
list_put m q = if ltb (length q) queue_depth then (pos 0, q ++ (m ∷ [])) else (negsuc 34, q)

unfoldable pub list_get : List ZbeamMsg → Option (ZbeamMsg × List ZbeamMsg)
list_get [] = none
list_get (m ∷ ms) = some (m, ms)

pub list_put-room :
    (m : ZbeamMsg) (q : List ZbeamMsg)
    → length q < queue_depth
    → ((list_put m q).0 ≡ pos 0) × ((list_put m q).1 ≡ q ++ (m ∷ []))
unfolding list_put
list_put-room m q h = ground arith

pub list_put-full :
    (m : ZbeamMsg) (q : List ZbeamMsg) → queue_depth ≤ length q → (list_put m q).1 ≡ q
unfolding list_put
list_put-full m q h = ground arith

pub list_get-nil : (q : List ZbeamMsg) → q ≡ [] → list_get q ≡ none
unfolding list_get
list_get-nil q h = rw h refl

pub list_get-cons :
    (q : List ZbeamMsg) (m : ZbeamMsg) (ms : List ZbeamMsg)
    → q ≡ m ∷ ms
    → (q' : List ZbeamMsg) × (list_get q ≡ some (m, q')) × (q' ≡ ms)
unfolding list_get
list_get-cons q m ms h = (ms, rw h refl, refl)

abbrev pub list_queue : MsgQueue
list_queue = record {
  Q = List ZbeamMsg;
  put = list_put;
  get = list_get;
  contents = λ q. q;
  put-room = list_put-room;
  put-full = list_put-full;
  get-nil = list_get-nil;
  get-cons = list_get-cons;
}

abbrev two : List ZbeamMsg
two = one_tap ∷ shutdown_msg ∷ []

abbrev full : List ZbeamMsg
full = replicate 8 one_tap

full_queue-loses_shutdown_example :
    let (s', ms) = safety_round default_limits over safety_reset in
    (ms ≡ shutdown_msg ∷ [])
    × (post_all list_queue ms full ≡ full)
    × (s'.shutdown_triggered ≡ true)
    × (shutdowns (safety_run default_limits (over ∷ []) s').1 ≡ 0)
unfolding check_fault
full_queue-loses_shutdown_example =
    full_queue-loses_shutdown list_queue default_limits over safety_reset full (over ∷ []) refl refl
      (omega arith)
