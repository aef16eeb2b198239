-- ===== src/Worker/Queue.antt =====
-- Posting to the queue of lib/fsm_worker.c, and what a full queue does to a shutdown.
use mathlib.Core.List.{append-nil, append_assoc}
use zbeam.Base.{
  ◌+◌, ◌≤◌, ◌≡◌, sym, ap, ◌∙◌, arith, true, false, List, [], ◌∷◌, ◌++◌, length, length-append,
}
use zbeam.Msg.{ZbeamMsg}
use zbeam.Worker.{MsgQueue, queue_depth, post_all}
use zbeam.Safety.{
  Readings, Limits, Safety, check_fault, is_safe, shutdown_msg, safety_round, safety_run,
}
use zbeam.Safety.Shutdown.{shutdowns, run-after}

module _ (k : MsgQueue) where
  open k use {Q, put, get, contents, put-room, put-full}

  -- While there is room for all of them, posted messages are appended in order.
  pub post_all-contents :
      (ms : List ZbeamMsg) (q : Q)
      → length (contents q) + length ms ≤ queue_depth
      → contents (post_all k ms q) ≡ contents q ++ ms
  unfolding post_all
  post_all-contents [] q h = sym (append-nil (contents q))
  post_all-contents (m ∷ ms) q h =
      let grown = (put-room m q (omega arith)).1 in
      let size = ap length grown ∙ length-append (contents q) (m ∷ []) in
      post_all-contents ms (put m q).1 (omega (arith, size))
      ∙ ap (λ xs. xs ++ ms) grown
      ∙ append_assoc (contents q) (m ∷ []) ms

  post_one-full :
      (m : ZbeamMsg) (q : Q) → queue_depth ≤ length (contents q) → post_all k (m ∷ []) q ≡ q
  unfolding post_all
  post_one-full m q full = put-full m q full

  faulty-round :
      (l : Limits) (r : Readings) (s : Safety)
      → s.shutdown_triggered ≡ false
      → is_safe (check_fault l r) ≡ false
      → ((safety_round l r s).1 ≡ shutdown_msg ∷ [])
        × ((safety_round l r s).0.shutdown_triggered ≡ true)
  unfolding safety_round
  faulty-round l r s h bad = ground arith

  -- If the queue is full in the round that finds the first fault, its shutdown message is lost and
  -- the queue stays as it is; yet the shutdown counts as triggered, and no later round, whatever
  -- its readings, posts another.
  pub full_queue-loses_shutdown :
      (l : Limits) (r : Readings) (s : Safety) (q : Q) (rs : List Readings)
      → s.shutdown_triggered ≡ false
      → is_safe (check_fault l r) ≡ false
      → queue_depth ≤ length (contents q)
      → let (s', ms) = safety_round l r s in
        (ms ≡ shutdown_msg ∷ [])
        × (post_all k ms q ≡ q)
        × (s'.shutdown_triggered ≡ true)
        × (shutdowns (safety_run l rs s').1 ≡ 0)
  full_queue-loses_shutdown l r s q rs h bad full =
      let (posted, flag) = faulty-round l r s h bad in
      (
        posted,
        ap (λ ms. post_all k ms q) posted ∙ post_one-full shutdown_msg q full,
        flag,
        (run-after l rs _ flag).0,
      )
