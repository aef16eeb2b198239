-- ===== src/Worker/Order.antt =====
-- The order in which the thread of lib/fsm_worker.c handles the messages.
use mathlib.Core.List.{append-nil, append_assoc}
use zbeam.Base.{
  ℕ, zero, suc, ◌≡◌, ◌⊎◌, refl, sym, ap, ◌∙◌, subst, inl, inr, Bool-cases, none, some, List, [],
  ◌∷◌, ◌++◌, length, ltb, arith, ◌≤◌,
}
use zbeam.Msg.{ZbeamMsg}
use zbeam.Fsm.{FsmNode, Machine}
use zbeam.Fsm.Armed.{IsArmed}
use zbeam.Worker.{MsgQueue, queue_depth, fsm_worker_post_msg, handle_msg, handle_all}
use zbeam.Worker.Run.{handle_msg-IsArmed}
use zbeam.Worker.Loop.{
  Worker, Turn, post, turn, go_on, worker_turn, steps, next_queue, accepts, accepted, turns,
}

pub List-cases {ℓ} : {A : Type ℓ} (l : List A) → (l ≡ []) ⊎ ((a : A) × (bs : List A) × (l ≡ a ∷ bs))
List-cases [] = inl refl
List-cases (a ∷ bs) = inr (a, bs, refl)

module _ (k : MsgQueue) {N S : Type 0} (table : N → FsmNode N S) {start : N}
    (untimed : (table start).timeout_ms ≡ 0) where
  open k use {Q, put, get, contents, put-room, put-full, get-nil, get-cons}

  post-contents :
      (m : ZbeamMsg) (q : Q)
      → contents (next_queue k (post m) q) ≡ contents q ++ accepts k (post m) q
  unfolding fsm_worker_post_msg
  post-contents m q = elim (Bool-cases (ltb (length (contents q)) queue_depth)) [
    | inl e ↦ rw e ((put-room m q (ground arith)).1)
    | inr e ↦ rw e (ap contents (put-full m q (ground arith)) ∙ sym (append-nil (contents q)))
  ]

  -- What a run leads to.
  abbrev Runs : List Turn → Worker k N S → Type 0
  Runs ts w =
      (w' : Worker k N S) × (handled : List ZbeamMsg) × (steps k table ts w ≡ some w')
      × (handle_all table handled w.engine ≡ some w'.engine)
      × (handled ++ contents w'.fsm_msgq ≡ contents w.fsm_msgq ++ accepted k ts w.fsm_msgq)
      × IsArmed table start w'.engine

  post-Runs :
      (m : ZbeamMsg) (ts : List Turn) (w : Worker k N S)
      → Runs ts (record w { fsm_msgq = next_queue k (post m) w.fsm_msgq })
      → Runs (post m ∷ ts) w
  unfolding steps accepted
  post-Runs m ts w (w', handled, e, h, order, a) = (
    w',
    handled,
    e,
    h,
    order
        ∙ ap (λ l. l ++ accepted k ts (next_queue k (post m) w.fsm_msgq))
            (post-contents m w.fsm_msgq)
        ∙ append_assoc (contents w.fsm_msgq) (accepts k (post m) w.fsm_msgq) _,
    a,
  )

  -- The worker's turn on an empty queue.
  wait-Runs :
      (ts : List Turn) (w : Worker k N S) → get w.fsm_msgq ≡ none → Runs ts w → Runs (turn ∷ ts) w
  unfolding steps accepted worker_turn
  wait-Runs ts w e (w', handled, e', h, order, a) =
      let still : worker_turn k table w ≡ some w = rw (worker_turn, e) refl in
      let same : next_queue k turn w.fsm_msgq ≡ w.fsm_msgq = rw e refl in
      (
        w',
        handled,
        rw (steps, still) e',
        h,
        order ∙ ap (λ q. contents w.fsm_msgq ++ accepted k ts q) (sym same),
        a,
      )

  -- Its turn with an oldest message.
  take-Runs :
      (msg : ZbeamMsg) (q : Q) (ts : List Turn) (w : Worker k N S) (m : Machine N S)
      → get w.fsm_msgq ≡ some (msg, q)
      → contents w.fsm_msgq ≡ msg ∷ contents q
      → handle_msg table msg w.engine ≡ some m
      → Runs ts (record w { fsm_msgq = q; engine = m })
      → Runs (turn ∷ ts) w
  unfolding steps accepted worker_turn handle_all
  take-Runs msg q ts w m e c h (w', handled, e', h', order, a) =
      let moved : worker_turn k table w ≡ some (record w { fsm_msgq = q; engine = m }) =
        rw (worker_turn, e) (ap (λ o. go_on k table o q w) h) in
      let next : next_queue k turn w.fsm_msgq ≡ q = rw e refl in
      (
        w',
        msg ∷ handled,
        rw (steps, moved) e',
        rw (handle_all, h) h',
        ap (λ l. msg ∷ l) order
            ∙ ap (λ l. l ++ accepted k ts q) (sym c)
            ∙ ap (λ p. contents w.fsm_msgq ++ accepted k ts p) (sym next),
        a,
      )

  -- From a state in which the invariant of the engine holds, whatever other threads post between the
  -- turns of the worker's loop: the engine never lacks a node, the invariant still holds, and the messages that
  -- the worker has handled, followed by those that are still in the queue, are those that were in the
  -- queue, followed by those that were posted while there was room, in order.
  pub steps-in_order :
      (ts : List Turn) (w : Worker k N S)
      → IsArmed table start w.engine
      → (w' : Worker k N S) × (handled : List ZbeamMsg) × (steps k table ts w ≡ some w')
        × (handle_all table handled w.engine ≡ some w'.engine)
        × (handled ++ contents w'.fsm_msgq ≡ contents w.fsm_msgq ++ accepted k ts w.fsm_msgq)
        × IsArmed table start w'.engine
  unfolding steps accepted handle_all
  steps-in_order [] w a = (w, [], refl, refl, sym (append-nil (contents w.fsm_msgq)), a)
  steps-in_order (post m ∷ ts) w a =
      post-Runs m ts w
        (steps-in_order ts (record w { fsm_msgq = next_queue k (post m) w.fsm_msgq }) a)
  steps-in_order (turn ∷ ts) w a = elim (List-cases (contents w.fsm_msgq)) [
    | inl none_left ↦ wait-Runs ts w (get-nil w.fsm_msgq none_left) (steps-in_order ts w a)
    | inr (msg, rest, c) ↦
        let (q, e, left) = get-cons w.fsm_msgq msg rest c in
        let (m, h, a') = handle_msg-IsArmed table untimed msg w.engine a in
        take-Runs msg q ts w m e (c ∙ ap (λ l. msg ∷ l) (sym left)) h
          (steps-in_order ts (record w { fsm_msgq = q; engine = m }) a')
  ]

  -- Where the invariant of the engine holds, as many turns of the loop as there are messages in the
  -- queue, or more, empty it, and the engine has handled just these messages, in order.
  pub turns-drain :
      (n : ℕ) (w : Worker k N S)
      → IsArmed table start w.engine
      → length (contents w.fsm_msgq) ≤ n
      → (w' : Worker k N S) × (steps k table (turns n) w ≡ some w')
        × (contents w'.fsm_msgq ≡ [])
        × (handle_all table (contents w.fsm_msgq) w.engine ≡ some w'.engine)
  unfolding steps handle_all worker_turn
  turns-drain zero w a few = elim (List-cases (contents w.fsm_msgq)) [
    | inl e ↦ (w, refl, e, rw (handle_all, e) refl)
    | inr (msg, rest, c) ↦ absurd (omega (arith, ap length c))
  ]
  turns-drain (suc n) w a few = elim (List-cases (contents w.fsm_msgq)) [
    | inl e ↦
        let still : worker_turn k table w ≡ some w = rw (worker_turn, get-nil w.fsm_msgq e) refl in
        let (w', e1, empty, h) = turns-drain n w a (omega (arith, ap length e)) in
        (w', rw (steps, still) e1, empty, h)
    | inr (msg, rest, c) ↦
        let (q, e, left) = get-cons w.fsm_msgq msg rest c in
        let (m, h, a') = handle_msg-IsArmed table untimed msg w.engine a in
        let moved : worker_turn k table w ≡ some (record w { fsm_msgq = q; engine = m }) =
          rw (worker_turn, e) (ap (λ o. go_on k table o q w) h) in
        let (w', e1, empty, all) =
          turns-drain n (record w { fsm_msgq = q; engine = m }) a'
            (omega (arith, ap length c, ap length left)) in
        let whole = c ∙ ap (λ l. msg ∷ l) (sym left) in
        (
          w',
          rw (steps, moved) e1,
          empty,
          subst (λ l. handle_all table l w.engine ≡ some w'.engine) (sym whole)
              (rw (handle_all, h) all),
        )
  ]
