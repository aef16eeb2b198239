-- ===== src/System/Waiting.antt =====
-- How long a shutdown of lib/safety_monitor.c waits in the queue before the lamp is dark.
use mathlib.Core.List.{append_assoc}
use zbeam.Base.{
  ◌<◌, ◌≡◌, refl, ap, ◌∙◌, arith, ◌⊎◌, inl, inr, Bool-cases, Option, some, List, [], ◌∷◌, ◌++◌,
  length, ltb,
}
use zbeam.Env.{Env}
use zbeam.Kernel.{stopped}
use zbeam.Msg.{ZbeamMsg}
use zbeam.Fsm.{Machine, fsm_emergency_off}
use zbeam.Node.{Node}
use zbeam.Thermal.{Gains}
use zbeam.Tap.{tap_step}
use zbeam.Safety.{Limits, shutdown_msg, safety_round}
use zbeam.Worker.{MsgQueue, queue_depth, fsm_worker_post_msg, post_all, handle_msg}
use zbeam.Ui.Device.{Device}
use zbeam.Ui.Actions.{action_off}
use zbeam.Tree.Table.{table}
use zbeam.Tree.Modes.{IsOff}
use zbeam.System.Modes.{In, other_readings}
use zbeam.System.Quiet.{in_thread, ends_in, off-Quiet}
use zbeam.System.Interrupts.{outlives-Quiet}
use zbeam.System.Schedule.{expire-In, worked-some, worked-In, Ends, later-Ends, now-Ends}
use zbeam.System.Threads.{Threads, Act, input, monitor, work, expiry, and_then, act, acts, works}

module _ (k : MsgQueue) where
  open k use {Q, put, get, contents, put-room, put-full, get-nil, get-cons}

  -- Where a message stands in the queue.
  abbrev pub Stands : List ZbeamMsg → ZbeamMsg → Q → Type 0
  Stands front msg q = (back : List ZbeamMsg) × (contents q ≡ front ++ (msg ∷ back))

  post-Stands :
      (front : List ZbeamMsg) (msg m : ZbeamMsg) (q : Q)
      → Stands front msg q
      → Stands front msg (put m q).1
  post-Stands front msg m q (back, h) = elim (Bool-cases (ltb (length (contents q)) queue_depth)) [
    | inl e ↦ (
      back ++ (m ∷ []),
      (put-room m q (ground arith)).1
          ∙ ap (λ l. l ++ (m ∷ [])) h
          ∙ append_assoc front (msg ∷ back) (m ∷ []),
    )
    | inr e ↦ (back, ap contents (put-full m q (ground arith)) ∙ h)
  ]

  -- Posts do not move it.
  pub posts-Stands :
      (ms : List ZbeamMsg) (front : List ZbeamMsg) (msg : ZbeamMsg) (q : Q)
      → Stands front msg q
      → Stands front msg (post_all k ms q)
  unfolding post_all fsm_worker_post_msg
  posts-Stands [] front msg q s = s
  posts-Stands (m ∷ ms) front msg q s =
      posts-Stands ms front msg (put m q).1 (post-Stands front msg m q s)

module _ (k : MsgQueue) (gains : Gains) (limits : Limits) (home : Node) (at : IsOff home)
    (off : (env : Env) → (table env home).action_routine ≡ some (action_off env)) where
  open k use {Q, put, get, contents, put-room, put-full, get-nil, get-cons}

  -- What the worker's turn on the shutdown leaves.
  pub record Shut (now : Env) (t t' : Threads k) : Type 0 where
    pub current : t'.lamp.fsm.current_node ≡ some home
    pub timer : t'.lamp.fsm.inactivity_timer ≡ stopped
    pub rest : t'.lamp.rest ≡ action_off now t.lamp.rest

  -- Some turn of the worker in the schedule does that.
  abbrev pub ShutsDown : List (Env × Act) → Threads k → Type 0
  ShutsDown sched t =
      (before : List (Env × Act)) × (now : Env) × (after : List (Env × Act)) × (t1 : Threads k)
      × (t2 : Threads k) × (sched ≡ before ++ ((now, work) ∷ after))
      × (acts k gains limits before t ≡ some t1)
      × (act k gains limits now work t1 ≡ some t2)
      × Shut now t1 t2

  later :
      (env : Env) (a : Act) (sched : List (Env × Act)) (t t' : Threads k)
      → act k gains limits env a t ≡ some t'
      → ShutsDown sched t'
      → ShutsDown ((env, a) ∷ sched) t
  unfolding acts
  later env a sched t t' e (before, now, after, t1, t2, split, run, turn, shut) = (
    (env, a) ∷ before,
    now,
    after,
    t1,
    t2,
    ap (λ l. (env, a) ∷ l) split,
    ap (λ o. and_then o (acts k gains limits before)) e ∙ run,
    turn,
    shut,
  )

  shutdown-Shut :
      (now : Env) (m : Machine Node Device)
      → m.fsm.home_node ≡ some home
      → (m' : Machine Node Device) × (handle_msg (table now) shutdown_msg m ≡ some m')
        × (m'.fsm.current_node ≡ some home)
        × (m'.fsm.inactivity_timer ≡ stopped)
        × (m'.rest ≡ action_off now m.rest)
  unfolding handle_msg fsm_emergency_off
  shutdown-Shut now m h = rw (h, off now) (_, refl, refl, refl, refl)

  abbrev pub End : List (Env × Act) → Threads k → Type 0
  End = Ends k gains limits home at

  both_later :
      (env : Env) (a : Act) (sched : List (Env × Act)) (t t' : Threads k)
      → act k gains limits env a t ≡ some t'
      → ShutsDown sched t' ⊎ End sched t'
      → ShutsDown ((env, a) ∷ sched) t ⊎ End ((env, a) ∷ sched) t
  both_later env a sched t t' e (inl down) = inl (later env a sched t t' e down)
  both_later env a sched t t' e (inr ended) =
      inr (later-Ends k gains limits home at env a sched t t' e ended)

  -- A shutdown in the queue is handled at the latest after as many turns as it has messages before it,
  -- or the program ends.
  pub waits :
      (sched : List (Env × Act)) (front : List ZbeamMsg) (env : Env) (t : Threads k)
      → In env home t.lamp
      → Stands k front shutdown_msg t.queue
      → length front < works sched
      → ShutsDown sched t ⊎ End sched t
  unfolding act acts
  waits [] front env t w s few = absurd (omega arith)
  waits ((now, input e) ∷ sched) front env t w s few =
      let (tap, posts) = tap_step e t.tap in
      let t' : Threads k = record t { tap = tap; queue = post_all k posts t.queue } in
      both_later now (input e) sched t t' refl
        (waits sched front env t' w (posts-Stands k posts front shutdown_msg t.queue s) few)
  waits ((now, monitor r) ∷ sched) front env t w s few =
      let (safety, posts) = safety_round limits r t.safety in
      let t' : Threads k = record t { safety = safety; queue = post_all k posts t.queue } in
      both_later now (monitor r) sched t t' refl
        (waits sched front env t' w (posts-Stands k posts front shutdown_msg t.queue s) few)
  waits ((now, expiry e) ∷ sched) front env t w s few =
      let w0 = other_readings env now w in
      let put =
        λ (o : Option (Machine Node Device)). and_then o (λ m. some (record t { lamp = m })) in
      elim (expire-In k gains limits home at now e t.lamp w0) [
        | inl (m, h, w') ↦
            let t' : Threads k = record t { lamp = m } in
            both_later now (expiry e) sched t t' (ap put h) (waits sched front now t' w' s few)
        | inr (h, c, menu) ↦ inr (
            now-Ends k gains limits home at now (expiry e) sched t (ap put h)
              (inr (ap expiry c, w0.here, w0.current, menu)))
      ]
  waits ((now, work) ∷ sched) [] env t w (back, c) few =
      let (q, e, left) = get-cons t.queue shutdown_msg back c in
      let (m, h, here, timer, rest) = shutdown-Shut now t.lamp w.home_lem in
      let quiet = ap (λ d. ends_in in_thread d.calls) rest ∙ off-Quiet in_thread now t.lamp.rest in
      inl (
        [],
        now,
        sched,
        t,
        record t { lamp = m; queue = q },
        refl,
        refl,
        worked-some k gains limits home at now shutdown_msg q t m e h
            (outlives-Quiet in_thread t.lamp m quiet),
        record { current = here; timer = timer; rest = rest },
      )
  waits ((now, work) ∷ sched) (msg ∷ front) env t w (back, c) few =
      let (q, e, left) = get-cons t.queue msg (front ++ (shutdown_msg ∷ back)) c in
      elim (worked-In k gains limits home at now msg q t e (other_readings env now w)) [
        | inl (m, h, w') ↦
            let t' : Threads k = record t { lamp = m; queue = q } in
            both_later now work sched t t' h
              (waits sched front now t' w' (back, left) (omega (arith, few)))
        | inr (h, cause) ↦ inr (now-Ends k gains limits home at now work sched t h cause)
      ]
