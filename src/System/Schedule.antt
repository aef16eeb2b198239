-- ===== src/System/Schedule.antt =====
-- Any schedule of the threads keeps the invariant of the modes, up to an end of the program.
use zbeam.Base.{
  ◌≡◌, refl, ap, ◌∙◌, subst, ◌⊎◌, inl, inr, Bool, true, false, if◌then◌else◌, Option, none, some,
  List, [], ◌∷◌, ◌++◌,
}
use zbeam.Env.{Env}
use zbeam.Msg.{ZbeamMsg}
use zbeam.Fsm.{Machine}
use zbeam.Node.{Node}
use zbeam.Thermal.{Gains}
use zbeam.Safety.{Limits}
use zbeam.Worker.{MsgQueue, handle_msg}
use zbeam.Worker.Within.{handle_msg-Within}
use zbeam.Worker.Order.{List-cases}
use zbeam.Ui.Device.{Device}
use zbeam.Tree.Table.{table}
use zbeam.Tree.Modes.{Fits, IsOff, off-Enters}
use zbeam.Tree.TableMoves.{table-Moves}
use zbeam.System.Events.{
  Event, taken, inactivity_expiry, thermal_expiry, ramp_expiry, strobe_expiry, buzz_expiry,
  aux_expiry,
}
use zbeam.System.Modes.{In, Result, other_readings, live-In}
use zbeam.System.Live.{can_happen}
use zbeam.System.Events.{on_event}
use zbeam.System.Quiet.{
  in_thread, in_interrupt, Quiet, heat-Quiet, buzz-Quiet, ramp-Quiet, flash-Quiet, aux-Quiet,
}
use zbeam.System.Threads.{
  Threads, Act, input, monitor, work, expiry, and_then, outlives, expired, expire, worked, act,
  acts,
}
use zbeam.System.Interrupts.{IsMenu, handler-Quiet, outlives-Quiet, outlives-cases}

module _ (k : MsgQueue) (gains : Gains) (limits : Limits) (home : Node) (at : IsOff home) where
  open k use {Q, get, contents, get-nil, get-cons}

  expired-In :
      (env : Env) (e : Event) (m : Machine Node Device)
      → In env home m
      → Result env home (expired k gains limits env e m)
  expired-In env (taken msg) m w = (m, refl, w)
  expired-In env inactivity_expiry m w = live-In gains home at env inactivity_expiry m w
  expired-In env thermal_expiry m w = live-In gains home at env thermal_expiry m w
  expired-In env ramp_expiry m w = live-In gains home at env ramp_expiry m w
  expired-In env strobe_expiry m w = live-In gains home at env strobe_expiry m w
  expired-In env buzz_expiry m w = live-In gains home at env buzz_expiry m w
  expired-In env aux_expiry m w = live-In gains home at env aux_expiry m w

  gated :
      (b : Bool) (m x m' : Machine Node Device)
      → Quiet in_interrupt m.rest x.rest
      → (if b then some x else some m) ≡ some m'
      → Quiet in_interrupt m.rest m'.rest
  gated true m x m' q e =
      let same : x ≡ m' = cc in subst (λ y. Quiet in_interrupt m.rest y.rest) same q
  gated false m x m' q e =
      let same : m ≡ m' = cc in subst (λ y. Quiet in_interrupt m.rest y.rest) same refl

  expired-Quiet :
      (env : Env) (e : Event) (m m' : Machine Node Device)
      → (w : In env home m) → expired k gains limits env e m ≡ some m'
      → ((e ≡ inactivity_expiry) × IsMenu w.here) ⊎ Quiet in_interrupt m.rest m'.rest
  unfolding on_event
  expired-Quiet env (taken msg) m m' w h = inr (gated false m m m' refl h)
  expired-Quiet env inactivity_expiry m m' w h = elim (handler-Quiet env home m at w) [
    | inl menu ↦ inl (refl, menu)
    | inr q ↦ inr (gated (can_happen inactivity_expiry m) m _ m' q h)
  ]
  expired-Quiet env thermal_expiry m m' w h =
      inr (gated (can_happen thermal_expiry m) m _ m' (heat-Quiet in_interrupt gains env m.rest) h)
  expired-Quiet env ramp_expiry m m' w h =
      inr (gated (can_happen ramp_expiry m) m _ m' (ramp-Quiet in_interrupt m.rest) h)
  expired-Quiet env strobe_expiry m m' w h =
      inr (gated (can_happen strobe_expiry m) m _ m' (flash-Quiet in_interrupt env m.rest) h)
  expired-Quiet env buzz_expiry m m' w h =
      inr (gated (can_happen buzz_expiry m) m _ m' (buzz-Quiet in_interrupt m.rest) h)
  expired-Quiet env aux_expiry m m' w h =
      inr (gated (can_happen aux_expiry m) m _ m' (aux-Quiet in_interrupt env m.rest) h)

  -- An expiry keeps the invariant, or ends the program in a menu.
  pub expire-In :
      (env : Env) (e : Event) (m : Machine Node Device)
      → (w : In env home m)
      → Result env home (expire k gains limits env e m)
        ⊎ ((expire k gains limits env e m ≡ none) × (e ≡ inactivity_expiry) × IsMenu w.here)
  expire-In env e m w =
      let (m', h, w') = expired-In env e m w in
      let run = ap (λ o. and_then o (outlives in_interrupt m)) h in
      elim (expired-Quiet env e m m' w h) [
        | inr q ↦ inl (m', run ∙ outlives-Quiet in_interrupt m m' q, w')
        | inl (c, menu) ↦ elim (outlives-cases in_interrupt m m') [
          | inl o ↦ inl (m', run ∙ o, w')
          | inr o ↦ inr (run ∙ o, c, menu)
        ]
      ]

  after_message :
      (env : Env) (msg : ZbeamMsg) (q : Q) (t : Threads k) (m : Machine Node Device)
      → get t.queue ≡ some (msg, q)
      → handle_msg (table env) msg t.lamp ≡ some m
      → act k gains limits env work t
        ≡ and_then (outlives in_thread t.lamp m) (λ m. some (record t { lamp = m; queue = q }))
  unfolding act
  after_message env msg q t m e h =
      ap (λ o. worked k gains limits env o t) e
      ∙ ap
          (λ o.
            and_then (and_then o (outlives in_thread t.lamp))
              (λ m. some (record t { lamp = m; queue = q })))
          h

  -- The worker's turn with an oldest message whose handling the program outlives.
  pub worked-some :
      (env : Env) (msg : ZbeamMsg) (q : Q) (t : Threads k) (m : Machine Node Device)
      → get t.queue ≡ some (msg, q)
      → handle_msg (table env) msg t.lamp ≡ some m
      → outlives in_thread t.lamp m ≡ some m
      → act k gains limits env work t ≡ some (record t { lamp = m; queue = q })
  worked-some env msg q t m e h o =
      after_message env msg q t m e h
      ∙ ap (λ x. and_then x (λ m. some (record t { lamp = m; queue = q }))) o

  -- Why an act ends the program: the worker's turn calls `sys_reboot`, or the inactivity timer expires
  -- in a menu whose timeout leads to a routine that sleeps.
  abbrev pub Cause : Env → Act → Threads k → Type 0
  Cause now a t =
      ((a ≡ work)
        × (msg : ZbeamMsg) × (q : Q) × (m : Machine Node Device) × (get t.queue ≡ some (msg, q))
        × (handle_msg (table now) msg t.lamp ≡ some m)
        × (outlives in_thread t.lamp m ≡ none))
      ⊎ ((a ≡ expiry inactivity_expiry)
          × (n : Node) × (t.lamp.fsm.current_node ≡ some n)
          × IsMenu n)

  -- An act of the schedule does that.
  abbrev pub Ends : List (Env × Act) → Threads k → Type 0
  Ends sched t =
      (before : List (Env × Act)) × (now : Env) × (a : Act) × (after : List (Env × Act))
      × (last : Threads k) × (sched ≡ before ++ ((now, a) ∷ after))
      × (acts k gains limits before t ≡ some last)
      × (act k gains limits now a last ≡ none)
      × Cause now a last

  -- A turn of the worker keeps the invariant, or restarts the program.
  pub worked-In :
      (env : Env) (msg : ZbeamMsg) (q : Q) (t : Threads k)
      → get t.queue ≡ some (msg, q)
      → In env home t.lamp
      → ((m : Machine Node Device) × (act k gains limits env work t
            ≡ some (record t { lamp = m; queue = q }))
          × In env home m)
        ⊎ ((act k gains limits env work t ≡ none) × Cause env work t)
  worked-In env msg q t e w =
      let (m, h, w') =
        handle_msg-Within (table env) Fits (table-Moves env home at) (off-Enters env home at) msg
          t.lamp w in
      elim (outlives-cases in_thread t.lamp m) [
        | inl o ↦ inl (m, worked-some env msg q t m e h o, w')
        | inr o ↦ inr (
          after_message env msg q t m e h
              ∙ ap (λ x. and_then x (λ m. some (record t { lamp = m; queue = q }))) o,
          inl (refl, msg, q, m, e, h, o),
        )
      ]

  -- What an act leaves.
  abbrev Acted : Env → Act → Threads k → Type 0
  Acted env a t =
      ((t' : Threads k) × (act k gains limits env a t ≡ some t') × In env home t'.lamp)
      ⊎ ((act k gains limits env a t ≡ none) × Cause env a t)

  act-In : (env : Env) (a : Act) (t : Threads k) → In env home t.lamp → Acted env a t
  unfolding act
  act-In env (input e) t w = inl (_, refl, w)
  act-In env (monitor r) t w = inl (_, refl, w)
  act-In env (expiry e) t w =
      let put =
        λ (o : Option (Machine Node Device)). and_then o (λ m. some (record t { lamp = m })) in
      elim (expire-In env e t.lamp w) [
        | inl (m, h, w') ↦ inl (record t { lamp = m }, ap put h, w')
        | inr (h, c, menu) ↦ inr (ap put h, inr (ap expiry c, w.here, w.current, menu))
      ]
  act-In env work t w = elim (List-cases (contents t.queue)) [
    | inl empty ↦ inl (t, ap (λ o. worked k gains limits env o t) (get-nil t.queue empty), w)
    | inr (msg, rest, c) ↦
        let (q, e, left) = get-cons t.queue msg rest c in
        elim (worked-In env msg q t e w) [
          | inl (m, h, w') ↦ inl (record t { lamp = m; queue = q }, h, w')
          | inr ended ↦ inr ended
        ]
  ]

  pub later-Ends :
      (now : Env) (a : Act) (sched : List (Env × Act)) (t t' : Threads k)
      → act k gains limits now a t ≡ some t'
      → Ends sched t'
      → Ends ((now, a) ∷ sched) t
  unfolding acts
  later-Ends now a sched t t' e (before, then_, b, after, last, split, run, ended, cause) = (
    (now, a) ∷ before,
    then_,
    b,
    after,
    last,
    ap (λ l. (now, a) ∷ l) split,
    ap (λ o. and_then o (acts k gains limits before)) e ∙ run,
    ended,
    cause,
  )

  pub now-Ends :
      (now : Env) (a : Act) (sched : List (Env × Act)) (t : Threads k)
      → act k gains limits now a t ≡ none
      → Cause now a t
      → Ends ((now, a) ∷ sched) t
  unfolding acts
  now-Ends now a sched t e cause = ([], now, a, sched, t, refl, refl, e, cause)

  -- A schedule goes through and keeps the invariant, or ends the program.
  pub acts-In :
      (sched : List (Env × Act)) (env : Env) (t : Threads k)
      → In env home t.lamp
      → ((t' : Threads k) × (acts k gains limits sched t ≡ some t') × In env home t'.lamp)
        ⊎ Ends sched t
  unfolding acts
  acts-In [] env t w = inl (t, refl, w)
  acts-In ((now, a) ∷ sched) env t w = elim (act-In now a t (other_readings env now w)) [
    | inr (e, cause) ↦ inr (now-Ends now a sched t e cause)
    | inl (t1, e1, w1) ↦ elim (acts-In sched env t1 (other_readings now env w1)) [
      | inl (t2, e2, w2) ↦ inl (t2, ap (λ o. and_then o (acts k gains limits sched)) e1 ∙ e2, w2)
      | inr ended ↦ inr (later-Ends now a sched t t1 e1 ended)
    ]
  ]
