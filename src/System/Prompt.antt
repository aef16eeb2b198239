-- ===== src/System/Prompt.antt =====
-- The firmware after `main`, under any schedule of its threads: how it can end, and a shutdown in time.
use zbeam.Base.{
  ◌<◌, ◌≡◌, arith, refl, sym, ap, ◌∙◌, subst, ◌⊎◌, inl, inr, true, false, none, some, Option-cases,
  List, [], ◌∷◌, ◌++◌, length,
}
use zbeam.Env.{Env}
use zbeam.Kernel.{stopped, runs}
use zbeam.Thermal.{Gains}
use zbeam.Safety.{Limits, Readings, Safety, check_fault, is_safe, shutdown_msg, safety_round}
use zbeam.Worker.{MsgQueue, queue_depth, fsm_worker_post_msg, post_all}
use zbeam.Msg.{ZbeamMsg}
use zbeam.Node.{Node}
use zbeam.Ui.Device.{pulses, light}
use zbeam.Ui.Init.{ui_init}
use zbeam.Ui.Actions.{action_off, get_start_node}
use zbeam.Ui.Dark.{action_off-dark}
use zbeam.Ui.Timers.{IsAsleep}
use zbeam.Tree.Modes.{IsOn, IsAwake, IsOff, is_ramp, is_strobe, is_used, start-IsOff}
use zbeam.System.{System, Board, boot}
use zbeam.System.Boot.{start-action}
use zbeam.System.Fault.{fault-posts}
use zbeam.System.Modes.{In, boot-In}
use zbeam.System.Threads.{Threads, Act, monitor, work, and_then, act, acts, works}
use zbeam.System.Schedule.{Ends, acts-In}
use zbeam.System.Waiting.{Stands, waits}

module _ (k : MsgQueue) (gains : Gains) (limits : Limits) (b : Board) (env : Env) (s : System)
    (queue : k.Q) (safety : Safety) where
  open k use {contents, put-room}

  -- What `main` leaves, with a queue and the monitor's variables.
  abbrev pub powered_up : Threads k
  powered_up = record {
    lamp = (boot b env s).lamp;
    queue = queue;
    tap = (boot b env s).tap;
    safety = safety;
  }

  abbrev pub start : Node
  start = get_start_node (ui_init b.default_mode env s.lamp.rest)

  -- The engine is in a node in use, and its timers and the power state are those of the node.
  abbrev pub Fitting : Threads k → Type 0
  Fitting t =
      (n : Node) × (t.lamp.fsm.current_node ≡ some n)
      × (is_used n ≡ true)
      × (runs t.lamp.rest.ui.ramp_timer ≡ is_ramp n)
      × (runs t.lamp.rest.ui.strobe_timer ≡ is_strobe n)
      × (IsOff n → IsAsleep t.lamp.rest)
      × (IsOn n → IsAwake t.lamp.rest)

  abbrev pub End : List (Env × Act) → Threads k → Type 0
  End = Ends k gains limits start (start-IsOff (ui_init b.default_mode env s.lamp.rest))

  -- Any schedule of key events, rounds of the monitor, turns of the worker and timer expiries after
  -- `main` ends in one of two ways. Either it goes through, and then the engine is in some node, which
  -- is neither a moon node nor `simple_reset` nor one of the nodes that are never initialised, the
  -- timer of the ramp runs exactly if that is a ramp's node, and the timer of the strobe exactly if it
  -- is the strobe's node; if it is a node of the lamp that is off, the thermal timer is stopped and the
  -- device suspended, and if it is one of the lamp that is on, that timer runs with a period of 500 ms
  -- and the device is awake. Or an act of it ends the program: a turn of the worker that calls
  -- `sys_reboot`, or an expiry of the inactivity timer in `adv_cal_voltage` or `adv_cal_thermal_limit`,
  -- whose next node's routine calls `k_msleep` in the timer's interrupt. The engine never lacks a node,
  -- and no other expiry sleeps.
  pub acts-Fits :
      (sched : List (Env × Act))
      → ((t : Threads k) × (acts k gains limits sched powered_up ≡ some t) × Fitting t)
        ⊎ End sched powered_up
  acts-Fits sched =
      let before = ui_init b.default_mode env s.lamp.rest in
      elim (acts-In k gains limits start (start-IsOff before) sched env powered_up
        (boot-In b env s)) [
          | inl (t, e, w) ↦
              let ((ramp, strobe), off, on, used) = w.state in
              inl (t, e, (w.here, w.current, used, ramp, strobe, off, on))
          | inr ended ↦ inr ended
        ]

  post-alone :
      (ms : List ZbeamMsg) (q : k.Q)
      → ms ≡ shutdown_msg ∷ []
      → length (contents q) < queue_depth
      → contents (post_all k ms q) ≡ contents q ++ (shutdown_msg ∷ [])
  unfolding post_all fsm_worker_post_msg
  post-alone ms q e room =
      subst (λ l. contents (post_all k l q) ≡ contents q ++ (shutdown_msg ∷ [])) (sym e)
        (put-room shutdown_msg q room).1

  -- The engine is in the start node without a timeout, the emitters have the light of level 0, the
  -- timers of the ramp, of the strobe and of the temperature are stopped, the device is suspended.
  abbrev pub Darkened : Threads k → Threads k → Type 0
  Darkened lit dark =
      (dark.lamp.fsm.current_node ≡ some start)
      × (dark.lamp.fsm.inactivity_timer ≡ stopped)
      × (pulses dark.lamp.rest.calls ≡ light lit.lamp.rest 0)
      × (dark.lamp.rest.ui.ramp_timer ≡ stopped)
      × (dark.lamp.rest.ui.strobe_timer ≡ stopped)
      × (dark.lamp.rest.ui.thermal_timer ≡ stopped)
      × (dark.lamp.rest.pm.is_suspended ≡ true)

  action_off-Darkened :
      (then_ : Env) (lit dark : Threads k)
      → dark.lamp.fsm.current_node ≡ some start
      → dark.lamp.fsm.inactivity_timer ≡ stopped
      → dark.lamp.rest ≡ action_off then_ lit.lamp.rest
      → Darkened lit dark
  action_off-Darkened then_ lit dark here timer rest =
      let (light0, ramp, strobe, heat, asleep, _, _) = action_off-dark then_ lit.lamp.rest in
      (
        here,
        timer,
        ap (λ d. pulses d.calls) rest ∙ light0,
        ap (λ d. d.ui.ramp_timer) rest ∙ ramp,
        ap (λ d. d.ui.strobe_timer) rest ∙ strobe,
        ap (λ d. d.ui.thermal_timer) rest ∙ heat,
        ap (λ d. d.pm.is_suspended) rest ∙ asleep,
      )

  -- Some turn of the worker in the schedule leads to that.
  abbrev pub Darkens : List (Env × Act) → Threads k → Type 0
  Darkens sched t =
      (before : List (Env × Act)) × (then_ : Env) × (after : List (Env × Act)) × (lit : Threads k)
      × (dark : Threads k) × (sched ≡ before ++ ((then_, work) ∷ after))
      × (acts k gains limits before t ≡ some lit)
      × (act k gains limits then_ work lit ≡ some dark)
      × Darkened lit dark

  waits-Darkens :
      (sched : List (Env × Act)) (front : List ZbeamMsg) (t : Threads k)
      → In env start t.lamp
      → Stands k front shutdown_msg t.queue
      → length front < works sched
      → Darkens sched t ⊎ End sched t
  waits-Darkens sched front t w stands enough =
      let before = ui_init b.default_mode env s.lamp.rest in
      elim (waits k gains limits start (start-IsOff before) (λ env'. (start-action env' before).0)
        sched front env t w stands enough) [
          | inl (before, then_, after, lit, dark, split, run, turn, shut) ↦ inl (
            before,
            then_,
            after,
            lit,
            dark,
            split,
            run,
            turn,
            action_off-Darkened then_ lit dark shut.current shut.timer shut.rest,
          )
          | inr ended ↦ inr ended
        ]

  -- A schedule that goes through has no act that ends the program.
  ended-none :
      (before : List (Env × Act)) (now : Env) (a : Act) (after : List (Env × Act))
      (t last : Threads k)
      → acts k gains limits before t ≡ some last
      → act k gains limits now a last ≡ none
      → acts k gains limits (before ++ ((now, a) ∷ after)) t ≡ none
  unfolding acts
  ended-none [] now a after t last run ended =
      let same : t ≡ last = cc in
      ap (λ x. and_then (act k gains limits now a x) (acts k gains limits after)) same
      ∙ ap (λ o. and_then o (acts k gains limits after)) ended
  ended-none ((then_, c) ∷ before) now a after t last run ended =
      elim (Option-cases (act k gains limits then_ c t)) [
        | inl e ↦ ap (λ o. and_then o (acts k gains limits (before ++ ((now, a) ∷ after)))) e
        | inr (t1, e) ↦
            let rest : acts k gains limits before t1 ≡ some last =
              sym (ap (λ o. and_then o (acts k gains limits before)) e) ∙ run in
            ap (λ o. and_then o (acts k gains limits (before ++ ((now, a) ∷ after)))) e
            ∙ ended-none before now a after t1 last rest ended
      ]

  no_end :
      (es before : List (Env × Act)) (now : Env) (a : Act) (after : List (Env × Act))
      (t last end_ : Threads k)
      → es ≡ before ++ ((now, a) ∷ after)
      → acts k gains limits before t ≡ some last
      → act k gains limits now a last ≡ none
      → ¬ (acts k gains limits es t ≡ some end_)
  no_end es before now a after t last end_ split run ended e =
      let stuck = ended-none before now a after t last run ended in
      let f : acts k gains limits (before ++ ((now, a) ∷ after)) t ≡ some end_ =
        subst (λ l. acts k gains limits l t ≡ some end_) split e in
      let bad : none ≡ some end_ = sym stuck ∙ f in ground arith

  reached-In :
      (es : List (Env × Act)) (t : Threads k)
      → acts k gains limits es powered_up ≡ some t
      → In env start t.lamp
  reached-In es t e =
      elim (acts-In k gains limits start (start-IsOff (ui_init b.default_mode env s.lamp.rest)) es
        env powered_up (boot-In b env s)) [
          | inl (t0, e0, w) ↦ let same : t0 ≡ t = cc in subst (λ x. In env start x.lamp) same w
          | inr (before, now, a, after, last, split, run, ended, cause) ↦
              absurd (no_end es before now a after powered_up last t split run ended e)
        ]

  -- After `main` and any schedule, where the monitor finds a fault with no shutdown triggered yet and
  -- while there is room in the queue: whatever happens next, as soon as the worker has had more turns
  -- than there were messages in the queue, one of these turns has put the engine in the start node
  -- without a timeout, given the emitters the light of level 0, stopped the timers of the ramp, of the
  -- strobe and of the temperature and suspended the device; unless before that the program has ended:
  -- with `sys_reboot`, or with a sleep in the interrupt of the inactivity timer, which expired in
  -- `adv_cal_voltage` or `adv_cal_thermal_limit`.
  pub fault-prompt :
      (es : List (Env × Act)) (t : Threads k) (now : Env) (r : Readings) (sched : List (Env × Act))
      → acts k gains limits es powered_up ≡ some t
      → is_safe (check_fault limits r) ≡ false
      → t.safety.shutdown_triggered ≡ false
      → length (contents t.queue) < queue_depth
      → length (contents t.queue) < works sched
      → (t' : Threads k) × (act k gains limits now (monitor r) t ≡ some t')
        × (Darkens sched t' ⊎ End sched t')
  unfolding act
  fault-prompt es t now r sched e bad first room enough =
      let (next, posts) = safety_round limits r t.safety in
      let t' : Threads k = record t { safety = next; queue = post_all k posts t.queue } in
      let stands = post-alone posts t.queue (fault-posts limits r t.safety bad first) room in
      let d : Darkens sched t' ⊎ End sched t' =
        waits-Darkens sched (contents t.queue) t' (reached-In es t e) ([], stands) enough in
      (t', refl, d)
