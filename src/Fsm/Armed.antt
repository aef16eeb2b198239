-- ===== src/Fsm/Armed.antt =====
-- What each operation of lib/fsm_engine.c does to the inactivity timer.
use zbeam.Base.{
  ℕ, ◌-◌, ◌≡◌, ◌||◌, inl, inr, Option, none, some, arith, ltb, if◌then◌else◌, Bool, true, false,
  Bool-cases, Option-cases, sym, subst,
}
use zbeam.Kernel.{Timer, stopped, started}
use zbeam.Msg.{
  MsgType, input_tap, input_hold_start, input_hold_release, timeout_inactivity, ZbeamMsg,
}
use zbeam.Fsm.{
  Callback, FsmNode, slot, max_nav_slots, Fsm, Machine, call, go_or, navigate, reset_node,
  reset_inactivity_timer, timeout_target, fsm_transition_to, dispatch_type, dispatch_from,
  fsm_process_msg, fsm_process_timer, process_timer_type, inactivity_timer_handler,
  fsm_emergency_off,
}

module _ {N S : Type 0} (table : N → FsmNode N S) where
  -- The timer that a node asks for.
  abbrev pub timer_of : N → Timer
  timer_of n = if ltb 0 (table n).timeout_ms then started (table n).timeout_ms 0 else stopped

  -- In node `n`, with the timer as the node asks, and with home node `home`.
  pub record IsArmed (home : N) (m : Machine N S) : Type 0 where
    pub here : N
    pub current : m.fsm.current_node ≡ some here
    pub timer : m.fsm.inactivity_timer ≡ timer_of here
    pub home_lem : m.fsm.home_node ≡ some home

  -- A step that keeps the invariant, whatever the rest of the program's state is.
  abbrev pub Keeps : N → (Machine N S → Machine N S) → Type 0
  Keeps home f = (m : Machine N S) → IsArmed home m → IsArmed home (f m)

  pub transition-IsArmed :
      (home n : N) (m : Machine N S)
      → m.fsm.home_node ≡ some home
      → IsArmed home (fsm_transition_to table (some n) m)
  unfolding fsm_transition_to
  transition-IsArmed home n m h = record {
    here = n;
    current = ground arith;
    timer = ground arith;
    home_lem = ground arith;
  }

  go_or-IsArmed :
      (home : N) (o : Option N) (m : Machine N S) (f : Machine N S → Machine N S)
      → IsArmed home m
      → IsArmed home (f m)
      → IsArmed home (go_or table (o, m) f)
  go_or-IsArmed home none m f a b = b
  go_or-IsArmed home (some n) m f a b = transition-IsArmed home n m a.home_lem

  -- The rest of the program's state does not matter.
  pub rest-IsArmed :
      (home : N) (m : Machine N S) (s : S) → IsArmed home m → IsArmed home (record m { rest = s })
  rest-IsArmed home m s a = record {
    here = a.here;
    current = a.current;
    timer = a.timer;
    home_lem = a.home_lem;
  }

  call-IsArmed :
      (home : N) (cb : Option (Callback N S)) (self : N) (count : ℕ) (m : Machine N S)
      → IsArmed home m
      → IsArmed home (go_or table (call table cb self count m) (λ m1. m1))
  call-IsArmed home none self count m a = a
  call-IsArmed home (some cb) self count m a =
      let b = rest-IsArmed home m (cb self count m.rest).1 a in
      go_or-IsArmed home (cb self count m.rest).0 _ (λ m1. m1) b b

  navigate-IsArmed :
      (home : N) (cb : Option (Callback N S)) (e : Option N) (any : Option (Callback N S))
      (self : N) (count : ℕ) (m : Machine N S)
      → IsArmed home m
      → IsArmed home (navigate table cb e any self count m)
  navigate-IsArmed home none e any self count m a =
      go_or-IsArmed home e m _ a (call-IsArmed home any self count m a)
  navigate-IsArmed home (some cb) e any self count m a =
      let b = rest-IsArmed home m (cb self count m.rest).1 a in
      go_or-IsArmed home (cb self count m.rest).0 _ _ b
        (go_or-IsArmed home e _ _ b (call-IsArmed home any self count _ b))

  reset_node-IsArmed :
      (home n : N) (m : Machine N S)
      → m.fsm.current_node ≡ some n
      → IsArmed home m
      → IsArmed home (reset_node table (some n) m)
  reset_node-IsArmed home n m h a = record {
    here = a.here;
    current = ground arith;
    timer = ground arith;
    home_lem = ground arith;
  }

  reset-IsArmed : (home : N) → Keeps home (reset_inactivity_timer table)
  unfolding reset_inactivity_timer
  reset-IsArmed home m a =
      subst (λ o. IsArmed home (reset_node table o m)) (sym a.current)
        (reset_node-IsArmed home a.here m a.current a)

  guarded-IsArmed :
      (home : N) (b : Bool) (m m' : Machine N S)
      → IsArmed home m
      → IsArmed home m'
      → IsArmed home (if b then m else m')
  guarded-IsArmed home true m m' a a' = a
  guarded-IsArmed home false m m' a a' = a'

  dispatch_type-IsArmed :
      (home : N) (type : MsgType) (self : N) (count : ℕ)
      → Keeps home (dispatch_type table type self count)
  unfolding dispatch_type
  dispatch_type-IsArmed home input_hold_release self count m a =
      call-IsArmed home (table self).release_callback self 0 m a
  dispatch_type-IsArmed home input_tap self count m a =
      guarded-IsArmed home (ltb count 1 || ltb max_nav_slots count) m _ a (
        navigate-IsArmed home (slot (table self).click_callbacks (count - 1))
          (slot (table self).click_map (count - 1)) (table self).any_click_callback self count m a)
  dispatch_type-IsArmed home input_hold_start self count m a =
      guarded-IsArmed home (ltb count 1 || ltb max_nav_slots count) m _ a (
        navigate-IsArmed home (slot (table self).hold_callbacks (count - 1))
          (slot (table self).hold_map (count - 1)) (table self).any_hold_callback self count m a)
  dispatch_type-IsArmed home _ self count m a = a

  dispatch_from-IsArmed :
      (home : N) (type : MsgType) (count : ℕ) (o : Option N)
      → Keeps home (dispatch_from table type count o)
  dispatch_from-IsArmed home type count none m a = a
  dispatch_from-IsArmed home type count (some n) m a =
      dispatch_type-IsArmed home type n count _ (reset-IsArmed home m a)

  pub process_msg-IsArmed : (home : N) (msg : ZbeamMsg) → Keeps home (fsm_process_msg table msg)
  unfolding fsm_process_msg
  process_msg-IsArmed home msg m a =
      dispatch_from-IsArmed home msg.type msg.count m.fsm.current_node m a

  -- Some node is always at the end of a timeout.
  target-some :
      (home : N) (o : Option N) (f : Fsm N)
      → f.home_node ≡ some home
      → (n : N) × (timeout_target table o f ≡ some n)
  unfolding timeout_target
  target-some home none f h = (home, h)
  target-some home (some n) f h = elim (Option-cases (table n).timeout_node) [
    | inl e ↦ elim (Option-cases f.previous_node) [
      | inl p ↦ (home, ground arith)
      | inr (q, p) ↦ elim (Bool-cases (table n).timeout_reverts) [
        | inl r ↦ (q, ground arith)
        | inr r ↦ (home, ground arith)
      ]
    ]
    | inr (t, e) ↦ (t, ground arith)
  ]

  timeout-IsArmed :
      (home : N) (o : Option N) (f : Fsm N) (m : Machine N S)
      → f.home_node ≡ some home
      → m.fsm.home_node ≡ some home
      → IsArmed home (fsm_transition_to table (timeout_target table o f) m)
  timeout-IsArmed home o f m h k =
      let (n, e) = target-some home o f h in
      subst (λ t. IsArmed home (fsm_transition_to table t m)) (sym e)
        (transition-IsArmed home n m k)

  process_timer_type-IsArmed :
      (home : N) (type : MsgType) → Keeps home (process_timer_type table type)
  unfolding process_timer_type
  process_timer_type-IsArmed home timeout_inactivity m a =
      timeout-IsArmed home m.fsm.current_node m.fsm m a.home_lem a.home_lem
  process_timer_type-IsArmed home _ m a = a

  pub handler-IsArmed : (home : N) → Keeps home (inactivity_timer_handler table)
  unfolding inactivity_timer_handler
  handler-IsArmed home m a = timeout-IsArmed home m.fsm.current_node m.fsm _ a.home_lem a.home_lem

  pub emergency-IsArmed :
      (home : N) (m m' : Machine N S)
      → (table home).timeout_ms ≡ 0
      → IsArmed home m
      → fsm_emergency_off table m ≡ some m'
      → IsArmed home m'
  unfolding fsm_emergency_off
  emergency-IsArmed home m m' z a e = record {
    here = home;
    current = ground arith;
    timer = ground arith;
    home_lem = ground arith;
  }

  pub process_timer-IsArmed : (home : N) (msg : ZbeamMsg) → Keeps home (fsm_process_timer table msg)
  unfolding fsm_process_timer
  process_timer-IsArmed home msg m a = process_timer_type-IsArmed home msg.type m a
