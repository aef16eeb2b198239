-- ===== src/Fsm/Within/Steps.antt =====
-- The operations of lib/fsm_engine.c keep an invariant that depends on the current node.
use zbeam.Base.{
  ℕ, ◌-◌, ◌≡◌, ◌||◌, refl, sym, ap, ◌∙◌, subst, inl, inr, Option, none, some, List, [], ◌∷◌, All,
  ltb, ◌==◌, false, Bool-cases, Option-cases, arith,
}
use zbeam.Kernel.{stopped}
use zbeam.Msg.{
  MsgType, input_tap, input_hold_start, input_hold_release, timeout_inactivity, ZbeamMsg,
}
use zbeam.Fsm.{
  Callback, FsmNode, slot, max_nav_slots, Fsm, Machine, reset_node, reset_inactivity_timer,
  timeout_target, run_action, arm, fsm_transition_to, fsm_init, dispatch_type, dispatch_from,
  fsm_process_msg, fsm_process_timer, process_timer_type, inactivity_timer_handler, enter_home,
  fsm_emergency_off,
}
use zbeam.Fsm.Within.{
  Enters, Generic, Slot, Moves, Within, target, transition-Within, At, call-Within, navigate-Within,
  run_action-rest, routine,
}

-- What holds for each entry holds for the one that is found.
slot-All {ℓ κ} :
    {A : Type ℓ} (P : ℕ → A → Type κ) (es : List (ℕ × A)) (i : ℕ) (a : A)
    → All (λ p. P p.0 p.1) es
    → slot es i ≡ some a
    → P i a
slot-All P [] i a h e = cc
slot-All {A = A} P ((j, b) ∷ es) i a h e = elim (Bool-cases (j == i)) [
  | inl t ↦
      let same : j ≡ i = ground arith in
      let found : b ≡ a = ground arith in subst (λ k. P k a) same (subst (P j) found h.0)
  | inr t ↦ slot-All P es i a h.1 (ground arith)
]

module _ {N S : Type 0} (table : N → FsmNode N S) (holds : N → S → Type 0) (self : N) where
  slot-Slot :
      (calls : List (ℕ × Callback N S)) (nodes : List (ℕ × N)) (any : Option (Callback N S))
      (i count : ℕ) (s : S)
      → All
          (λ p.
            (count : ℕ) (s : S)
            → holds self s
            → Slot table holds (some p.1) (slot nodes p.0) any self count s)
          calls
      → All (λ p. (s : S) → slot calls p.0 ≡ none → holds self s → Enters table holds p.1 s) nodes
      → Generic table holds any self count s
      → holds self s
      → Slot table holds (slot calls i) (slot nodes i) any self count s
  slot-Slot calls nodes any i count s c n g h = elim (Option-cases (slot calls i)) [
    | inl e ↦ elim (Option-cases (slot nodes i)) [
      | inl e' ↦ rw (e, e') g
      | inr (t, e') ↦
          rw (e, e')
            (slot-All (λ i t. (s : S) → slot calls i ≡ none → holds self s → Enters table holds t s)
              nodes i t n e' s e h)
    ]
    | inr (cb, e) ↦
        subst (λ o. Slot table holds o (slot nodes i) any self count s) (sym e)
          (slot-All
            (λ i cb.
              (count : ℕ) (s : S)
              → holds self s
              → Slot table holds (some cb) (slot nodes i) any self count s)
            calls i cb c e count s h)
  ]

module _ {N S : Type 0} (table : N → FsmNode N S) (holds : N → S → Type 0) {home : N}
    (moves : (self : N) → Moves table holds home self)
    (returns : (s : S) → Enters table holds home s) where
  abbrev Kept : Machine N S → Type 0
  Kept = Within table holds home

  arm-At :
      (self : N) (ms : ℕ) (m : Machine N S)
      → At table holds moves returns self 0 m
      → At table holds moves returns self 0 (arm table ms m) × ((arm table ms m).rest ≡ m.rest)
  arm-At self ms m at = elim (Bool-cases (ltb 0 ms)) [
    | inl e ↦ rw e (at, refl)
    | inr e ↦ rw e (at, refl)
  ]

  dispatch_type-Within :
      (type : MsgType) (self : N) (count : ℕ) (m : Machine N S)
      → At table holds moves returns self count m
      → holds self m.rest
      → Kept (dispatch_type table type self count m)
  unfolding dispatch_type
  dispatch_type-Within input_hold_release self count m at h =
      call-Within table holds moves returns self 0 (table self).release_callback m at
        ((moves self).release m.rest h)
  dispatch_type-Within input_tap self count m at h =
      elim (Bool-cases (ltb count 1 || ltb max_nav_slots count)) [
        | inl e ↦ rw e (record { here = self; current = at.0; home_lem = at.1; state = h })
        | inr e ↦ rw e (
            navigate-Within table holds moves returns self count
              (slot (table self).click_callbacks (count - 1))
              (slot (table self).click_map (count - 1)) (table self).any_click_callback m at
              (slot-Slot table holds self (table self).click_callbacks (table self).click_map
                (table self).any_click_callback (count - 1) count m.rest (moves self).click_calls
                (moves self).click_nodes ((moves self).any_click count m.rest h) h))
      ]
  dispatch_type-Within input_hold_start self count m at h =
      elim (Bool-cases (ltb count 1 || ltb max_nav_slots count)) [
        | inl e ↦ rw e (record { here = self; current = at.0; home_lem = at.1; state = h })
        | inr e ↦ rw e (
            navigate-Within table holds moves returns self count
              (slot (table self).hold_callbacks (count - 1))
              (slot (table self).hold_map (count - 1)) (table self).any_hold_callback m at
              (slot-Slot table holds self (table self).hold_callbacks (table self).hold_map
                (table self).any_hold_callback (count - 1) count m.rest (moves self).hold_calls
                (moves self).hold_nodes ((moves self).any_hold count m.rest h) h))
      ]
  dispatch_type-Within _ self count m at h = record {
    here = self;
    current = at.0;
    home_lem = at.1;
    state = h;
  }

  dispatch_from-Within :
      (type : MsgType) (count : ℕ) (self : N) (m : Machine N S)
      → At table holds moves returns self count m
      → holds self m.rest
      → Kept (dispatch_from table type count (some self) m)
  unfolding reset_inactivity_timer
  dispatch_from-Within type count self m at h =
      let (at', rest) = arm-At self (table self).timeout_ms m at in
      subst (λ o. Kept (dispatch_type table type self count (reset_node table o m))) (sym at.0)
        (dispatch_type-Within type self count _ at' (subst (holds self) (sym rest) h))

  pub process_msg-Within :
      (msg : ZbeamMsg) (m : Machine N S) → Kept m → Kept (fsm_process_msg table msg m)
  unfolding fsm_process_msg
  process_msg-Within msg m w =
      subst (λ o. Kept (dispatch_from table msg.type msg.count o m)) (sym w.current)
        (dispatch_from-Within msg.type msg.count w.here m (w.current, w.home_lem) w.state)

  -- Without a revert, a timeout leads to the timeout's node, or else home.
  pub timeout-target :
      (n : N) (f : Fsm N)
      → (table n).timeout_reverts ≡ false
      → f.home_node ≡ some home
      → timeout_target table (some n) f ≡ some (target table holds (table n).timeout_node home)
  unfolding timeout_target
  timeout-target n f r h = elim (Option-cases (table n).timeout_node) [
    | inl e ↦ elim (Option-cases f.previous_node) [
      | inl p ↦ ground arith
      | inr (q, p) ↦ ground arith
    ]
    | inr (t, e) ↦ ground arith
  ]

  expire-Within :
      (f : Fsm N) (w : N) (m : Machine N S)
      → f.current_node ≡ some w
      → f.home_node ≡ some home
      → m.fsm.home_node ≡ some home
      → holds w m.rest
      → Kept (fsm_transition_to table (timeout_target table f.current_node f) m)
  expire-Within f w m c h h' s =
      subst (λ o. Kept (fsm_transition_to table o m))
        (sym (ap (λ o. timeout_target table o f) c ∙ timeout-target w f (moves w).reverts h))
        (transition-Within table holds moves returns _ m h' ((moves w).timeout m.rest s))

  pub handler-Within : (m : Machine N S) → Kept m → Kept (inactivity_timer_handler table m)
  unfolding inactivity_timer_handler
  handler-Within m w = expire-Within m.fsm w.here _ w.current w.home_lem w.home_lem w.state

  process_timer_type-Within :
      (type : MsgType) (m : Machine N S) → Kept m → Kept (process_timer_type table type m)
  unfolding process_timer_type
  process_timer_type-Within timeout_inactivity m w =
      expire-Within m.fsm w.here m w.current w.home_lem w.home_lem w.state
  process_timer_type-Within _ m w = w

  pub process_timer-Within :
      (msg : ZbeamMsg) (m : Machine N S) → Kept m → Kept (fsm_process_timer table msg m)
  unfolding fsm_process_timer
  process_timer-Within msg m w = process_timer_type-Within msg.type m w

  enter_home-Within :
      (o : Option N) (m : Machine N S)
      → o ≡ some home
      → At table holds moves returns home 0 m
      → (m' : Machine N S) × (enter_home table o m ≡ some m') × Kept m'
  unfolding enter_home
  enter_home-Within none m e at = cc
  enter_home-Within (some n) m e at =
      let act = (table n).action_routine in
      let (rest, fsm) = run_action-rest table holds moves returns act m in
      let same : home ≡ n = cc in
      (
        run_action table act m,
        refl,
        record {
          here = home;
          current = ap (λ f. f.current_node) fsm ∙ at.0;
          home_lem = ap (λ f. f.home_node) fsm ∙ at.1;
          state = subst (holds home) (sym rest) (
              subst (λ k. holds home (routine table holds (table k).action_routine m.rest)) same
                (returns m.rest));
        },
      )

  -- An emergency makes no fault.
  pub emergency-Within :
      (m : Machine N S)
      → Kept m
      → (m' : Machine N S) × (fsm_emergency_off table m ≡ some m') × Kept m'
  unfolding fsm_emergency_off
  emergency-Within m w = enter_home-Within m.fsm.home_node _ w.home_lem (w.home_lem, w.home_lem)

  pub init-Within : (m : Machine N S) → Kept (fsm_init table (some home) m)
  unfolding fsm_init
  init-Within m =
      transition-Within table holds moves returns home
        (record m { fsm = record (m.fsm) { home_node = some home; inactivity_timer = stopped } })
        refl (returns m.rest)
