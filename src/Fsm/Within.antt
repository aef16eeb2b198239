-- ===== src/Fsm/Within.antt =====
-- An invariant of lib/fsm_engine.c that depends on the current node: what the rest of the program's
-- state satisfies while the engine is in a node.
pub mod Steps
use zbeam.Base.{
  ℕ, ◌-◌, ◌≡◌, ◌||◌, refl, sym, ap, ◌∙◌, subst, inl, inr, Option, none, some, List, [], ◌∷◌, All,
  ltb, ◌==◌, if◌then◌else◌, Bool, true, false, Bool-cases, Option-cases,
}
use zbeam.Kernel.{stopped}
use zbeam.Msg.{
  MsgType, input_tap, input_hold_start, input_hold_release, timeout_inactivity, ZbeamMsg,
}
use zbeam.Fsm.{
  Callback, FsmNode, slot, max_nav_slots, Fsm, Machine, call, go_or, navigate, reset_node,
  reset_inactivity_timer, timeout_target, run_action, arm, fsm_transition_to, fsm_init,
  dispatch_type, dispatch_from, fsm_process_msg, fsm_process_timer, process_timer_type,
  inactivity_timer_handler, fsm_emergency_off,
}

module _ {N S : Type 0} (table : N → FsmNode N S) (holds : N → S → Type 0) where
  abbrev pub routine : Option (S → S) → S → S
  routine none s = s
  routine (some act) s = act s

  -- What entering a node needs.
  abbrev pub Enters : N → S → Type 0
  Enters n s = holds n (routine (table n).action_routine s)

  -- What going to the node that a callback answers needs, or staying if it answers NULL.
  abbrev pub Lands : N → Option N × S → Type 0
  Lands self (none, s) = holds self s
  Lands self (some n, s) = Enters n s

  -- What the generic callback, or none, needs.
  abbrev pub Generic : Option (Callback N S) → N → ℕ → S → Type 0
  Generic none self count s = holds self s
  Generic (some cb) self count s = Lands self (cb self count s)

  abbrev pub Entry : Option N → Option (Callback N S) → N → ℕ → S → Type 0
  Entry none any self count s = Generic any self count s
  Entry (some n) any self count s = Enters n s

  abbrev pub Answered : Option N × S → Option N → Option (Callback N S) → N → ℕ → Type 0
  Answered (none, s) e any self count = Entry e any self count s
  Answered (some n, s) e any self count = Enters n s

  -- What a slot with its callback and its map entry needs.
  abbrev pub Slot : Option (Callback N S) → Option N → Option (Callback N S) → N → ℕ → S → Type 0
  Slot none e any self count s = Entry e any self count s
  Slot (some cb) e any self count s = Answered (cb self count s) e any self count

  -- Where a timeout leads that does not revert.
  abbrev pub target : Option N → N → N
  target none home = home
  target (some n) home = n

  -- Every way out of a node, and what leaves the program in it.
  pub record Moves (home : N) (self : N) : Type 0 where
    pub click_calls :
        All
          (λ p.
            (count : ℕ) (s : S)
            → holds self s
            → Slot
                (some p.1)
                (slot (table self).click_map p.0)
                (table self).any_click_callback
                self
                count
                s)
          (table self).click_callbacks
    pub click_nodes :
        All
          (λ p.
            (s : S) → slot (table self).click_callbacks p.0 ≡ none → holds self s → Enters p.1 s)
          (table self).click_map
    pub hold_calls :
        All
          (λ p.
            (count : ℕ) (s : S)
            → holds self s
            → Slot
                (some p.1)
                (slot (table self).hold_map p.0)
                (table self).any_hold_callback
                self
                count
                s)
          (table self).hold_callbacks
    pub hold_nodes :
        All
          (λ p. (s : S) → slot (table self).hold_callbacks p.0 ≡ none → holds self s → Enters p.1 s)
          (table self).hold_map
    pub release : (s : S) → holds self s → Generic (table self).release_callback self 0 s
    pub any_click :
        (count : ℕ) (s : S) → holds self s → Generic (table self).any_click_callback self count s
    pub any_hold :
        (count : ℕ) (s : S) → holds self s → Generic (table self).any_hold_callback self count s
    pub reverts : (table self).timeout_reverts ≡ false
    pub timeout : (s : S) → holds self s → Enters (target (table self).timeout_node home) s

  -- In a node of which the rest of the state satisfies what it should, with a home node.
  pub record Within (home : N) (m : Machine N S) : Type 0 where
    pub here : N
    pub current : m.fsm.current_node ≡ some here
    pub home_lem : m.fsm.home_node ≡ some home
    pub state : holds here m.rest

module _ {N S : Type 0} (table : N → FsmNode N S) (holds : N → S → Type 0) {home : N}
    (moves : (self : N) → Moves table holds home self)
    (returns : (s : S) → Enters table holds home s) where
  -- A step that keeps it.
  abbrev Keeps : (Machine N S → Machine N S) → Type 0
  Keeps f = (m : Machine N S) → Within table holds home m → Within table holds home (f m)

  pub run_action-rest :
      (act : Option (S → S)) (m : Machine N S)
      → ((run_action table act m).rest ≡ routine table holds act m.rest)
        × ((run_action table act m).fsm ≡ m.fsm)
  run_action-rest none m = (refl, refl)
  run_action-rest (some act) m = (refl, refl)

  arm-same :
      (ms : ℕ) (m : Machine N S)
      → ((arm table ms m).rest ≡ m.rest)
        × ((arm table ms m).fsm.current_node ≡ m.fsm.current_node)
        × ((arm table ms m).fsm.home_node ≡ m.fsm.home_node)
  arm-same ms m = elim (Bool-cases (ltb 0 ms)) [
    | inl e ↦ rw e (refl, refl, refl)
    | inr e ↦ rw e (refl, refl, refl)
  ]

  pub transition-Within :
      (n : N) (m : Machine N S)
      → m.fsm.home_node ≡ some home
      → Enters table holds n m.rest
      → Within table holds home (fsm_transition_to table (some n) m)
  unfolding fsm_transition_to
  transition-Within n m h e =
      let act = (table n).action_routine in
      let m1 : Machine N S = record m {
        fsm = record (m.fsm) {
          inactivity_timer = stopped;
          previous_node =
              if (table n).timeout_reverts then m.fsm.previous_node else m.fsm.current_node;
          current_node = some n;
        };
      } in
      let (rest, fsm) = run_action-rest act m1 in
      let (rest', current, home') = arm-same (table n).timeout_ms (run_action table act m1) in
      record {
        here = n;
        current = current ∙ ap (λ f. f.current_node) fsm;
        home_lem = home' ∙ ap (λ f. f.home_node) fsm ∙ h;
        state = subst (holds n) (sym (rest' ∙ rest)) e;
      }

  -- The rest of the program's state in the same node.
  pub rest-Within :
      (m : Machine N S) (s : S) (w : Within table holds home m)
      → holds w.here s
      → Within table holds home (record m { rest = s })
  rest-Within m s w h = record {
    here = w.here;
    current = w.current;
    home_lem = w.home_lem;
    state = h;
  }

  module _ (self : N) (count : ℕ) where
    -- In `self`, with the home node.
    abbrev pub At : Machine N S → Type 0
    At m = (m.fsm.current_node ≡ some self) × (m.fsm.home_node ≡ some home)

    go_or-Within :
        (o : Option N) (m : Machine N S)
        → At m
        → Lands table holds self (o, m.rest)
        → Within table holds home (go_or table (o, m) (λ m1. m1))
    go_or-Within none m at h = record { here = self; current = at.0; home_lem = at.1; state = h }
    go_or-Within (some n) m at h = transition-Within n m at.1 h

    pub call-Within :
        (any : Option (Callback N S)) (m : Machine N S)
        → At m
        → Generic table holds any self count m.rest
        → Within table holds home (go_or table (call table any self count m) (λ m1. m1))
    call-Within none m at h = go_or-Within none m at h
    call-Within (some cb) m at h = go_or-Within (cb self count m.rest).0 _ at h

    otherwise-Within :
        (e : Option N) (any : Option (Callback N S)) (m : Machine N S)
        → At m
        → Entry table holds e any self count m.rest
        → Within table holds home
            (go_or table (e, m) (λ m2. go_or table (call table any self count m2) (λ m3. m3)))
    otherwise-Within none any m at h = call-Within any m at h
    otherwise-Within (some n) any m at h = transition-Within n m at.1 h

    answer-Within :
        (o : Option N) (e : Option N) (any : Option (Callback N S)) (m : Machine N S)
        → At m
        → Answered table holds (o, m.rest) e any self count
        → Within table holds home (
            go_or table
              (o, m)
              (λ m1.
                go_or table (e, m1) (λ m2. go_or table (call table any self count m2) (λ m3. m3))))
    answer-Within none e any m at h = otherwise-Within e any m at h
    answer-Within (some n) e any m at h = transition-Within n m at.1 h

    pub navigate-Within :
        (cb : Option (Callback N S)) (e : Option N) (any : Option (Callback N S)) (m : Machine N S)
        → At m
        → Slot table holds cb e any self count m.rest
        → Within table holds home (navigate table cb e any self count m)
    navigate-Within none e any m at h = otherwise-Within e any m at h
    navigate-Within (some cb) e any m at h = answer-Within (cb self count m.rest).0 e any _ at h
