-- ===== src/Fsm/Dispatch.antt =====
-- Where an input message leads in `dispatch_input` of lib/fsm_engine.c.
use zbeam.Base.{
  ℕ, ◌-◌, ◌≡◌, refl, sym, ap, subst, ◌∙◌, Option, none, some, arith, Bool-cases, inl, inr, ltb,
  ◌||◌, if◌then◌else◌,
}
use zbeam.Msg.{MsgType, input_tap, input_hold_start, input_hold_release}
use zbeam.Fsm.{
  Callback, slot, FsmNode, Machine, max_nav_slots, call, go_or, navigate, fsm_transition_to,
  reset_node, dispatch_type, dispatch_from, reset_inactivity_timer, dispatch_input,
}

-- The first that is not NULL.
abbrev pub first_some {ℓ} : {A : Type ℓ} → Option A → Option A → Option A
first_some (some a) b = some a
first_some none b = b

module _ {N S : Type 0} (table : N → FsmNode N S) where
  -- The callbacks for one count, and the map entry.
  pub record Slots : Type 0 where
    pub callback : Option (Callback N S)
    pub entry : Option N
    pub generic : Option (Callback N S)

  abbrev pub tap_slots : N → ℕ → Slots
  tap_slots self count = record {
    callback = slot (table self).click_callbacks (count - 1);
    entry = slot (table self).click_map (count - 1);
    generic = (table self).any_click_callback;
  }

  abbrev pub hold_slots : N → ℕ → Slots
  hold_slots self count = record {
    callback = slot (table self).hold_callbacks (count - 1);
    entry = slot (table self).hold_map (count - 1);
    generic = (table self).any_hold_callback;
  }

  -- What a callback answers, and what it leaves of the program's state.
  abbrev pub answer : Option (Callback N S) → N → ℕ → S → Option N
  answer none self count s = none
  answer (some cb) self count s = (cb self count s).0

  abbrev pub effect : Option (Callback N S) → N → ℕ → S → S
  effect none self count s = s
  effect (some cb) self count s = (cb self count s).1

  -- The node that an input leads to, if any: the callback's answer, else the map's entry, else the
  -- generic callback's answer in the state that the first callback left.
  abbrev pub destination : Slots → N → ℕ → S → Option N
  destination k self count s =
      first_some (answer k.callback self count s)
        (first_some k.entry (answer k.generic self count (effect k.callback self count s)))

  pub transition-current :
      (n : N) (m : Machine N S) → (fsm_transition_to table (some n) m).fsm.current_node ≡ some n
  unfolding fsm_transition_to
  transition-current n m = ground arith

  transition-home :
      (n : Option N) (m : Machine N S)
      → ((fsm_transition_to table n m).fsm.home_node ≡ m.fsm.home_node)
        × ((fsm_transition_to table n m).fsm.emergency_shutdown_active
            ≡ m.fsm.emergency_shutdown_active)
  unfolding fsm_transition_to
  transition-home none m = (refl, refl)
  transition-home (some n) m = ground arith

  go_or-current :
      (o d : Option N) (m : Machine N S) (f : Machine N S → Machine N S)
      → (f m).fsm.current_node ≡ first_some d m.fsm.current_node
      → (go_or table (o, m) f).fsm.current_node ≡ first_some (first_some o d) m.fsm.current_node
  go_or-current none d m f h = h
  go_or-current (some n) d m f h = transition-current n m

  go_or-last :
      (o : Option N) (m : Machine N S)
      → (go_or table (o, m) (λ m1. m1)).fsm.current_node ≡ first_some o m.fsm.current_node
  go_or-last none m = refl
  go_or-last (some n) m = transition-current n m

  navigate-current :
      (cb : Option (Callback N S)) (e : Option N) (any : Option (Callback N S)) (self : N)
      (count : ℕ) (m : Machine N S)
      → (navigate table cb e any self count m).fsm.current_node
        ≡ first_some
            (destination (record { callback = cb; entry = e; generic = any }) self count m.rest)
            m.fsm.current_node
  navigate-current none e none self count m = go_or-current e none m _ refl
  navigate-current none e (some any) self count m =
      go_or-current e _ m _ (go_or-last (any self count m.rest).0 _)
  navigate-current (some cb) e none self count m =
      go_or-current (cb self count m.rest).0 _ _ _ (go_or-current e none _ _ refl)
  navigate-current (some cb) e (some any) self count m =
      go_or-current (cb self count m.rest).0 _ (record m { rest = (cb self count m.rest).1 }) _
        (go_or-current e _ _ _ (go_or-last (any self count (cb self count m.rest).1).0 _))

  release-current :
      (cb : Option (Callback N S)) (self : N) (m : Machine N S)
      → (go_or table (call table cb self 0 m) (λ m1. m1)).fsm.current_node
        ≡ first_some (answer cb self 0 m.rest) m.fsm.current_node
  release-current none self m = refl
  release-current (some cb) self m = go_or-last (cb self 0 m.rest).0 _

  -- The node that a message leads to from `self`, if any. A count outside 1 to 10 leads nowhere.
  abbrev pub goal_of : MsgType → N → ℕ → S → Option N
  goal_of input_hold_release self count s = answer (table self).release_callback self 0 s
  goal_of input_tap self count s =
      if ltb count 1 || ltb max_nav_slots count
      then none
      else destination (tap_slots self count) self count s
  goal_of input_hold_start self count s =
      if ltb count 1 || ltb max_nav_slots count
      then none
      else destination (hold_slots self count) self count s
  goal_of _ self count s = none

  reset_node-same :
      (n : Option N) (m : Machine N S)
      → ((reset_node table n m).fsm.current_node ≡ m.fsm.current_node)
        × ((reset_node table n m).rest ≡ m.rest)
  reset_node-same none m = (refl, refl)
  reset_node-same (some n) m = ground arith

  reset-same :
      (m : Machine N S)
      → ((reset_inactivity_timer table m).fsm.current_node ≡ m.fsm.current_node)
        × ((reset_inactivity_timer table m).rest ≡ m.rest)
  unfolding reset_inactivity_timer
  reset-same m = reset_node-same m.fsm.current_node m

  dispatch_type-current :
      (type : MsgType) (self : N) (count : ℕ) (m : Machine N S)
      → (dispatch_type table type self count m).fsm.current_node
        ≡ first_some (goal_of type self count m.rest) m.fsm.current_node
  unfolding dispatch_type
  dispatch_type-current input_hold_release self count m =
      release-current (table self).release_callback self m
  dispatch_type-current input_tap self count m =
      elim (Bool-cases (ltb count 1 || ltb max_nav_slots count)) [
        | inl bad ↦ rw bad
        | inr good ↦ rw good (
            navigate-current (slot (table self).click_callbacks (count - 1))
              (slot (table self).click_map (count - 1)) (table self).any_click_callback self count
              m)
      ]
  dispatch_type-current input_hold_start self count m =
      elim (Bool-cases (ltb count 1 || ltb max_nav_slots count)) [
        | inl bad ↦ rw bad
        | inr good ↦ rw good (
            navigate-current (slot (table self).hold_callbacks (count - 1))
              (slot (table self).hold_map (count - 1)) (table self).any_hold_callback self count m)
      ]
  dispatch_type-current _ self count m = refl

  reset-current :
      (type : MsgType) (self : N) (count : ℕ) (m : Machine N S)
      → m.fsm.current_node ≡ some self
      → (dispatch_type table type self count (reset_inactivity_timer table m)).fsm.current_node
        ≡ first_some (goal_of type self count m.rest) (some self)
  reset-current type self count m h = cc (
    dispatch_type-current type self count (reset_inactivity_timer table m),
    ap (first_some (goal_of type self count m.rest)) ((reset-same m).0 ∙ h),
    ap (λ g. first_some g (reset_inactivity_timer table m).fsm.current_node)
        (ap (goal_of type self count) (reset-same m).1),
  )

  -- With a current node, the node after a message is: for a release the release callback's
  -- answer; for a tap or a hold of 1 to 10 counts the first that is not NULL of the slot's
  -- callback's answer, the map's entry and the generic callback's answer; and the same node
  -- where these are NULL and in every other case.
  pub dispatch_input-current :
      (type : MsgType) (count : ℕ) (self : N) (m : Machine N S)
      → m.fsm.current_node ≡ some self
      → (dispatch_input table type count m).fsm.current_node
        ≡ first_some (goal_of type self count m.rest) (some self)
  unfolding dispatch_input
  dispatch_input-current type count self m h =
      subst
        (λ o.
          (dispatch_from table type count o m).fsm.current_node
          ≡ first_some (goal_of type self count m.rest) (some self))
        (sym h) (reset-current type self count m h)
