-- ===== src/Tree/Confined.antt =====
-- Which nodes the simple interface of src/ui_simple.c can lead to.
use zbeam.Base.{
  ℕ, ◌-◌, ◌≡◌, ◌≢◌, refl, ◌∙◌, arith, ◌==◌, ltb, ◌||◌, if◌then◌else◌, true, Bool-cases, inl, inr,
  Option, none, some, List, [], ◌∷◌, All,
}
use zbeam.Env.{Env}
use zbeam.Msg.{MsgType, input_tap, input_hold_start, input_hold_release}
use zbeam.Fsm.{Callback, FsmNode, Machine, slot, max_nav_slots, dispatch_input}
use zbeam.Fsm.Dispatch.{
  first_some, answer, destination, Slots, tap_slots, hold_slots, goal_of, dispatch_input-current,
}
use zbeam.Node.{
  Node, simple_off, simple_on, simple_ramp, simple_moon, simple_turbo, simple_lockout,
  simple_battcheck, simple_reset,
}
use zbeam.Ui.Device.{Device}
use zbeam.Tree.Simple.{
  cb_simple_hold_from_off, cb_simple_hold_ramp_up, cb_simple_hold_ramp_down, cb_simple_ramp_release,
  cb_simple_lockout_momentary, cb_simple_lockout_release, cb_simple_unlock_floor,
}
use zbeam.Tree.Table.{table}

-- The nodes of the simple interface.
pub data IsSimple : Node → Type 0 where
  by_off : IsSimple simple_off
  by_on : IsSimple simple_on
  by_ramp : IsSimple simple_ramp
  by_moon : IsSimple simple_moon
  by_turbo : IsSimple simple_turbo
  by_lockout : IsSimple simple_lockout
  by_battcheck : IsSimple simple_battcheck
  by_reset : IsSimple simple_reset

-- NULL, or a node of the simple interface.
abbrev Leads : Option Node → Type 0
Leads none = Unit
Leads (some n) = IsSimple n

-- A callback that answers so.
abbrev Stays : Callback Node Device → Type 0
Stays cb = (self : Node) (count : ℕ) (d : Device) → Leads (cb self count d).0

abbrev StaysAny : Option (Callback Node Device) → Type 0
StaysAny none = Unit
StaysAny (some cb) = Stays cb

-- Every way out of a node but the hold of ten presses.
record Confined (n : FsmNode Node Device) : Type 0 where
  clicks : All (λ p. IsSimple p.1) n.click_map
  holds : All (λ p. IsSimple p.1) n.hold_map
  click_calls : (i : ℕ) → StaysAny (slot n.click_callbacks i)
  hold_calls : All (λ p. p.0 ≢ 9 → Stays p.1) n.hold_callbacks
  release : StaysAny n.release_callback
  any_click : StaysAny n.any_click_callback
  any_hold : StaysAny n.any_hold_callback

slot-IsSimple : (es : List (ℕ × Node)) (i : ℕ) → All (λ p. IsSimple p.1) es → Leads (slot es i)
slot-IsSimple [] i h = tt
slot-IsSimple ((j, n) ∷ es) i h = elim (Bool-cases (j == i)) [
  | inl e ↦ rw e h.0
  | inr e ↦ rw e (slot-IsSimple es i h.1)
]

not_nine : (j i : ℕ) → (j == i) ≡ true → i ≢ 9 → j ≢ 9
not_nine j i e ne = ground arith

slot-Stays :
    (es : List (ℕ × Callback Node Device)) (i : ℕ)
    → All (λ p. p.0 ≢ 9 → Stays p.1) es
    → i ≢ 9
    → StaysAny (slot es i)
slot-Stays [] i h ne = tt
slot-Stays ((j, cb) ∷ es) i h ne = elim (Bool-cases (j == i)) [
  | inl e ↦ rw e (h.0 (not_nine j i e ne))
  | inr e ↦ rw e (slot-Stays es i h.1 ne)
]

answer-Leads :
    (env : Env) (o : Option (Callback Node Device)) (self : Node) (count : ℕ) (d : Device)
    → StaysAny o
    → Leads (answer (table env) o self count d)
answer-Leads env none self count d h = tt
answer-Leads env (some cb) self count d h = h self count d

first_some-Leads : (a b : Option Node) → Leads a → Leads b → Leads (first_some a b)
first_some-Leads none b p q = q
first_some-Leads (some n) b p q = p

simple_on-IsSimple : Stays cb_simple_ramp_release
unfolding cb_simple_ramp_release
simple_on-IsSimple self count d = by_on

unlock-Stays : Stays cb_simple_unlock_floor
unfolding cb_simple_unlock_floor
unlock-Stays self count d = by_on

-- These callbacks answer NULL.
silent-Stays :
    (env : Env)
    → Stays cb_simple_hold_from_off
      × Stays cb_simple_hold_ramp_up
      × Stays cb_simple_hold_ramp_down
      × Stays cb_simple_lockout_momentary
      × Stays (cb_simple_lockout_release env)
unfolding cb_simple_hold_from_off cb_simple_hold_ramp_up cb_simple_hold_ramp_down
    cb_simple_lockout_momentary cb_simple_lockout_release
silent-Stays env = (
  λ self count d. tt,
  λ self count d. tt,
  λ self count d. tt,
  λ self count d. tt,
  λ self count d. tt,
)

table-Confined : (env : Env) {n : Node} → IsSimple n → Confined (table env n)
unfolding table
table-Confined env by_off =
    let (from_off, _, _, _, _) = silent-Stays env in
    record {
      clicks = (by_on, (by_turbo, (by_battcheck, (by_lockout, tt))));
      holds = (by_ramp, (by_turbo, tt));
      click_calls = λ i. tt;
      hold_calls = ((λ _. from_off), ((λ ne. elim (ne refl) [ ]), tt));
      release = tt;
      any_click = tt;
      any_hold = tt;
    }
table-Confined env by_on =
    let (_, up, down, momentary, dark) = silent-Stays env in
    record {
      clicks = (by_off, (by_turbo, (by_lockout, tt)));
      holds = (by_ramp, (by_ramp, tt));
      click_calls = λ i. tt;
      hold_calls = ((λ _. up), ((λ _. down), tt));
      release = tt;
      any_click = tt;
      any_hold = tt;
    }
table-Confined env by_ramp = record {
  clicks = (by_off, tt);
  holds = tt;
  click_calls = λ i. tt;
  hold_calls = tt;
  release = simple_on-IsSimple;
  any_click = tt;
  any_hold = tt;
}
table-Confined env by_moon =
    let (_, up, down, momentary, dark) = silent-Stays env in
    record {
      clicks = (by_off, tt);
      holds = (by_ramp, tt);
      click_calls = λ i. tt;
      hold_calls = ((λ _. up), tt);
      release = tt;
      any_click = tt;
      any_hold = tt;
    }
table-Confined env by_turbo = record {
  clicks = (by_off, (by_on, tt));
  holds = tt;
  click_calls = λ i. tt;
  hold_calls = tt;
  release = tt;
  any_click = tt;
  any_hold = tt;
}
table-Confined env by_lockout =
    let (_, up, down, momentary, dark) = silent-Stays env in
    record {
      clicks = (by_off, (by_on, (by_turbo, tt)));
      holds = tt;
      click_calls = λ i. tt;
      hold_calls = ((λ _. momentary), ((λ _. unlock-Stays), tt));
      release = dark;
      any_click = tt;
      any_hold = tt;
    }
table-Confined env by_battcheck = record {
  clicks = (by_off, tt);
  holds = tt;
  click_calls = λ i. tt;
  hold_calls = tt;
  release = tt;
  any_click = tt;
  any_hold = tt;
}
table-Confined env by_reset = record {
  clicks = tt;
  holds = tt;
  click_calls = λ i. tt;
  hold_calls = tt;
  release = tt;
  any_click = tt;
  any_hold = tt;
}

not_last : (count : ℕ) → count ≢ 10 → count - 1 ≢ 9
not_last count ne = ground arith

module _ (env : Env) (self : Node) (c : Confined (table env self)) (count : ℕ) (d : Device) where
  destination-Leads :
      (k : Slots (table env))
      → StaysAny k.callback
      → Leads k.entry
      → StaysAny k.generic
      → Leads (destination (table env) k self count d)
  destination-Leads k p q r =
      first_some-Leads _ _ (answer-Leads env k.callback self count d p)
        (first_some-Leads _ _ q (answer-Leads env k.generic self count _ r))

  in_range :
      (o : Option Node)
      → Leads o
      → Leads (if ltb count 1 || ltb max_nav_slots count then none else o)
  in_range o h = elim (Bool-cases (ltb count 1 || ltb max_nav_slots count)) [
    | inl bad ↦ rw bad tt
    | inr good ↦ rw good h
  ]

  goal_of-Leads :
      (type : MsgType)
      → (type ≡ input_hold_start → count ≢ 10)
      → Leads (goal_of (table env) type self count d)
  goal_of-Leads input_hold_release h = answer-Leads env _ self 0 d c.release
  goal_of-Leads input_tap h = in_range _ (
      destination-Leads (tap_slots (table env) self count) (c.click_calls (count - 1))
        (slot-IsSimple _ (count - 1) c.clicks) c.any_click)
  goal_of-Leads input_hold_start h = in_range _ (
      destination-Leads (hold_slots (table env) self count)
        (slot-Stays _ (count - 1) c.hold_calls (not_last count (h refl)))
        (slot-IsSimple _ (count - 1) c.holds) c.any_hold)
  goal_of-Leads _ h = tt

lands :
    (o : Option Node) {self : Node}
    → IsSimple self
    → Leads o
    → (n : Node) × (first_some o (some self) ≡ some n) × IsSimple n
lands none {self} s h = (self, refl, s)
lands (some n) s h = (n, refl, h)

-- In a node of the simple interface, after `dispatch_input` of anything but a hold of ten presses, the
-- current node is one of the simple interface.
pub dispatch_input-IsSimple :
    (env : Env) (type : MsgType) (count : ℕ) (self : Node) (m : Machine Node Device)
    → IsSimple self
    → m.fsm.current_node ≡ some self
    → (type ≡ input_hold_start → count ≢ 10)
    → (n : Node) × ((dispatch_input (table env) type count m).fsm.current_node ≡ some n)
      × IsSimple n
dispatch_input-IsSimple env type count self m simple here few =
    let there = dispatch_input-current (table env) type count self m here in
    let (n, e, s) =
      lands _ simple (goal_of-Leads env self (table-Confined env simple) count m.rest type few) in
    (n, there ∙ e, s)
