-- ===== src/Fsm.antt =====
-- lib/fsm_engine.c and include/fsm_engine.h: the engine that walks a graph of nodes.
-- `N` stands for the addresses of the nodes, `table` for what is stored there, and `S` for the
-- globals of the rest of the program, which action routines and callbacks may change.
pub mod Armed
pub mod Dispatch
pub mod Timeout
pub mod Within
use zbeam.Base.{
  ℕ, ◌-◌, Bool, true, false, ◌&&◌, ◌||◌, Option, none, some, List, [], ◌∷◌, ltb, ◌==◌,
  if◌then◌else◌, ◌|>◌,
}
use zbeam.Kernel.{Timer, stopped, started}
use zbeam.Msg.{
  MsgType, input_tap, input_hold_start, input_hold_release, timeout_inactivity, timeout_ramp_tick,
  ZbeamMsg,
}

-- `MAX_NAV_SLOTS`. The node tables have entries at index 9, so no smaller value compiles, and
-- Kconfig allows no larger one.
abbrev pub max_nav_slots : ℕ
max_nav_slots = 10

-- `fsm_callback_t`: gets the node and the count, and returns NULL or a node to go to.
abbrev pub Callback : Type 0 → Type 0 → Type 0
Callback N S = N → ℕ → S → Option N × S

-- The designated initialisers `{ [i] = a, ... }` of an array; entries that are not given are NULL.
abbrev pub slot {ℓ} : {A : Type ℓ} → List (ℕ × A) → ℕ → Option A
slot [] i = none
slot ((j, a) ∷ rest) i = if j == i then some a else slot rest i

-- `struct fsm_node`, without its name, which is only logged.
pub record FsmNode (N S : Type 0) : Type 0 where
  pub id : ℕ
  pub action_routine : Option (S → S)
  pub click_map : List (ℕ × N)
  pub hold_map : List (ℕ × N)
  pub click_callbacks : List (ℕ × Callback N S)
  pub hold_callbacks : List (ℕ × Callback N S)
  pub release_callback : Option (Callback N S)
  pub any_click_callback : Option (Callback N S)
  pub any_hold_callback : Option (Callback N S)
  pub timeout_ms : ℕ
  pub timeout_reverts : Bool
  pub timeout_node : Option N

-- A node that is all zero bytes.
abbrev pub zero_node : (N S : Type 0) → FsmNode N S
zero_node N S = record {
  id = 0;
  action_routine = none;
  click_map = [];
  hold_map = [];
  click_callbacks = [];
  hold_callbacks = [];
  release_callback = none;
  any_click_callback = none;
  any_hold_callback = none;
  timeout_ms = 0;
  timeout_reverts = false;
  timeout_node = none;
}

-- The static variables of fsm_engine.c.
pub record Fsm (N : Type 0) : Type 0 where
  pub current_node : Option N
  pub home_node : Option N
  pub previous_node : Option N
  pub inactivity_timer : Timer
  pub emergency_shutdown_active : Bool

-- Their values before `fsm_init`.
abbrev pub fsm_unset : (N : Type 0) → Fsm N
fsm_unset N = record {
  current_node = none;
  home_node = none;
  previous_node = none;
  inactivity_timer = stopped;
  emergency_shutdown_active = false;
}

pub record Machine (N S : Type 0) : Type 0 where
  pub fsm : Fsm N
  pub rest : S

module _ {N S : Type 0} (table : N → FsmNode N S) where
  abbrev pub on_fsm : (Fsm N → Fsm N) → Machine N S → Machine N S
  on_fsm f m = record m { fsm = f m.fsm }

  -- `if (current_node->timeout_ms > 0) k_timer_start(&inactivity_timer, ...)`
  abbrev pub arm : ℕ → Machine N S → Machine N S
  arm ms m = if ltb 0 ms then on_fsm (λ f. record f { inactivity_timer = started ms 0 }) m else m

  abbrev pub reset_node : Option N → Machine N S → Machine N S
  reset_node none m = m
  reset_node (some n) m = arm (table n).timeout_ms m

  unfoldable pub reset_inactivity_timer : Machine N S → Machine N S
  reset_inactivity_timer m = reset_node m.fsm.current_node m

  abbrev pub run_action : Option (S → S) → Machine N S → Machine N S
  run_action none m = m
  run_action (some act) m = record m { rest = act m.rest }

  unfoldable pub fsm_transition_to : Option N → Machine N S → Machine N S
  fsm_transition_to none m = m
  fsm_transition_to (some next) m =
      m
      |> on_fsm (λ f. record f { inactivity_timer = stopped })
      |> on_fsm (λ f. record f {
        previous_node = if (table next).timeout_reverts then f.previous_node else f.current_node;
      })
      |> on_fsm (λ f. record f { current_node = some next })
      |> run_action (table next).action_routine
      |> arm (table next).timeout_ms

  -- The node that a timeout leads to.
  unfoldable pub timeout_target : Option N → Fsm N → Option N
  timeout_target none f = f.home_node
  timeout_target (some n) f = elim (table n).timeout_node [
    | some t ↦ some t
    | none ↦ elim f.previous_node [
      | some p ↦ if (table n).timeout_reverts then some p else f.home_node
      | none ↦ f.home_node
    ]
  ]

  -- The timer runs once, so its expiry leaves it stopped. The kernel runs this in an interrupt: the
  -- calls of a routine that end the program there are in System.Quiet.
  unfoldable pub inactivity_timer_handler : Machine N S → Machine N S
  unfolding timeout_target fsm_transition_to
  inactivity_timer_handler m =
      fsm_transition_to (timeout_target m.fsm.current_node m.fsm)
        (on_fsm (λ f. record f { inactivity_timer = stopped }) m)

  unfoldable pub fsm_init : Option N → Machine N S → Machine N S
  unfolding fsm_transition_to
  fsm_init start m =
      m
      |> on_fsm (λ f. record f { home_node = start })
      |> on_fsm (λ f. record f { inactivity_timer = stopped })
      |> fsm_transition_to start

  unfoldable pub fsm_get_current_node : Machine N S → Option N
  fsm_get_current_node m = m.fsm.current_node

  -- A callback, if there is one. Without one nothing happens and no node is named.
  abbrev pub call : Option (Callback N S) → N → ℕ → Machine N S → Option N × Machine N S
  call none self count m = (none, m)
  call (some cb) self count m =
      let (next, rest) = cb self count m.rest in (next, record m { rest = rest })

  -- `if (next) { fsm_transition_to(next); return; }`, and what follows it.
  abbrev pub go_or : Option N × Machine N S → (Machine N S → Machine N S) → Machine N S
  go_or (some next, m) otherwise = fsm_transition_to (some next) m
  go_or (none, m) otherwise = otherwise m

  -- One branch of `dispatch_input`: the slot's callback, then its map entry, then the generic
  -- callback.
  abbrev pub navigate :
      Option (Callback N S) → Option N → Option (Callback N S) → N → ℕ → Machine N S → Machine N S
  navigate cb entry any self count m =
      go_or (call cb self count m)
        λ m1. go_or (entry, m1) λ m2. go_or (call any self count m2) λ m3. m3

  dispatch_type : MsgType → N → ℕ → Machine N S → Machine N S
  unfolding fsm_transition_to
  dispatch_type input_hold_release self count m =
      go_or (call (table self).release_callback self 0 m) (λ m1. m1)
  dispatch_type input_tap self count m =
      if ltb count 1 || ltb max_nav_slots count
      then m
      else navigate (slot (table self).click_callbacks (count - 1))
          (slot (table self).click_map (count - 1)) (table self).any_click_callback self count m
  dispatch_type input_hold_start self count m =
      if ltb count 1 || ltb max_nav_slots count
      then m
      else navigate (slot (table self).hold_callbacks (count - 1))
          (slot (table self).hold_map (count - 1)) (table self).any_hold_callback self count m
  dispatch_type _ self count m = m

  abbrev dispatch_from : MsgType → ℕ → Option N → Machine N S → Machine N S
  dispatch_from type count none m = m
  dispatch_from type count (some self) m = dispatch_type type self count (reset_inactivity_timer m)

  unfoldable pub dispatch_input : MsgType → ℕ → Machine N S → Machine N S
  unfolding dispatch_type reset_inactivity_timer
  dispatch_input type count m = dispatch_from type count m.fsm.current_node m

  unfoldable pub fsm_process_msg : ZbeamMsg → Machine N S → Machine N S
  unfolding dispatch_input
  fsm_process_msg msg m = dispatch_input msg.type msg.count m

  process_timer_type : MsgType → Machine N S → Machine N S
  unfolding timeout_target fsm_transition_to
  process_timer_type timeout_inactivity m =
      fsm_transition_to (timeout_target m.fsm.current_node m.fsm) m
  process_timer_type _ m = m

  unfoldable pub fsm_process_timer : ZbeamMsg → Machine N S → Machine N S
  unfolding process_timer_type
  fsm_process_timer msg m = process_timer_type msg.type m

  -- `none` is the fault of `current_node->action_routine` at a NULL home node.
  enter_home : Option N → Machine N S → Option (Machine N S)
  enter_home none m = none
  enter_home (some home) m = some (run_action (table home).action_routine m)

  unfoldable pub fsm_emergency_off : Machine N S → Option (Machine N S)
  unfolding enter_home
  fsm_emergency_off m =
      m
      |> on_fsm (λ f. record f { emergency_shutdown_active = true })
      |> on_fsm (λ f. record f { inactivity_timer = stopped })
      |> on_fsm (λ f. record f { current_node = f.home_node })
      |> enter_home m.fsm.home_node
