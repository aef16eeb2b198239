-- ===== src/Tree/Inside.antt =====
-- The simple interface of src/ui_simple.c under the worker of lib/fsm_worker.c and the inactivity timer.
use zbeam.Base.{ℕ, ◌≡◌, ◌≢◌, refl, ap, ◌∙◌, Option, none, some}
use zbeam.Env.{Env}
use zbeam.Msg.{
  MsgType, ZbeamMsg, input_tap, input_hold_start, input_hold_release, timeout_inactivity,
  timeout_ramp_tick, safety_shutdown, safety_thermal_warn, system_shutdown,
}
use zbeam.Kernel.{stopped}
use zbeam.Fsm.{
  Fsm, Machine, run_action, timeout_target, inactivity_timer_handler, dispatch_input,
  fsm_process_msg, fsm_process_timer, fsm_emergency_off,
}
use zbeam.Fsm.Dispatch.{transition-current}
use zbeam.Worker.{handle_msg}
use zbeam.Node.{Node}
use zbeam.Ui.Device.{Device}
use zbeam.Tree.Table.{table}
use zbeam.Tree.Confined.{
  IsSimple, by_off, by_on, by_ramp, by_moon, by_turbo, by_lockout, by_battcheck, by_reset,
  dispatch_input-IsSimple,
}

-- The current node is one of the simple interface.
abbrev pub AtSimple : Machine Node Device → Type 0
AtSimple m = (n : Node) × (m.fsm.current_node ≡ some n) × IsSimple n

action-fsm :
    (env : Env) (o : Option (Device → Device)) (m : Machine Node Device)
    → (run_action (table env) o m).fsm ≡ m.fsm
action-fsm env none m = refl
action-fsm env (some act) m = refl

to_last : (p home : Option Node) → elim p [ some _ ↦ home | none ↦ home ] ≡ home
to_last none home = refl
to_last (some n) home = refl

-- No node of the simple interface names another for its timeout.
timeout-home :
    (env : Env) (f : Fsm Node) (self : Node)
    → IsSimple self
    → timeout_target (table env) (some self) f ≡ f.home_node
unfolding timeout_target table
timeout-home env f _ by_off = to_last f.previous_node f.home_node
timeout-home env f _ by_on = to_last f.previous_node f.home_node
timeout-home env f _ by_ramp = to_last f.previous_node f.home_node
timeout-home env f _ by_moon = to_last f.previous_node f.home_node
timeout-home env f _ by_turbo = to_last f.previous_node f.home_node
timeout-home env f _ by_lockout = to_last f.previous_node f.home_node
timeout-home env f _ by_battcheck = to_last f.previous_node f.home_node
timeout-home env f _ by_reset = to_last f.previous_node f.home_node

module _ (env : Env) (home self : Node) (at_home : IsSimple home) (simple : IsSimple self)
    (m : Machine Node Device) (here : m.fsm.current_node ≡ some self)
    (back : m.fsm.home_node ≡ some home) where
  to_home : timeout_target (table env) m.fsm.current_node m.fsm ≡ some home
  to_home =
      ap (λ o. timeout_target (table env) o m.fsm) here ∙ timeout-home env m.fsm self simple ∙ back

  handler-AtSimple : AtSimple (inactivity_timer_handler (table env) m)
  unfolding inactivity_timer_handler
  handler-AtSimple = rw to_home (
    home,
    transition-current (table env) home
        (record m { fsm = record (m.fsm) { inactivity_timer = stopped } }),
    at_home,
  )

  -- What the worker leaves of a message.
  abbrev Handled : ZbeamMsg → Type 0
  Handled msg = (m' : Machine Node Device) × (handle_msg (table env) msg m ≡ some m') × AtSimple m'

  home-Handled :
      (count severity : ℕ)
      → Handled (record { type = safety_shutdown; count = count; severity = severity })
  unfolding handle_msg fsm_emergency_off
  home-Handled count severity =
      rw back (_, refl, (home, ap (λ f. f.current_node) (action-fsm env _ _), at_home))

  halt-Handled :
      (count severity : ℕ)
      → Handled (record { type = system_shutdown; count = count; severity = severity })
  unfolding handle_msg fsm_emergency_off
  halt-Handled count severity =
      rw back (_, refl, (home, ap (λ f. f.current_node) (action-fsm env _ _), at_home))

  late-Handled :
      (count severity : ℕ)
      → Handled (record { type = timeout_inactivity; count = count; severity = severity })
  unfolding handle_msg fsm_process_timer
  late-Handled count severity =
      rw to_home (_, refl, (home, transition-current (table env) home m, at_home))

  input-AtSimple :
      (type : MsgType) (count : ℕ)
      → (type ≡ input_hold_start → count ≢ 10)
      → AtSimple (dispatch_input (table env) type count m)
  input-AtSimple type count few = dispatch_input-IsSimple env type count self m simple here few

  type-Handled :
      (type : MsgType) (count severity : ℕ)
      → (type ≡ input_hold_start → count ≢ 10)
      → Handled (record { type = type; count = count; severity = severity })
  unfolding handle_msg fsm_process_msg fsm_process_timer
  type-Handled safety_shutdown count severity few = home-Handled count severity
  type-Handled system_shutdown count severity few = halt-Handled count severity
  type-Handled timeout_inactivity count severity few = late-Handled count severity
  type-Handled safety_thermal_warn count severity few = (m, refl, (self, here, simple))
  type-Handled timeout_ramp_tick count severity few = (m, refl, (self, here, simple))
  type-Handled input_tap count severity few = (_, refl, input-AtSimple input_tap count few)
  type-Handled input_hold_start count severity few =
      (_, refl, input-AtSimple input_hold_start count few)
  type-Handled input_hold_release count severity few =
      (_, refl, input-AtSimple input_hold_release count few)

-- In a node of the simple interface, with a home node of the simple interface: after the worker has
-- handled any message but a hold of ten presses, shutdowns, timeouts and warnings included, without a
-- fault, the current node is one of the simple interface; and so it is after the handler of the
-- inactivity timer.
pub simple-AtSimple :
    (env : Env) (home self : Node) (m : Machine Node Device) (msg : ZbeamMsg)
    → IsSimple home
    → IsSimple self
    → m.fsm.home_node ≡ some home
    → m.fsm.current_node ≡ some self
    → (msg.type ≡ input_hold_start → msg.count ≢ 10)
    → ((m' : Machine Node Device) × (handle_msg (table env) msg m ≡ some m') × AtSimple m')
      × AtSimple (inactivity_timer_handler (table env) m)
simple-AtSimple env home self m msg at_home simple back here few = (
  type-Handled env home self at_home simple m here back msg.type msg.count msg.severity few,
  handler-AtSimple env home self at_home simple m here back,
)
