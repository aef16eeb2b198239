-- ===== src/System/Home.antt =====
-- Where the engine returns to after the interface is switched: src/ui_actions.c changes its mode and
-- src/lib/fsm_engine.c keeps the home node of `fsm_init`.
use zbeam.Base.{◌≡◌, refl, sym, ap, ◌∙◌, subst, arith, none, some, List, [], ◌∷◌}
use zbeam.Env.{Env}
use zbeam.Kernel.{stopped, started}
use zbeam.Msg.{ZbeamMsg, input_tap, input_hold_start}
use zbeam.Fsm.{
  FsmNode, Machine, dispatch_input, fsm_process_msg, fsm_transition_to, reset_inactivity_timer,
  inactivity_timer_handler, timeout_target,
}
use zbeam.Node.{Node, simple_battcheck, adv_battcheck}
use zbeam.Worker.{handle_msg}
use zbeam.Thermal.{Gains}
use zbeam.Ui.Device.{Device, UiMode, ui_simple, ui_advanced}
use zbeam.Ui.Actions.{action_off, action_battcheck, ui_toggle_mode}
use zbeam.Tree.Simple
use zbeam.Tree.Advanced
use zbeam.Tree.Table.{table}
use zbeam.Tree.Modes.{Fits, IsOff, by_simple, by_advanced, off-Enters}
use zbeam.Tree.TableMoves.{table-Moves}
use zbeam.System.{System, Board, boot}
use zbeam.Ui.Timers.{batt-mode, off-mode}
use zbeam.Ui.Init.{ui_init}
use zbeam.System.Taps.{off_node}
use zbeam.System.Tapped.{off_node-start}
use zbeam.System.Events.{Event, taken, inactivity_expiry, on_event}
use zbeam.System.Live.{live_events}
use zbeam.System.Modes.{lamp-In}
use zbeam.Fsm.Within.{target}
use zbeam.Fsm.Within.Steps.{timeout-target}

abbrev pub ten_hold : ZbeamMsg
ten_hold = record { type = input_hold_start; count = 10; severity = 0 }

abbrev pub three_taps : ZbeamMsg
three_taps = record { type = input_tap; count = 3; severity = 0 }

abbrev pub other : UiMode → UiMode
other ui_simple = ui_advanced
other ui_advanced = ui_simple

abbrev check_node : UiMode → Node
check_node ui_simple = simple_battcheck
check_node ui_advanced = adv_battcheck

record Switched (env : Env) (u : UiMode) (m m' : Machine Node Device) : Type 0 where
  current : m'.fsm.current_node ≡ some (off_node (other u))
  home : m'.fsm.home_node ≡ m.fsm.home_node
  rest : m'.rest ≡ action_off env (ui_toggle_mode m.rest).1

switch :
    (u : UiMode) (env : Env) (m : Machine Node Device)
    → m.fsm.current_node ≡ some (off_node u)
    → m.rest.ui.current_ui_mode ≡ u
    → (m' : Machine Node Device) × (handle_msg (table env) ten_hold m ≡ some m')
      × Switched env u m m'
unfolding handle_msg fsm_process_msg dispatch_input table fsm_transition_to reset_inactivity_timer
    Simple.cb_10h_toggle Advanced.cb_10h_toggle ui_toggle_mode
switch ui_simple env m here mode =
    rw (here, mode) (_, refl, record { current = refl; home = refl; rest = refl })
switch ui_advanced env m here mode =
    rw (here, mode) (_, refl, record { current = refl; home = refl; rest = refl })

checks :
    (u : UiMode) (env : Env) (m : Machine Node Device)
    → m.fsm.current_node ≡ some (off_node u)
    → (m' : Machine Node Device) × (handle_msg (table env) three_taps m ≡ some m')
      × (m'.fsm.current_node ≡ some (check_node u))
      × (m'.fsm.inactivity_timer ≡ started 4000 0)
      × (m'.fsm.home_node ≡ m.fsm.home_node)
      × (m'.rest ≡ action_battcheck env m.rest)
unfolding handle_msg fsm_process_msg dispatch_input table fsm_transition_to reset_inactivity_timer
checks ui_simple env m here = rw here (_, refl, refl, refl, refl, refl)
checks ui_advanced env m here = rw here (_, refl, refl, refl, refl, refl)

module _ {N S : Type 0} (table : N → FsmNode N S) where
  transition-rest :
      (n : N) (act : S → S) (m : Machine N S)
      → (table n).action_routine ≡ some act
      → let m' = fsm_transition_to table (some n) m in
        (m'.fsm.current_node ≡ some n) × (m'.rest ≡ act m.rest)
  unfolding fsm_transition_to
  transition-rest n act m h = rw h (ground arith)

toggled-mode :
    (u : UiMode) (d : Device)
    → d.ui.current_ui_mode ≡ u
    → (ui_toggle_mode d).1.ui.current_ui_mode ≡ other u
unfolding ui_toggle_mode
toggled-mode ui_simple d e = rw e refl
toggled-mode ui_advanced d e = rw e refl

check-untimed : (env : Env) (u : UiMode) → (table env (check_node u)).timeout_node ≡ none
unfolding table
check-untimed env ui_simple = refl
check-untimed env ui_advanced = refl

pub off_node-IsOff : (u : UiMode) → IsOff (off_node u)
off_node-IsOff ui_simple = by_simple
off_node-IsOff ui_advanced = by_advanced

off_node-routine :
    (env : Env) (u : UiMode) → (table env (off_node u)).action_routine ≡ some (action_off env)
unfolding table
off_node-routine env ui_simple = refl
off_node-routine env ui_advanced = refl

-- A battery check that times out goes home.
expire :
    (u home : UiMode) (env : Env) (m : Machine Node Device)
    → m.fsm.current_node ≡ some (check_node u)
    → m.fsm.home_node ≡ some (off_node home)
    → let m' = inactivity_timer_handler (table env) m in
      (m'.fsm.current_node ≡ some (off_node home)) × (m'.rest ≡ action_off env m.rest)
unfolding inactivity_timer_handler
expire u home env m here at =
    let is_off = off_node-IsOff home in
    let moves = table-Moves env (off_node home) is_off in
    let goal =
      timeout-target (table env) Fits moves (off-Enters env (off_node home) is_off) (check_node u)
        m.fsm (moves (check_node u)).reverts at in
    let led : timeout_target (table env) m.fsm.current_node m.fsm ≡ some (off_node home) =
      ap (λ o. timeout_target (table env) o m.fsm) here
      ∙ goal
      ∙ ap (λ o. some (target (table env) Fits o (off_node home))) (check-untimed env u) in
    subst
      (λ o.
        let m' =
          fsm_transition_to (table env) o
            (record m { fsm = record (m.fsm) { inactivity_timer = stopped } }) in
        (m'.fsm.current_node ≡ some (off_node home)) × (m'.rest ≡ action_off env m.rest))
      (sym led)
      (transition-rest (table env) (off_node home) (action_off env)
        (record m { fsm = record (m.fsm) { inactivity_timer = stopped } })
        (off_node-routine env home))

abbrev pub battery_check : (first second third : Env) → List (Env × Event)
battery_check first second third =
    (first, taken ten_hold) ∷ (second, taken three_taps) ∷ (third, inactivity_expiry) ∷ []

module _ (gains : Gains) (first second third : Env) where
  check_expires :
      (u : UiMode) (m : Machine Node Device)
      → m.fsm.current_node ≡ some (off_node u)
      → m.fsm.home_node ≡ some (off_node u)
      → m.rest.ui.current_ui_mode ≡ u
      → (m' : Machine Node Device) × (live_events gains (battery_check first second third) m
          ≡ some m')
        × (m'.fsm.current_node ≡ some (off_node u))
        × (m'.rest.ui.current_ui_mode ≡ other u)
  unfolding live_events on_event
  check_expires u m here at mode =
      let (m1, e1, s) = switch u first m here mode in
      let (m2, e2, there, timer, home, rest) = checks (other u) second m1 s.current in
      let (back, rest') = expire (other u) u third m2 there (home ∙ s.home ∙ at) in
      (
        inactivity_timer_handler (table third) m2,
        rw (live_events, e1) (rw (live_events, e2) (rw (live_events, timer) refl)),
        back,
        ap (λ d. d.ui.current_ui_mode) rest'
            ∙ off-mode third m2.rest
            ∙ ap (λ d. d.ui.current_ui_mode) rest
            ∙ batt-mode second m1.rest
            ∙ ap (λ d. d.ui.current_ui_mode) s.rest
            ∙ off-mode first (ui_toggle_mode m.rest).1
            ∙ toggled-mode u m.rest mode,
      )

-- After `main` and any events that have led to the start node, with the interface's mode as `main`
-- chose it, a hold of ten presses and three taps switch to the other interface and into its battery
-- check, from which the timeout leads to the start node of the first interface, while the mode is that
-- of the other one.
pub check-reverts :
    (gains : Gains) (b : Board) (env : Env) (s : System) (es : List (Env × Event))
    (first second third : Env) (m : Machine Node Device)
    → let u = (ui_init b.default_mode env s.lamp.rest).ui.current_ui_mode in
      live_events gains es (boot b env s).lamp ≡ some m
      → m.fsm.current_node ≡ some (off_node u)
      → m.rest.ui.current_ui_mode ≡ u
      → (m' : Machine Node Device) × (live_events gains (battery_check first second third) m
          ≡ some m')
        × (m'.fsm.current_node ≡ some (off_node u))
        × (m'.rest.ui.current_ui_mode ≡ other u)
check-reverts gains b env s es first second third m e here mode =
    let before = ui_init b.default_mode env s.lamp.rest in
    let (m0, e0, w) = lamp-In gains b env s es in
    let same : m0 ≡ m = cc in
    check_expires gains first second third before.ui.current_ui_mode m here
      (ap (λ k. k.fsm.home_node) (sym same)
        ∙ w.home_lem
        ∙ ap (λ n. some n) (sym (off_node-start before)))
      mode
