-- ===== src/System/Boot.antt =====
-- The state that `main` of src/main.c leaves.
use zbeam.Base.{◌≡◌, ◌≢◌, refl, inl, inr, ◌∙◌, sym, ap, subst, arith, true, some, All}
use zbeam.Env.{Env}
use zbeam.Kernel.{stopped}
use zbeam.Fsm.{FsmNode, Machine, fsm_init, fsm_transition_to}
use zbeam.Channel.{Channel, auto_tint, channel_init}
use zbeam.Ui.Device.{Device, UiMode, pulses}
use zbeam.Ui.Init.{ui_init}
use zbeam.Ui.Actions.{action_off, get_start_node}
use zbeam.Ui.Dark.{action_off-dark}
use zbeam.Ui.Timers.{mode_cases}
use zbeam.Tree.Table.{table}
use zbeam.System.{System, Board, boot}

-- The start node of both interfaces turns the lamp off, and has no timeout.
pub start-action :
    (env : Env) (d : Device)
    → let n = table env (get_start_node d) in
      (n.action_routine ≡ some (action_off env)) × (n.timeout_ms ≡ 0)
unfolding table get_start_node
start-action env d = elim (mode_cases d.ui.current_ui_mode) [
  | inl e ↦ rw e (refl, refl)
  | inr e ↦ rw e (refl, refl)
]

module _ {N S : Type 0} (table : N → FsmNode N S) where
  -- `fsm_init` with a start node that has a routine and no timeout.
  pub init-state :
      (n : N) (act : S → S) (m : Machine N S)
      → (table n).action_routine ≡ some act
      → (table n).timeout_ms ≡ 0
      → let e = fsm_init table (some n) m in
        (e.fsm.current_node ≡ some n)
        × (e.fsm.home_node ≡ some n)
        × (e.fsm.inactivity_timer ≡ stopped)
        × (e.rest ≡ act m.rest)
  unfolding fsm_init fsm_transition_to
  init-state n act m a z = rw (a, z) (refl, refl, refl, refl)

pub channel_init-plain : (c : Channel) → (channel_init c).current_mode ≢ auto_tint
unfolding channel_init
channel_init-plain c = ground arith

pub ui_init-channel :
    (mode : UiMode) (env : Env) (d : Device) → (ui_init mode env d).channel ≡ channel_init d.channel
unfolding ui_init
ui_init-channel mode env d = refl

-- The lamp that `main` leaves: the engine is at its start node, and `action_off` has run there.
pub boot-state :
    (b : Board) (env : Env) (s : System)
    → let before = ui_init b.default_mode env s.lamp.rest in
      let lamp = (boot b env s).lamp in
      (lamp.fsm.current_node ≡ some (get_start_node before))
      × (lamp.fsm.home_node ≡ some (get_start_node before))
      × (lamp.fsm.inactivity_timer ≡ stopped)
      × (lamp.rest ≡ action_off env before)
unfolding boot
boot-state b env s =
    let before = ui_init b.default_mode env s.lamp.rest in
    let (acts, untimed) = start-action env before in
    init-state (table env) (get_start_node before) (action_off env)
      (record (s.lamp) { rest = before }) acts untimed

-- After `main` the engine is at home, in the start node of the interface that the storage or else the
-- configuration names, with no timeout running; the lamp is dark, every pulse 0, the timers of the
-- ramp, the strobe and the temperature are stopped and the device is suspended.
pub boot-dark :
    (b : Board) (env : Env) (s : System)
    → let start = get_start_node (ui_init b.default_mode env s.lamp.rest) in
      let m = (boot b env s).lamp in
      (m.fsm.current_node ≡ some start)
      × (m.fsm.home_node ≡ some start)
      × (m.fsm.inactivity_timer ≡ stopped)
      × All (λ x. x ≡ 0) (pulses m.rest.calls)
      × (m.rest.ui.ramp_timer ≡ stopped)
      × (m.rest.ui.strobe_timer ≡ stopped)
      × (m.rest.ui.thermal_timer ≡ stopped)
      × (m.rest.pm.is_suspended ≡ true)
boot-dark b env s =
    let before = ui_init b.default_mode env s.lamp.rest in
    let (here, home, timer, rest) = boot-state b env s in
    let (_, ramp, strobe, heat, asleep, _, dark) = action_off-dark env before in
    let plain =
      subst (λ c. c.current_mode ≢ auto_tint) (sym (ui_init-channel b.default_mode env s.lamp.rest))
        (channel_init-plain s.lamp.rest.channel) in
    (
      here,
      home,
      timer,
      subst (λ d. All (λ x. x ≡ 0) (pulses d.calls)) (sym rest) (dark plain),
      ap (λ d. d.ui.ramp_timer) rest ∙ ramp,
      ap (λ d. d.ui.strobe_timer) rest ∙ strobe,
      ap (λ d. d.ui.thermal_timer) rest ∙ heat,
      ap (λ d. d.pm.is_suspended) rest ∙ asleep,
    )
