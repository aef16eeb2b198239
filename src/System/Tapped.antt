-- ===== src/System/Tapped.antt =====
-- One press of the button, through the tap engine and the worker to the emitters.
use zbeam.Base.{
  ◌-◌, ◌≡◌, ◌≢◌, All, refl, inl, inr, ◌∙◌, sym, ap, subst, arith, false, some, List, [], ◌∷◌,
}
use zbeam.Env.{Env}
use zbeam.Kernel.{started}
use zbeam.Fsm.{Machine}
use zbeam.Node.{Node}
use zbeam.Worker.{handle_all}
use zbeam.Tap.{
  Tap, idle, TapEvent, key, click_expiry, tap_step, tap_run, process_key_event, click_timer_handler,
  post_event, multi_tap_input_init,
}
use zbeam.Ui.Ramp.{stop_ramping}
use zbeam.Ui.Device.{Device, pulses, light, update_led_hardware}
use zbeam.Ui.Actions.{action_on, light_chosen, get_start_node}
use zbeam.Ui.Memory.{action_on-chosen, chosen, kept_level}
use zbeam.Ui.Memory.{off-memory}
use zbeam.Ui.Dark.{action_off-dark}
use zbeam.Ui.Init.{ui_init}
use zbeam.Channel.{auto_tint}
use zbeam.Tree.Table.{table}
use zbeam.System.{System, Board, boot}
use zbeam.Ui.Timers.{mode_cases}
use zbeam.System.Boot.{boot-state, ui_init-channel, channel_init-plain}
use zbeam.System.Taps.{one_tap, on_node, off_node, tap-on, tap-off}

-- A press, a release, and the end of the wait for another press.
abbrev pub press : List TapEvent
press = key 1 ∷ key 0 ∷ click_expiry ∷ []

-- The engine waits for a press. Its variables are so at power-up; a click while `main` sleeps leaves
-- another state, which `multi_tap_input_init` keeps.
abbrev pub AtRest : Tap → Type 0
AtRest t = (t.current_state ≡ idle) × (t.is_holding ≡ false)

pub press-posts :
    (t : Tap) → AtRest t → ((tap_run press t).1 ≡ one_tap ∷ []) × AtRest (tap_run press t).0
unfolding tap_run tap_step process_key_event click_timer_handler post_event
press-posts t (still, up) = rw (still, up) (refl, (refl, refl))

boot-AtRest : (b : Board) (env : Env) (s : System) → AtRest s.tap → AtRest (boot b env s).tap
unfolding boot multi_tap_input_init
boot-AtRest b env s rest = rest

action_on-channel : (env : Env) (d : Device) → (action_on env d).channel ≡ d.channel
unfolding action_on stop_ramping light_chosen update_led_hardware
action_on-channel env d = ground arith

pub off_node-start : (d : Device) → off_node d.ui.current_ui_mode ≡ get_start_node d
unfolding get_start_node
off_node-start d = elim (mode_cases d.ui.current_ui_mode) [ inl e ↦ rw e refl | inr e ↦ rw e refl ]

-- The channel mode after `main` is not the tint mix, which keeps an emitter lit at level 0.
boot-plain :
    (b : Board) (env : Env) (s : System) → (boot b env s).lamp.rest.channel.current_mode ≢ auto_tint
boot-plain b env s =
    let before = ui_init b.default_mode env s.lamp.rest in
    let (_, _, _, rest) = boot-state b env s in
    let (_, _, _, _, _, _, _, same) = off-memory env before in
    let from_init =
      ap (λ d. d.channel) rest ∙ same ∙ ui_init-channel b.default_mode env s.lamp.rest in
    subst (λ c. c.current_mode ≢ auto_tint) (sym from_init) (channel_init-plain s.lamp.rest.channel)

-- If the tap engine is at rest when `main` begins, and no key event comes before its end, then a
-- press of the button lights the lamp, and the next one turns it off. The tap engine
-- posts one tap for each press, and the worker handles both without a fault. The first leads to the
-- node for the lit lamp: the device is awake, the temperature is watched every 500 ms, and the
-- emitters have the light of the level that the override or the memory mode chooses. The second
-- leads back to the start node, and every pulse is 0.
pub press-lights :
    (b : Board) (env first second : Env) (s : System)
    → AtRest s.tap
    → let up = boot b env s in
      let u = (ui_init b.default_mode env s.lamp.rest).ui.current_ui_mode in
      let d = up.lamp.rest in
      let level =
        chosen d.ui.override_brightness d.ui.current_mem_mode
          (first.uptime - d.ui.last_off_time)
          d.ui.hybrid_timeout_ms
          d.ui.manual_mem_level
          (kept_level d.ui) in
      let (t, posted) = tap_run press up.tap in
      (lit : Machine Node Device) × (dark : Machine Node Device) × (handle_all
          (table first)
          posted
          up.lamp
        ≡ some lit)
      × (handle_all (table second) (tap_run press t).1 lit ≡ some dark)
      × (lit.fsm.current_node ≡ some (on_node u))
      × (lit.rest.pm.is_suspended ≡ false)
      × (lit.rest.ui.thermal_timer ≡ started 500 500)
      × (lit.rest.ui.current_brightness ≡ level)
      × (pulses lit.rest.calls ≡ light d level)
      × (dark.fsm.current_node ≡ some (off_node u))
      × All (λ x. x ≡ 0) (pulses dark.rest.calls)
press-lights b env first second s rest =
    let up = boot b env s in
    let before = ui_init b.default_mode env s.lamp.rest in
    let u = before.ui.current_ui_mode in
    let (here, _, _, _) = boot-state b env s in
    let (posted, again) = press-posts up.tap (boot-AtRest b env s rest) in
    let (posted2, _) = press-posts (tap_run press up.tap).0 again in
    let (lit, e, there, _, on) =
      tap-on u first up.lamp (here ∙ ap (λ n. some n) (sym (off_node-start before))) in
    let (dark, e2, back, off) = tap-off u second lit there in
    let (awake, heat, _, _, level, light) = action_on-chosen first up.lamp.rest in
    let (_, _, _, _, _, _, unlit) = action_off-dark second lit.rest in
    let plain =
      subst (λ c. c.current_mode ≢ auto_tint)
        (sym (ap (λ d. d.channel) on ∙ action_on-channel first up.lamp.rest))
        (boot-plain b env s) in
    (
      lit,
      dark,
      subst (λ ms. handle_all (table first) ms up.lamp ≡ some lit) (sym posted) e,
      subst (λ ms. handle_all (table second) ms lit ≡ some dark) (sym posted2) e2,
      there,
      ap (λ d. d.pm.is_suspended) on ∙ awake,
      ap (λ d. d.ui.thermal_timer) on ∙ heat,
      ap (λ d. d.ui.current_brightness) on ∙ level,
      ap (λ d. pulses d.calls) on ∙ light,
      back,
      subst (λ d. All (λ x. x ≡ 0) (pulses d.calls)) (sym off) (unlit plain),
    )
