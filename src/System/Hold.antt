-- ===== src/System/Hold.antt =====
-- A hold of the button from a lamp that is off: the ramp of src/ui_actions.c under the two interfaces.
use zbeam.Base.{
  ℕ, ◌+◌, ◌-◌, ◌≡◌, ◌≤◌, ◌<◌, refl, sym, ap, ◌∙◌, subst, arith, true, false, some, List, [], ◌∷◌,
  length,
}
use zbeam.Base.Int.{ℤ, pos}
use zbeam.Env.{Env}
use zbeam.Kernel.{stopped, started}
use zbeam.Msg.{ZbeamMsg, input_hold_release}
use zbeam.Fsm.{Machine, dispatch_input, fsm_process_msg, fsm_transition_to, reset_inactivity_timer}
use zbeam.Node.{Node, simple_ramp, adv_ramp}
use zbeam.Worker.{handle_msg}
use zbeam.Thermal.{Gains}
use zbeam.Ui.Device.{
  Ui, Device, UiMode, ui_simple, ui_advanced, ramp_smooth, param_brightness, pulses, light,
  update_led_hardware,
}
use zbeam.Ui.Ramp.{smooth_tick, ramp_timer_handler, start_ramping, stop_ramping}
use zbeam.Ui.Actions.{action_moon, action_on, action_ramp}
use zbeam.Ui.Memory.{action_on-chosen, chosen, kept_level}
use zbeam.Ui.Sweep.{ticks, sweep_up, raised}
use zbeam.Tree.Simple.{cb_simple_hold_from_off, cb_simple_ramp_release}
use zbeam.Tree.Advanced.{cb_adv_hold_from_off, cb_adv_ramp_release}
use zbeam.Tree.Table.{table}
use zbeam.Tree.Routes.{held}
use zbeam.System.Taps.{on_node, off_node}
use zbeam.System.Events.{Event, taken, ramp_expiry, on_event}
use zbeam.System.Live.{live_event, live_events}

-- As lib/multi_tap_input.c posts it, with the count of the hold.
abbrev hold_ends : ZbeamMsg
hold_ends = record { type = input_hold_release; count = 1; severity = 0 }

abbrev pub ramp_node : UiMode → Node
ramp_node ui_simple = simple_ramp
ramp_node ui_advanced = adv_ramp

-- The ramp's timer expires at the given moments, and the button is let go.
abbrev pub ramped_until : List Env → Env → List (Env × Event)
ramped_until [] now = (now, taken hold_ends) ∷ []
ramped_until (env ∷ envs) now = (env, ramp_expiry) ∷ ramped_until envs now

begun :
    (u : UiMode) (env : Env) (m : Machine Node Device)
    → m.fsm.current_node ≡ some (off_node u)
    → (m' : Machine Node Device) × (handle_msg (table env) (held 1) m ≡ some m')
      × (m'.fsm.current_node ≡ some (ramp_node u))
      × (m'.rest ≡ start_ramping (pos 1) (action_moon m.rest))
unfolding handle_msg fsm_process_msg dispatch_input table fsm_transition_to reset_inactivity_timer
    cb_simple_hold_from_off cb_adv_hold_from_off action_ramp
begun ui_simple env m here = rw here (_, refl, refl, refl)
begun ui_advanced env m here = rw here (_, refl, refl, refl)

released :
    (u : UiMode) (env : Env) (m : Machine Node Device)
    → m.fsm.current_node ≡ some (ramp_node u)
    → (m' : Machine Node Device) × (handle_msg (table env) hold_ends m ≡ some m')
      × (m'.fsm.current_node ≡ some (on_node u))
      × (m'.rest ≡ action_on env (stop_ramping m.rest))
unfolding handle_msg fsm_process_msg dispatch_input table fsm_transition_to reset_inactivity_timer
    cb_simple_ramp_release cb_adv_ramp_release
released ui_simple env m here = rw here (_, refl, refl, refl)
released ui_advanced env m here = rw here (_, refl, refl, refl)

-- The variables in a smooth ramp of the brightness, at a level and in a direction.
abbrev in_ramp : Ui → ℕ × ℤ → Ui
in_ramp u s = record u {
  strobe_timer = stopped;
  current_brightness = s.0;
  ramp_direction = s.1;
  ramp_active = true;
  ramp_timer = started 7 7;
}

-- The device in such a ramp that began with `d`.
abbrev Ramps : Device → ℕ × ℤ → Device → Type 0
Ramps d s e = (e.ui ≡ in_ramp d.ui s) × (e.thermal ≡ d.thermal) × (e.channel ≡ d.channel)

module _ (d : Device) (param : d.ui.active_param ≡ param_brightness)
    (style : d.ui.current_ramp_style ≡ ramp_smooth) where
  start-Ramps : Ramps d (d.ui.brightness_floor, pos 1) (start_ramping (pos 1) (action_moon d))
  unfolding start_ramping action_moon update_led_hardware
  start-Ramps = rw (param, style) (refl, refl, refl)

  tick-Ramps :
      (s : ℕ × ℤ) (e : Device)
      → Ramps d s e
      → Ramps d
          (smooth_tick s.0 d.ui.brightness_floor d.ui.brightness_ceiling s.1)
          (ramp_timer_handler e)
  unfolding ramp_timer_handler update_led_hardware
  tick-Ramps s e (ui, thermal, channel) = rw (ui, param, style) (refl, thermal, channel)

  -- The level that `action_on` lights when a ramp at a level is let go.
  abbrev pub level_of : ℕ → Env → ℕ
  level_of level now =
      chosen d.ui.override_brightness d.ui.current_mem_mode (now.uptime - d.ui.last_off_time)
        d.ui.hybrid_timeout_ms d.ui.manual_mem_level level

  stop-level :
      (s : ℕ × ℤ) (e : Device) (now : Env)
      → Ramps d s e
      → let k = stop_ramping e in
        (chosen k.ui.override_brightness k.ui.current_mem_mode
            (now.uptime - k.ui.last_off_time)
            k.ui.hybrid_timeout_ms
            k.ui.manual_mem_level
            (kept_level k.ui)
          ≡ level_of s.0 now)
        × (k.thermal ≡ d.thermal)
        × (k.channel ≡ d.channel)
  unfolding stop_ramping
  stop-level s e now (ui, thermal, channel) = rw (ui, param, thermal, channel) (refl, refl, refl)

  -- The light of `action_on` after the ramp.
  abbrev Relit : ℕ → Env → Device → Type 0
  Relit level now e =
      (e.pm.is_suspended ≡ false)
      × (e.ui.thermal_timer ≡ started 500 500)
      × (e.ui.ramp_timer ≡ stopped)
      × (e.ui.current_brightness ≡ level_of level now)
      × (pulses e.calls ≡ light d (level_of level now))

  stop-Relit :
      (s : ℕ × ℤ) (e : Device) (now : Env)
      → Ramps d s e
      → Relit s.0 now (action_on now (stop_ramping e))
  stop-Relit s e now ramps =
      let k = stop_ramping e in
      let (same, thermal, channel) = stop-level s e now ramps in
      let (awake, heat, still, _, level, lit) = action_on-chosen now k in
      (awake, heat, still, level ∙ same, lit ∙ ap (light k) same ∙ rw (thermal, channel) refl)

  module _ (gains : Gains) (u : UiMode) where
    run-Relit :
        (envs : List Env) (now : Env) (s : ℕ × ℤ) (m : Machine Node Device)
        → m.fsm.current_node ≡ some (ramp_node u)
        → Ramps d s m.rest
        → (m' : Machine Node Device) × (live_events gains (ramped_until envs now) m ≡ some m')
          × (m'.fsm.current_node ≡ some (on_node u))
          × Relit
              (ticks d.ui.brightness_floor d.ui.brightness_ceiling (length envs) s).0
              now
              m'.rest
    unfolding live_events on_event ticks
    run-Relit [] now s m here ramps =
        let (m', e, there, rest) = released u now m here in
        (
          m',
          rw (live_events, e) refl,
          there,
          subst (Relit s.0 now) (sym rest) (stop-Relit s m.rest now ramps),
        )
    run-Relit (env ∷ envs) now s m here ramps =
        let m1 : Machine Node Device = record m { rest = ramp_timer_handler m.rest } in
        let live : live_event gains env ramp_expiry m ≡ some m1 = rw (ramps.0) refl in
        let (m', e, there, lit) =
          run-Relit envs now (smooth_tick s.0 d.ui.brightness_floor d.ui.brightness_ceiling s.1) m1
            here (tick-Ramps s m.rest ramps) in
        (m', rw (live_events, live) e, there, lit)

raised-level : (ceiling val n : ℕ) → val + n ≤ ceiling → (raised ceiling val n).0 ≡ val + n
unfolding raised
raised-level ceiling val n a = ground arith

-- With a smooth ramp of the brightness and a floor below a ceiling that fits in a byte: a hold from
-- the lamp that is off, let go after `n` expiries of the ramp's timer, no more than there are levels
-- between floor and ceiling, leads to the node of the lamp that is on. The device is awake, its
-- temperature is watched, the ramp stands still, and the lamp has the level that the override or the
-- memory mode chooses with `floor + n` as the memorized level: in the automatic mode this level, but
-- in the manual mode the manual level, whatever was ramped to.
pub hold-ramps :
    (gains : Gains) (u : UiMode) (start : Env) (envs : List Env) (now : Env)
    (m : Machine Node Device)
    → m.fsm.current_node ≡ some (off_node u)
    → m.rest.ui.active_param ≡ param_brightness
    → m.rest.ui.current_ramp_style ≡ ramp_smooth
    → m.rest.ui.brightness_floor < m.rest.ui.brightness_ceiling
    → m.rest.ui.brightness_floor + length envs ≤ m.rest.ui.brightness_ceiling
    → m.rest.ui.brightness_ceiling < 256
    → let d = m.rest in
      let level =
        chosen d.ui.override_brightness d.ui.current_mem_mode
          (now.uptime - d.ui.last_off_time)
          d.ui.hybrid_timeout_ms
          d.ui.manual_mem_level
          (d.ui.brightness_floor + length envs) in
      (m' : Machine Node Device) × (live_events gains
          ((start, taken (held 1)) ∷ ramped_until envs now)
          m
        ≡ some m')
      × (m'.fsm.current_node ≡ some (on_node u))
      × (m'.rest.pm.is_suspended ≡ false)
      × (m'.rest.ui.thermal_timer ≡ started 500 500)
      × (m'.rest.ui.ramp_timer ≡ stopped)
      × (m'.rest.ui.current_brightness ≡ level)
      × (pulses m'.rest.calls ≡ light d level)
unfolding live_events on_event
hold-ramps gains u start envs now m here param style below few byte =
    let d = m.rest in
    let floor = d.ui.brightness_floor in
    let ceiling = d.ui.brightness_ceiling in
    let (m1, e, there, rest) = begun u start m here in
    let ramps : Ramps d (floor, pos 1) m1.rest =
      subst (Ramps d (floor, pos 1)) (sym rest) (start-Ramps d param style) in
    let (m', run, on, lit) =
      run-Relit d param style gains u envs now (floor, pos 1) m1 there ramps in
    let level : (ticks floor ceiling (length envs) (floor, pos 1)).0 ≡ floor + length envs =
      ap (λ s. s.0) (sweep_up floor ceiling (length envs) floor below few byte)
      ∙ raised-level ceiling floor (length envs) few in
    let (awake, heat, still, bright, light_now) =
      subst (λ l. Relit d param style l now m'.rest) level lit in
    (m', rw (live_events, e) run, on, awake, heat, still, bright, light_now)
