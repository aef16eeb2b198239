-- ===== src/Ui/Timers.antt =====
-- The timers of the ramp and of the strobe in each routine and timer handler of src/ui_actions.c.
use zbeam.Base.{
  ℕ, zero, suc, ◌≡◌, ◌⊎◌, refl, ap, ◌∙◌, inl, inr, arith, Bool, true, false, Bool-cases, ◌|>◌, ltb,
}
use zbeam.Env.{Env}
use zbeam.Kernel.{stopped, runs}
use zbeam.Thermal.{Gains, thermal_get_temp_mc}
use zbeam.Batt.{batt_calculate_blinks, batt_read_voltage_mv}
use zbeam.Pm.{pm_suspend}
use zbeam.Ui.Device.{
  Device, UiMode, ui_simple, ui_advanced, StrobeType, strobe_party, strobe_tactical, strobe_candle,
  strobe_bike, ControlParam, param_brightness, param_frequency, RampStyle, ramp_smooth,
  ramp_stepped, ramp_unnamed, k_msleep, update_led_hardware,
}
use zbeam.Ui.Ramp.{ramp_timer_handler, stop_ramping}
use zbeam.Ui.Strobe.{strobe_tick, strobe_timer_handler, action_strobe, action_strobe_next}
use zbeam.Ui.Actions.{
  thermal_timer_handler, action_off, light_chosen, action_on, action_moon, action_turbo,
  action_lockout, blink, blink_digits, temp_digits, action_battcheck, action_tempcheck,
  action_factory_reset,
}
use zbeam.Ui.Config.{buzz_timer_handler}

pub mode_cases : (u : UiMode) → (u ≡ ui_simple) ⊎ (u ≡ ui_advanced)
mode_cases ui_simple = inl refl
mode_cases ui_advanced = inr refl

strobe_cases :
    (s : StrobeType)
    → (s ≡ strobe_party) ⊎ (s ≡ strobe_tactical) ⊎ (s ≡ strobe_candle) ⊎ (s ≡ strobe_bike)
strobe_cases strobe_party = inl refl
strobe_cases strobe_tactical = inr (inl refl)
strobe_cases strobe_candle = inr (inr (inl refl))
strobe_cases strobe_bike = inr (inr (inr refl))

pub param_cases : (p : ControlParam) → (p ≡ param_brightness) ⊎ (p ≡ param_frequency)
param_cases param_brightness = inl refl
param_cases param_frequency = inr refl

style_cases :
    (s : RampStyle)
    → (s ≡ ramp_smooth) ⊎ (s ≡ ramp_stepped) ⊎ ((byte : ℕ) × (s ≡ ramp_unnamed byte))
style_cases ramp_smooth = inl refl
style_cases ramp_stepped = inr (inl refl)
style_cases (ramp_unnamed byte) = inr (inr (byte, refl))

-- Whether the timers of the ramp and of the strobe run.
abbrev pub Timing : Bool → Bool → Device → Type 0
Timing ramp strobe d = (runs d.ui.ramp_timer ≡ ramp) × (runs d.ui.strobe_timer ≡ strobe)

-- The thermal timer is stopped and the device suspended.
abbrev pub IsAsleep : Device → Type 0
IsAsleep d = (d.ui.thermal_timer ≡ stopped) × (d.pm.is_suspended ≡ true)

-- What a routine leaves of the strobe's timer, having stopped the ramp's.
abbrev pub Stills : (Device → Device) → Type 0
Stills f =
    (d : Device) (strobe : Bool) → runs d.ui.strobe_timer ≡ strobe → Timing false strobe (f d)

pub stop-Timing : Stills stop_ramping
unfolding stop_ramping
stop-Timing d strobe s = ground arith

pub off-Timing :
    (env : Env) (d : Device) → Timing false false (action_off env d) × IsAsleep (action_off env d)
unfolding action_off update_led_hardware pm_suspend
off-Timing env d = ((((stop-Timing d _ refl).0), refl), (refl, ground arith))

chosen-Timing :
    (now : ℕ) (d : Device) (strobe : Bool)
    → Timing false strobe d
    → Timing false strobe (light_chosen now d)
unfolding light_chosen update_led_hardware
chosen-Timing now d strobe s = elim (Bool-cases (ltb 0 d.ui.override_brightness)) [
  | inl e ↦ rw e s
  | inr e ↦ rw e s
]

pub on-Timing : (env : Env) → Stills (action_on env)
unfolding action_on
on-Timing env d strobe s = chosen-Timing env.uptime _ strobe (stop-Timing _ strobe s)

pub moon-Timing :
    (d : Device) (ramp : Bool) → runs d.ui.ramp_timer ≡ ramp → Timing ramp false (action_moon d)
unfolding action_moon update_led_hardware
moon-Timing d ramp r = (r, refl)

pub turbo-Timing : Stills action_turbo
unfolding action_turbo update_led_hardware
turbo-Timing d strobe s = stop-Timing _ strobe s

pub lockout-Timing : Stills action_lockout
unfolding action_lockout update_led_hardware
lockout-Timing d strobe s = stop-Timing d strobe s

blink-ui : (n : ℕ) (d : Device) → (blink n d).ui ≡ d.ui
unfolding blink update_led_hardware
blink-ui zero d = refl
blink-ui (suc n) d =
    blink-ui n
      (d |> update_led_hardware 100 |> k_msleep 100 |> update_led_hardware 0 |> k_msleep 300)

digits-ui : (major minor : ℕ) (d : Device) → (blink_digits major minor d).ui ≡ d.ui
unfolding blink_digits
digits-ui major minor d = blink-ui minor (k_msleep 800 (blink major d)) ∙ blink-ui major d

same-Timing :
    (d e : Device) {ramp strobe : Bool} → e.ui ≡ d.ui → Timing ramp strobe d → Timing ramp strobe e
same-Timing d e h (r, s) = (ap (λ u. runs u.ramp_timer) h ∙ r, ap (λ u. runs u.strobe_timer) h ∙ s)

pub batt-Timing : (env : Env) → Stills (action_battcheck env)
unfolding action_battcheck
batt-Timing env d strobe s =
    let e = stop_ramping d in
    let (major, minor) = batt_calculate_blinks (batt_read_voltage_mv env e.batt) in
    same-Timing e (blink_digits major minor e) (digits-ui major minor e) (stop-Timing d strobe s)

pub batt-mode :
    (env : Env) (d : Device) → (action_battcheck env d).ui.current_ui_mode ≡ d.ui.current_ui_mode
unfolding action_battcheck stop_ramping
batt-mode env d =
    let e = stop_ramping d in
    let (major, minor) = batt_calculate_blinks (batt_read_voltage_mv env e.batt) in
    ap (λ u. u.current_ui_mode) (digits-ui major minor e) ∙ ground arith

pub off-mode :
    (env : Env) (d : Device) → (action_off env d).ui.current_ui_mode ≡ d.ui.current_ui_mode
unfolding action_off stop_ramping update_led_hardware
off-mode env d = ground arith

pub temp-Timing : Stills action_tempcheck
unfolding action_tempcheck
temp-Timing d strobe s =
    let e = stop_ramping d in
    let (major, minor) = temp_digits (thermal_get_temp_mc e.thermal) in
    same-Timing e (blink_digits major minor e) (digits-ui major minor e) (stop-Timing d strobe s)

pub reset-Timing : Stills action_factory_reset
unfolding action_factory_reset
reset-Timing d strobe s = stop-Timing d strobe s

pub strobe-Timing : (d : Device) → Timing false true (action_strobe d)
unfolding action_strobe update_led_hardware
strobe-Timing d = ((stop-Timing d _ refl).0, refl)

pub next-Timing :
    (d : Device) (ramp : Bool)
    → runs d.ui.ramp_timer ≡ ramp
    → Timing ramp true (action_strobe_next d).1
unfolding action_strobe_next
next-Timing d ramp r = elim (strobe_cases d.ui.current_strobe_mode) [
  | inl e ↦ rw e (r, refl)
  | inr (inl e) ↦ rw e (r, refl)
  | inr (inr (inl e)) ↦ rw e (r, refl)
  | inr (inr (inr e)) ↦ rw e (r, refl)
]

-- What the handlers of the timers leave: the timers of the ramp and of the temperature, the strobe's
-- if it is not the strobe that ticks, and whether the device is suspended.
abbrev pub Keeps : Device → Device → Type 0
Keeps d e =
    (e.ui.ramp_timer ≡ d.ui.ramp_timer) × (e.ui.thermal_timer ≡ d.ui.thermal_timer) × (e.pm ≡ d.pm)

pub heat-Keeps :
    (g : Gains) (env : Env) (d : Device)
    → let e = thermal_timer_handler g env d in Keeps d e × (e.ui.strobe_timer ≡ d.ui.strobe_timer)
unfolding thermal_timer_handler update_led_hardware
heat-Keeps g env d = ((refl, refl, refl), refl)

pub buzz-Keeps :
    (d : Device)
    → let e = buzz_timer_handler d in Keeps d e × (e.ui.strobe_timer ≡ d.ui.strobe_timer)
unfolding buzz_timer_handler update_led_hardware
buzz-Keeps d = ((refl, refl, refl), refl)

pub ramp-Keeps :
    (d : Device)
    → let e = ramp_timer_handler d in Keeps d e × (e.ui.strobe_timer ≡ d.ui.strobe_timer)
unfolding ramp_timer_handler update_led_hardware
ramp-Keeps d = elim (param_cases d.ui.active_param) [
  | inl p ↦ elim (style_cases d.ui.current_ramp_style) [
    | inl s ↦ rw (p, s) ((refl, refl, refl), refl)
    | inr (inl s) ↦ rw (p, s) ((refl, refl, refl), refl)
    | inr (inr (byte, s)) ↦ rw (p, s) ((refl, refl, refl), refl)
  ]
  | inr p ↦ rw p ((refl, refl, refl), refl)
]

strobe_tick-Keeps : (env : Env) (s : StrobeType) (d : Device) → Keeps d (strobe_tick env s d).1
unfolding strobe_tick update_led_hardware
strobe_tick-Keeps env strobe_party d = ground arith
strobe_tick-Keeps env strobe_tactical d = (refl, refl, refl)
strobe_tick-Keeps env strobe_candle d = (refl, refl, refl)
strobe_tick-Keeps env strobe_bike d = (refl, refl, refl)

pub flash-Keeps :
    (env : Env) (d : Device)
    → let e = strobe_timer_handler env d in Keeps d e × (runs e.ui.strobe_timer ≡ true)
unfolding strobe_timer_handler
flash-Keeps env d = (strobe_tick-Keeps env d.ui.current_strobe_mode d, refl)
