-- ===== src/Tree/TableMoves.antt =====
-- Every way out of a node of src/ui_advanced.c, and of the whole table, for which timers run where.
use zbeam.Base.{ℕ, refl, true, false, inl, inr, Bool-cases, ltb}
use zbeam.Env.{Env}
use zbeam.Fsm.Within.{Moves}
use zbeam.Node.{
  Node, simple_off, simple_on, simple_ramp, simple_moon, simple_turbo, simple_lockout,
  simple_battcheck, simple_reset, adv_off, adv_on, adv_ramp, adv_moon, adv_turbo, adv_lockout,
  adv_battcheck, adv_tempcheck, adv_reset, adv_strobe, adv_config_floor, adv_config_ceiling,
  adv_aux_config, adv_cal_voltage, adv_cal_thermal_current, adv_cal_thermal_limit, adv_blink,
  adv_party_strobe, adv_config_steps,
}
use zbeam.Ui.Device.{Device, update_led_hardware}
use zbeam.Ui.Ramp.{start_ramping}
use zbeam.Ui.Actions.{ui_toggle_mode, action_toggle_ramp_style}
use zbeam.Ui.Config.{
  cb_config_floor_set, cb_config_ceiling_set, cb_cal_voltage_set, cb_cal_thermal_set,
  cb_cal_thermal_limit_set,
}
use zbeam.Ui.Timers.{Timing, stop-Timing, moon-Timing, off-Timing, next-Timing}
use zbeam.Tree.Advanced.{
  cb_adv_hold_from_off, cb_adv_hold_ramp_up, cb_adv_hold_ramp_down, cb_adv_ramp_release,
  cb_adv_lockout_momentary, cb_adv_lockout_release, cb_adv_strobe_release, cb_10h_toggle,
  cb_adv_toggle_ramp_style, cb_strobe_next,
}
use zbeam.Tree.Table.{table}
use zbeam.Tree.Confined.{
  by_off, by_on, by_ramp, by_moon, by_turbo, by_lockout, by_battcheck, by_reset,
}
use zbeam.Tree.Modes.{Fits, IsOff, enter, off-Enters, start-IsOff}
use zbeam.Tree.SimpleMoves.{simple-Moves}

-- The callbacks of the menus leave the timers of the ramp and of the strobe.
abbrev Sets : (ℕ → Device → Device) → Type 0
Sets f = (count : ℕ) (d : Device) → Timing false false d → Timing false false (f count d)

floor-Timing : Sets (λ count d. (cb_config_floor_set adv_config_floor count d).1)
unfolding cb_config_floor_set
floor-Timing count d h = elim (Bool-cases (ltb 0 count)) [ inl e ↦ rw e h | inr e ↦ rw e h ]

ceiling-Timing : Sets (λ count d. (cb_config_ceiling_set adv_config_ceiling count d).1)
unfolding cb_config_ceiling_set
ceiling-Timing count d h = elim (Bool-cases (ltb 0 count)) [ inl e ↦ rw e h | inr e ↦ rw e h ]

voltage-Timing : (env : Env) → Sets (λ count d. (cb_cal_voltage_set env adv_cal_voltage count d).1)
unfolding cb_cal_voltage_set
voltage-Timing env count d h = elim (Bool-cases (ltb 0 count)) [ inl e ↦ rw e h | inr e ↦ rw e h ]

thermal-Timing :
    (env : Env) → Sets (λ count d. (cb_cal_thermal_set env adv_cal_thermal_current count d).1)
unfolding cb_cal_thermal_set
thermal-Timing env count d h = elim (Bool-cases (ltb 0 count)) [ inl e ↦ rw e h | inr e ↦ rw e h ]

limit-Timing : Sets (λ count d. (cb_cal_thermal_limit_set adv_cal_thermal_limit count d).1)
unfolding cb_cal_thermal_limit_set
limit-Timing count d h = elim (Bool-cases (ltb 0 count)) [ inl e ↦ rw e h | inr e ↦ rw e h ]

pub table-Moves :
    (env : Env) (home : Node) → IsOff home → (self : Node) → Moves (table env) Fits home self
unfolding table start_ramping update_led_hardware cb_adv_hold_from_off cb_adv_hold_ramp_up
    cb_adv_hold_ramp_down cb_adv_ramp_release cb_adv_lockout_momentary cb_adv_lockout_release
    cb_adv_strobe_release cb_10h_toggle cb_adv_toggle_ramp_style cb_strobe_next ui_toggle_mode
    action_toggle_ramp_style cb_config_floor_set cb_config_ceiling_set cb_cal_voltage_set
    cb_cal_thermal_set cb_cal_thermal_limit_set
table-Moves env home at simple_off = simple-Moves env home at by_off
table-Moves env home at simple_on = simple-Moves env home at by_on
table-Moves env home at simple_ramp = simple-Moves env home at by_ramp
table-Moves env home at simple_moon = simple-Moves env home at by_moon
table-Moves env home at simple_turbo = simple-Moves env home at by_turbo
table-Moves env home at simple_lockout = simple-Moves env home at by_lockout
table-Moves env home at simple_battcheck = simple-Moves env home at by_battcheck
table-Moves env home at simple_reset = simple-Moves env home at by_reset
table-Moves env home at adv_off = record {
  click_calls = tt;
  click_nodes = (
    (λ d _ h. enter env adv_on d h.0),
    (
      (λ d _ h. enter env adv_turbo d h.0),
      (
        (λ d _ h. enter env adv_battcheck d h.0),
        (
          (λ d _ h. enter env adv_lockout d h.0),
          ((λ d _ h. enter env adv_reset d h.0), ((λ d _ h. enter env adv_aux_config d h.0), tt)),
        ),
      ),
    ),
  );
  hold_calls = (
    (λ count d h. enter env adv_ramp _ (refl, (moon-Timing d false h.0.0).1)),
    ((λ count d h. off-Enters env _ (start-IsOff (ui_toggle_mode d).1) (ui_toggle_mode d).1), tt),
  );
  hold_nodes = ((λ d e h. cc), ((λ d _ h. enter env adv_strobe d tt), tt));
  release = λ d h. h;
  any_click = λ count d h. h;
  any_hold = λ count d h. h;
  reverts = refl;
  timeout = λ d h. off-Enters env home at d;
}
table-Moves env home at adv_on = record {
  click_calls = ((λ count d h. h), tt);
  click_nodes = (
    (λ d _ h. enter env adv_off d tt),
    ((λ d _ h. enter env adv_turbo d h.0), ((λ d _ h. enter env adv_lockout d h.0), tt)),
  );
  hold_calls = (
    (λ count d h. enter env adv_ramp _ (refl, h.0.1)),
    ((λ count d h. enter env adv_ramp _ (refl, h.0.1)), tt),
  );
  hold_nodes = ((λ d e h. cc), ((λ d e h. cc), ((λ d _ h. enter env adv_config_floor d h.0), tt)));
  release = λ d h. h;
  any_click = λ count d h. h;
  any_hold = λ count d h. h;
  reverts = refl;
  timeout = λ d h. off-Enters env home at d;
}
table-Moves env home at adv_ramp = record {
  click_calls = tt;
  click_nodes = ((λ d _ h. enter env adv_off d tt), tt);
  hold_calls = tt;
  hold_nodes = tt;
  release = λ d h. enter env adv_on _ (stop-Timing d false h.0.1);
  any_click = λ count d h. h;
  any_hold = λ count d h. h;
  reverts = refl;
  timeout = λ d h. off-Enters env home at d;
}
table-Moves env home at adv_moon = record {
  click_calls = tt;
  click_nodes = ((λ d _ h. enter env adv_off d tt), tt);
  hold_calls = ((λ count d h. enter env adv_ramp _ (refl, h.0.1)), tt);
  hold_nodes = ((λ d e h. cc), tt);
  release = λ d h. h;
  any_click = λ count d h. h;
  any_hold = λ count d h. h;
  reverts = refl;
  timeout = λ d h. off-Enters env home at d;
}
table-Moves env home at adv_turbo = record {
  click_calls = tt;
  click_nodes = ((λ d _ h. enter env adv_off d tt), ((λ d _ h. enter env adv_on d h.0), tt));
  hold_calls = tt;
  hold_nodes = tt;
  release = λ d h. h;
  any_click = λ count d h. h;
  any_hold = λ count d h. h;
  reverts = refl;
  timeout = λ d h. off-Enters env home at d;
}
table-Moves env home at adv_lockout = record {
  click_calls = tt;
  click_nodes = ((λ d _ h. enter env adv_off d tt), tt);
  hold_calls =
      ((λ count d h. (moon-Timing d false h.0.0, λ o. elim o [ ], λ o. elim o [ ], refl)), tt);
  hold_nodes = tt;
  release = λ d h. ((off-Timing env d).0, λ o. elim o [ ], λ o. elim o [ ], refl);
  any_click = λ count d h. h;
  any_hold = λ count d h. h;
  reverts = refl;
  timeout = λ d h. off-Enters env home at d;
}
table-Moves env home at adv_battcheck = record {
  click_calls = tt;
  click_nodes = ((λ d _ h. enter env adv_off d tt), ((λ d _ h. enter env adv_tempcheck d h.0), tt));
  hold_calls = tt;
  hold_nodes = ((λ d _ h. enter env adv_cal_voltage d h.0), tt);
  release = λ d h. h;
  any_click = λ count d h. h;
  any_hold = λ count d h. h;
  reverts = refl;
  timeout = λ d h. off-Enters env home at d;
}
table-Moves env home at adv_tempcheck = record {
  click_calls = tt;
  click_nodes = ((λ d _ h. enter env adv_off d tt), ((λ d _ h. enter env adv_battcheck d h.0), tt));
  hold_calls = tt;
  hold_nodes = ((λ d _ h. enter env adv_cal_thermal_current d h.0), tt);
  release = λ d h. h;
  any_click = λ count d h. h;
  any_hold = λ count d h. h;
  reverts = refl;
  timeout = λ d h. off-Enters env home at d;
}
table-Moves env home at adv_reset = record {
  click_calls = tt;
  click_nodes = tt;
  hold_calls = tt;
  hold_nodes = tt;
  release = λ d h. h;
  any_click = λ count d h. h;
  any_hold = λ count d h. h;
  reverts = refl;
  timeout = λ d h. off-Enters env home at d;
}
table-Moves env home at adv_strobe = record {
  click_calls =
      ((λ count d h. (next-Timing d false h.0.0, λ o. elim o [ ], λ o. elim o [ ], refl)), tt);
  click_nodes = ((λ d _ h. enter env adv_off d tt), tt);
  hold_calls = tt;
  hold_nodes = tt;
  release = λ d h. (stop-Timing d true h.0.1, λ o. elim o [ ], λ o. elim o [ ], refl);
  any_click = λ count d h. h;
  any_hold = λ count d h. h;
  reverts = refl;
  timeout = λ d h. off-Enters env home at d;
}
table-Moves env home at adv_config_floor = record {
  click_calls = tt;
  click_nodes = tt;
  hold_calls = tt;
  hold_nodes = tt;
  release = λ d h. h;
  any_click = λ count d h. enter env adv_config_ceiling _ (floor-Timing count d h.0);
  any_hold = λ count d h. h;
  reverts = refl;
  timeout = λ d h. enter env adv_config_ceiling d h.0;
}
table-Moves env home at adv_config_ceiling = record {
  click_calls = tt;
  click_nodes = tt;
  hold_calls = tt;
  hold_nodes = tt;
  release = λ d h. h;
  any_click = λ count d h. enter env adv_on _ (ceiling-Timing count d h.0);
  any_hold = λ count d h. h;
  reverts = refl;
  timeout = λ d h. enter env adv_on d h.0;
}
table-Moves env home at adv_aux_config = record {
  click_calls = tt;
  click_nodes =
      ((λ d _ h. enter env adv_off d tt), ((λ d _ h. enter env adv_aux_config d h.0), tt));
  hold_calls = tt;
  hold_nodes = tt;
  release = λ d h. h;
  any_click = λ count d h. h;
  any_hold = λ count d h. h;
  reverts = refl;
  timeout = λ d h. off-Enters env home at d;
}
table-Moves env home at adv_cal_voltage = record {
  click_calls = tt;
  click_nodes = tt;
  hold_calls = tt;
  hold_nodes = tt;
  release = λ d h. h;
  any_click = λ count d h. enter env adv_battcheck _ (voltage-Timing env count d h.0);
  any_hold = λ count d h. h;
  reverts = refl;
  timeout = λ d h. enter env adv_battcheck d h.0;
}
table-Moves env home at adv_cal_thermal_current = record {
  click_calls = tt;
  click_nodes = tt;
  hold_calls = tt;
  hold_nodes = tt;
  release = λ d h. h;
  any_click = λ count d h. enter env adv_cal_thermal_limit _ (thermal-Timing env count d h.0);
  any_hold = λ count d h. h;
  reverts = refl;
  timeout = λ d h. enter env adv_cal_thermal_limit d h.0;
}
table-Moves env home at adv_cal_thermal_limit = record {
  click_calls = tt;
  click_nodes = tt;
  hold_calls = tt;
  hold_nodes = tt;
  release = λ d h. h;
  any_click = λ count d h. enter env adv_tempcheck _ (limit-Timing count d h.0);
  any_hold = λ count d h. h;
  reverts = refl;
  timeout = λ d h. enter env adv_tempcheck d h.0;
}
table-Moves env home at adv_blink = record {
  click_calls = tt;
  click_nodes = tt;
  hold_calls = tt;
  hold_nodes = tt;
  release = λ d h. h;
  any_click = λ count d h. h;
  any_hold = λ count d h. h;
  reverts = refl;
  timeout = λ d h. off-Enters env home at d;
}
table-Moves env home at adv_party_strobe = record {
  click_calls = tt;
  click_nodes = tt;
  hold_calls = tt;
  hold_nodes = tt;
  release = λ d h. h;
  any_click = λ count d h. h;
  any_hold = λ count d h. h;
  reverts = refl;
  timeout = λ d h. off-Enters env home at d;
}
table-Moves env home at adv_config_steps = record {
  click_calls = tt;
  click_nodes = tt;
  hold_calls = tt;
  hold_nodes = tt;
  release = λ d h. h;
  any_click = λ count d h. h;
  any_hold = λ count d h. h;
  reverts = refl;
  timeout = λ d h. off-Enters env home at d;
}
