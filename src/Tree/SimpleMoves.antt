-- ===== src/Tree/SimpleMoves.antt =====
-- Every way out of a node of src/ui_simple.c, for which timers run where.
use zbeam.Base.{refl, false}
use zbeam.Env.{Env}
use zbeam.Fsm.Within.{Moves}
use zbeam.Node.{
  Node, simple_off, simple_on, simple_ramp, simple_turbo, simple_lockout, simple_battcheck,
}
use zbeam.Ui.Ramp.{start_ramping}
use zbeam.Ui.Actions.{ui_toggle_mode}
use zbeam.Ui.Timers.{stop-Timing, moon-Timing, off-Timing}
use zbeam.Tree.Simple.{
  cb_simple_hold_from_off, cb_simple_hold_ramp_up, cb_simple_hold_ramp_down, cb_simple_ramp_release,
  cb_simple_lockout_momentary, cb_simple_lockout_release, cb_simple_unlock_floor, cb_10h_toggle,
}
use zbeam.Tree.Table.{table}
use zbeam.Tree.Confined.{
  IsSimple, by_off, by_on, by_ramp, by_moon, by_turbo, by_lockout, by_battcheck, by_reset,
}
use zbeam.Tree.Modes.{Fits, IsOff, enter, off-Enters, start-IsOff}

pub simple-Moves :
    (env : Env) (home : Node)
    → IsOff home
    → {self : Node} → IsSimple self
    → Moves (table env) Fits home self
unfolding table start_ramping cb_simple_hold_from_off cb_simple_hold_ramp_up
    cb_simple_hold_ramp_down cb_simple_ramp_release cb_simple_lockout_momentary
    cb_simple_lockout_release cb_simple_unlock_floor cb_10h_toggle ui_toggle_mode
simple-Moves env home at by_off = record {
  click_calls = tt;
  click_nodes = (
    (λ d _ h. enter env simple_on d h.0),
    (
      (λ d _ h. enter env simple_turbo d h.0),
      (
        (λ d _ h. enter env simple_battcheck d h.0),
        ((λ d _ h. enter env simple_lockout d h.0), tt),
      ),
    ),
  );
  hold_calls = (
    (λ count d h. enter env simple_ramp _ (refl, (moon-Timing d false h.0.0).1)),
    ((λ count d h. off-Enters env _ (start-IsOff (ui_toggle_mode d).1) (ui_toggle_mode d).1), tt),
  );
  hold_nodes = ((λ d e h. cc), ((λ d _ h. enter env simple_turbo d h.0), tt));
  release = λ d h. h;
  any_click = λ count d h. h;
  any_hold = λ count d h. h;
  reverts = refl;
  timeout = λ d h. off-Enters env home at d;
}
simple-Moves env home at by_on = record {
  click_calls = tt;
  click_nodes = (
    (λ d _ h. enter env simple_off d tt),
    ((λ d _ h. enter env simple_turbo d h.0), ((λ d _ h. enter env simple_lockout d h.0), tt)),
  );
  hold_calls = (
    (λ count d h. enter env simple_ramp _ (refl, h.0.1)),
    ((λ count d h. enter env simple_ramp _ (refl, h.0.1)), tt),
  );
  hold_nodes = ((λ d e h. cc), ((λ d e h. cc), tt));
  release = λ d h. h;
  any_click = λ count d h. h;
  any_hold = λ count d h. h;
  reverts = refl;
  timeout = λ d h. off-Enters env home at d;
}
simple-Moves env home at by_ramp = record {
  click_calls = tt;
  click_nodes = ((λ d _ h. enter env simple_off d tt), tt);
  hold_calls = tt;
  hold_nodes = tt;
  release = λ d h. enter env simple_on _ (stop-Timing d false h.0.1);
  any_click = λ count d h. h;
  any_hold = λ count d h. h;
  reverts = refl;
  timeout = λ d h. off-Enters env home at d;
}
simple-Moves env home at by_moon = record {
  click_calls = tt;
  click_nodes = ((λ d _ h. enter env simple_off d tt), tt);
  hold_calls = ((λ count d h. enter env simple_ramp _ (refl, h.0.1)), tt);
  hold_nodes = ((λ d e h. cc), tt);
  release = λ d h. h;
  any_click = λ count d h. h;
  any_hold = λ count d h. h;
  reverts = refl;
  timeout = λ d h. off-Enters env home at d;
}
simple-Moves env home at by_turbo = record {
  click_calls = tt;
  click_nodes = ((λ d _ h. enter env simple_off d tt), ((λ d _ h. enter env simple_on d h.0), tt));
  hold_calls = tt;
  hold_nodes = tt;
  release = λ d h. h;
  any_click = λ count d h. h;
  any_hold = λ count d h. h;
  reverts = refl;
  timeout = λ d h. off-Enters env home at d;
}
simple-Moves env home at by_lockout = record {
  click_calls = tt;
  click_nodes = (
    (λ d _ h. enter env simple_off d tt),
    ((λ d _ h. enter env simple_on d h.0), ((λ d _ h. enter env simple_turbo d h.0), tt)),
  );
  hold_calls = (
    (λ count d h. (moon-Timing d false h.0.0, λ o. elim o [ ], λ o. elim o [ ], refl)),
    ((λ count d h. enter env simple_on _ h.0), tt),
  );
  hold_nodes = tt;
  release = λ d h. ((off-Timing env d).0, λ o. elim o [ ], λ o. elim o [ ], refl);
  any_click = λ count d h. h;
  any_hold = λ count d h. h;
  reverts = refl;
  timeout = λ d h. off-Enters env home at d;
}
simple-Moves env home at by_battcheck = record {
  click_calls = tt;
  click_nodes = ((λ d _ h. enter env simple_off d tt), tt);
  hold_calls = tt;
  hold_nodes = tt;
  release = λ d h. h;
  any_click = λ count d h. h;
  any_hold = λ count d h. h;
  reverts = refl;
  timeout = λ d h. off-Enters env home at d;
}
simple-Moves env home at by_reset = record {
  click_calls = tt;
  click_nodes = tt;
  hold_calls = tt;
  hold_nodes = tt;
  release = λ d h. h;
  any_click = λ count d h. h;
  any_hold = λ count d h. h;
  reverts = refl;
  timeout = λ d h. off-Enters env home at d;
}
