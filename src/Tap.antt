-- ===== src/Tap.antt =====
-- lib/multi_tap_input.c: from key events and timers to taps and holds.
pub mod Trace
pub mod Gesture
pub mod Filter
use zbeam.Base.{ℕ, ◌+◌, ◌%◌, Bool, true, false, ◌&&◌, List, [], ◌∷◌, ◌++◌, ◌==◌, if◌then◌else◌}
use zbeam.Kernel.{Timer, stopped, started, runs}
use zbeam.Msg.{MsgType, input_tap, input_hold_start, input_hold_release, ZbeamMsg}

-- `enum multi_tap_state`.
pub data TapState : Type 0 where
  idle pressed wait_timeout : TapState

-- The static variables.
pub record Tap : Type 0 where
  pub current_state : TapState
  pub click_count : ℕ  -- int
  pub is_holding : Bool
  pub click_timer : Timer
  pub hold_timer : Timer
  pub click_timeout_ms : ℕ
  pub hold_duration_ms : ℕ

-- Their values at power-up, for the two Kconfig times.
abbrev pub tap_reset : (click_ms hold_ms : ℕ) → Tap
tap_reset click_ms hold_ms = record {
  current_state = idle;
  click_count = 0;
  is_holding = false;
  click_timer = stopped;
  hold_timer = stopped;
  click_timeout_ms = click_ms;
  hold_duration_ms = hold_ms;
}

-- `k_timer_init` stops the two timers; the other variables stay.
unfoldable pub multi_tap_input_init : Tap → Tap
multi_tap_input_init t = record t { click_timer = stopped; hold_timer = stopped }

-- `post_event`: the message given to `fsm_worker_post_msg`; the count becomes a uint8_t.
unfoldable pub post_event : MsgType → ℕ → ZbeamMsg
post_event type count = record { type = type; count = count % 256; severity = 0 }

-- A handler's new state and the messages that it posts.
abbrev pub Posts : Type 0
Posts = Tap × List ZbeamMsg

on_click_timer : TapState → Tap → Posts
unfolding post_event
on_click_timer wait_timeout t = (
  record t { click_count = 0; is_holding = false; current_state = idle },
  post_event input_tap t.click_count ∷ [],
)
on_click_timer _ t = (t, [])

unfoldable pub click_timer_handler : Tap → Posts
unfolding on_click_timer
click_timer_handler t = on_click_timer t.current_state t

on_hold_timer : TapState → Tap → Posts
unfolding post_event
on_hold_timer pressed t =
    (record t { is_holding = true }, post_event input_hold_start t.click_count ∷ [])
on_hold_timer _ t = (t, [])

unfoldable pub hold_timer_handler : Tap → Posts
unfolding on_hold_timer
hold_timer_handler t = on_hold_timer t.current_state t

key_down : TapState → Tap → Posts
key_down idle t = (
  record t { click_count = 1; current_state = pressed; hold_timer = started t.hold_duration_ms 0 },
  [],
)
key_down wait_timeout t = (
  record t {
    click_timer = stopped;
    click_count = t.click_count + 1;
    current_state = pressed;
    hold_timer = started t.hold_duration_ms 0;
  },
  [],
)
key_down pressed t = (t, [])

key_up : TapState → Tap → Posts
unfolding post_event
key_up pressed t =
    let released = record t { hold_timer = stopped } in
    if t.is_holding
    then (
      record released { click_count = 0; is_holding = false; current_state = idle },
      post_event input_hold_release t.click_count ∷ [],
    )
    else (
      record released { current_state = wait_timeout; click_timer = started t.click_timeout_ms 0 },
      [],
    )
key_up _ t = (t, [])

unfoldable pub process_key_event : (value : ℕ) → Tap → Posts
unfolding key_down key_up
process_key_event value t =
    if value == 1 then key_down t.current_state t else key_up t.current_state t

-- `INPUT_EV_KEY` and `INPUT_KEY_0` of Zephyr are arguments.
unfoldable pub input_cb : (ev_key key_0 type code value : ℕ) → Tap → Posts
unfolding process_key_event
input_cb ev_key key_0 type code value t =
    if type == ev_key && code == key_0 then process_key_event value t else (t, [])

unfoldable pub multi_tap_configure : (click_ms hold_ms : ℕ) → Tap → Tap
multi_tap_configure click_ms hold_ms t = record t {
  click_timeout_ms = click_ms;
  hold_duration_ms = hold_ms;
}

unfoldable pub multi_tap_input_reset : Tap → Tap
multi_tap_input_reset t = record t {
  click_timer = stopped;
  hold_timer = stopped;
  click_count = 0;
  current_state = idle;
  is_holding = false;
}

-- What can happen to the engine.
pub data TapEvent : Type 0 where
  key : (value : ℕ) → TapEvent
  click_expiry hold_expiry : TapEvent
  configure : (click_ms hold_ms : ℕ) → TapEvent

-- A timer expires only if it runs, and runs no longer then.
unfoldable pub tap_step : TapEvent → Tap → Posts
unfolding process_key_event click_timer_handler hold_timer_handler multi_tap_configure
tap_step (key value) t = process_key_event value t
tap_step click_expiry t =
    if runs t.click_timer then click_timer_handler (record t { click_timer = stopped }) else (t, [])
tap_step hold_expiry t =
    if runs t.hold_timer then hold_timer_handler (record t { hold_timer = stopped }) else (t, [])
tap_step (configure click_ms hold_ms) t = (multi_tap_configure click_ms hold_ms t, [])

-- A sequence of events: the last state and all messages, in order.
unfoldable pub tap_run : List TapEvent → Tap → Posts
tap_run [] t = (t, [])
tap_run (e ∷ es) t = let (t1, ms) = tap_step e t in let (t2, ns) = tap_run es t1 in (t2, ms ++ ns)
