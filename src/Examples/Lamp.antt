-- ===== src/Examples/Lamp.antt =====
-- A lamp with two emitters, and what it reads at one moment.
use zbeam.Base.{true, false, some, [], ◌∷◌}
use zbeam.Base.Int.{pos, negsuc}
use zbeam.Env.{Env, sample, millivolts}
use zbeam.Kernel.{stopped, started}
use zbeam.Msg.{ZbeamMsg, input_tap}
use zbeam.Fsm.{Machine, fsm_unset}
use zbeam.Thermal.{thermal_reset}
use zbeam.Channel.{fifty_fifty}
use zbeam.Aux.{off}
use zbeam.Node.{Node, simple_off}
use zbeam.Ui.Device.{Ui, Device, ui_simple, mem_auto, ramp_smooth, strobe_party, param_brightness}

abbrev pub env : Env
env = record {
  uptime = 5000;
  random = λ _. 7;
  sensor = sample (pos 40) (pos 500000);
  adc = millivolts (pos 600);
  divider = 6000;
  nvs_read = λ _. (negsuc 1, 0);
  nvs_read_unmounted = λ _. (negsuc 12, 0);
  aux_ready = true;
}

abbrev pub ui : Ui
ui = record {
  current_ui_mode = ui_simple;
  current_mem_mode = mem_auto;
  hybrid_timeout_ms = 300000;
  manual_mem_level = 120;
  current_brightness = 60;
  override_brightness = 0;
  memorized_brightness = 128;
  brightness_floor = 1;
  brightness_ceiling = 150;
  current_ramp_style = ramp_smooth;
  current_strobe_mode = strobe_party;
  stepped_ramp_steps = 7;
  strobe_timer = stopped;
  strobe_frequency = 128;
  strobe_on = false;
  party_mode = false;
  ramp_timer = started 7 7;
  ramp_direction = pos 1;
  ramp_active = true;
  active_param = param_brightness;
  thermal_timer = started 500 500;
  bike_counter = 0;
  last_off_time = 0;
  buzz_timer = stopped;
  buzz_state = false;
}

abbrev pub lamp : Device
lamp = record {
  ui = ui;
  thermal = thermal_reset 45;
  channel = record { emitters = 1000000 ∷ 1000000 ∷ []; current_mode = fifty_fifty };
  pm = record { is_suspended = false };
  aux = record { current_mode = off; period = 1000; timer = stopped; ticks = 0; sine_index = 0 };
  batt = record { cal_offset = 100 };
  calls = [];
}

abbrev pub unset : Machine Node Device
unset = record { fsm = fsm_unset Node; rest = lamp }

abbrev pub at_off : Machine Node Device
at_off = record {
  fsm = record (fsm_unset Node) { current_node = some simple_off; home_node = some simple_off };
  rest = lamp;
}

abbrev pub one_tap : ZbeamMsg
one_tap = record { type = input_tap; count = 1; severity = 0 }
