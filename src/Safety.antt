-- ===== src/Safety.antt =====
-- lib/safety_monitor.c: the thread that watches the sensors.
pub mod Shutdown
pub mod Stub
use zbeam.Base.{
  ℕ, ◌%◌, Bool, true, false, not, ◌&&◌, Option, none, some, List, [], ◌∷◌, ◌++◌, map, ltb,
  if◌then◌else◌,
}
use zbeam.Base.Int.{ℤ, pos, ◌-ℤ◌, quot, ltb_ℤ, wrap}
use zbeam.Msg.{MsgType, safety_shutdown, safety_thermal_warn, ZbeamMsg}

-- `enum safety_fault`.
pub data SafetyFault : Type 0 where
  safety_ok overcurrent overtemp undervoltage overvoltage : SafetyFault

-- `safety_readings_t`.
pub record Readings : Type 0 where
  pub temperature_c10 : ℤ  -- int16_t
  pub current_ma : ℕ  -- uint16_t
  pub voltage_mv : ℕ  -- uint16_t

-- `read_sensors`, for what `safety_mock_readings` points at: a test may set it, and nothing else does.
-- Without it the readings are constants.
unfoldable pub read_sensors : Option Readings → Readings
read_sensors (some mock) = mock
read_sensors none = record { temperature_c10 = pos 250; current_ma = 500; voltage_mv = 3700 }

-- The thresholds of the configuration.
pub record Limits : Type 0 where
  pub temp_warn_c10 : ℕ
  pub temp_shutdown_c10 : ℕ
  pub current_max_ma : ℕ
  pub voltage_min_mv : ℕ
  pub voltage_max_mv : ℕ

-- The Kconfig defaults.
abbrev pub default_limits : Limits
default_limits = record {
  temp_warn_c10 = 600;
  temp_shutdown_c10 = 750;
  current_max_ma = 2500;
  voltage_min_mv = 2900;
  voltage_max_mv = 4200;
}

-- The static variables, without the pointer to the mock readings.
pub record Safety : Type 0 where
  pub current_fault : SafetyFault
  pub last_readings : Readings
  pub shutdown_triggered : Bool

-- Their initial values.
abbrev pub safety_reset : Safety
safety_reset = record {
  current_fault = safety_ok;
  last_readings = record { temperature_c10 = pos 0; current_ma = 0; voltage_mv = 0 };
  shutdown_triggered = false;
}

-- `fault` of one round.
unfoldable pub check_fault : Limits → Readings → SafetyFault
check_fault l r =
    if ltb l.current_max_ma r.current_ma
    then overcurrent
    else if ltb_ℤ (pos l.temp_shutdown_c10) r.temperature_c10
    then overtemp
    else if ltb r.voltage_mv l.voltage_min_mv
    then undervoltage
    else if ltb l.voltage_max_mv r.voltage_mv
    then overvoltage
    else safety_ok

abbrev pub is_safe : SafetyFault → Bool
is_safe safety_ok = true
is_safe _ = false

abbrev pub shutdown_msg : ZbeamMsg
shutdown_msg = record { type = safety_shutdown; count = 0; severity = 255 }

-- The new state and the messages that it posts.
unfoldable pub safety_emergency_shutdown : Safety → Safety × List ZbeamMsg
safety_emergency_shutdown s =
    if s.shutdown_triggered
    then (s, [])
    else (record s { shutdown_triggered = true }, shutdown_msg ∷ [])

-- `severity`, as a uint8_t.
unfoldable pub warn_severity : Limits → Readings → ℕ
warn_severity l r = wrap 256 (quot (r.temperature_c10 -ℤ pos l.temp_warn_c10) 10)

-- One round of the loop of `safety_thread_entry`, for what `read_sensors` returns: the new state
-- and the messages that it posts.
unfoldable pub safety_round : Limits → Readings → Safety → Safety × List ZbeamMsg
unfolding safety_emergency_shutdown
safety_round l r s0 =
    let s = record s0 { last_readings = r } in
    let fault = check_fault l r in
    if not (is_safe fault) && not s.shutdown_triggered
    then safety_emergency_shutdown (record s { current_fault = fault })
    else if ltb_ℤ (pos l.temp_warn_c10) r.temperature_c10 && is_safe s.current_fault
    then (s, record { type = safety_thermal_warn; count = 0; severity = warn_severity l r } ∷ [])
    else if is_safe fault
    then (record s { current_fault = safety_ok }, [])
    else (s, [])

unfoldable pub safety_get_status : Safety → SafetyFault
safety_get_status s = s.current_fault

unfoldable pub safety_get_readings : Safety → Readings
safety_get_readings s = s.last_readings

unfoldable pub safety_is_shutdown : Safety → Bool
safety_is_shutdown s = s.shutdown_triggered

-- The rounds for a list of readings: the last state and all messages, in order.
unfoldable pub safety_run : Limits → List Readings → Safety → Safety × List ZbeamMsg
safety_run l [] s = (s, [])
safety_run l (r ∷ rs) s =
    let (s1, ms) = safety_round l r s in let (s2, ns) = safety_run l rs s1 in (s2, ms ++ ns)

-- The loop of `safety_thread_entry`, for what the mock pointer is in each round.
unfoldable pub safety_thread_entry :
    Limits → List (Option Readings) → Safety → Safety × List ZbeamMsg
unfolding safety_run read_sensors
safety_thread_entry l mocks s = safety_run l (map read_sensors mocks) s
