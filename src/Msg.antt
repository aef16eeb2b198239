-- ===== src/Msg.antt =====
-- include/zbeam_msg.h: the messages of the worker's queue.
use zbeam.Base.{ℕ}

-- `enum zbeam_msg_type`.
pub data MsgType : Type 0 where
  input_tap input_hold_start input_hold_release : MsgType
  timeout_inactivity timeout_ramp_tick : MsgType
  safety_shutdown safety_thermal_warn : MsgType
  system_shutdown : MsgType

-- `struct zbeam_msg`, without its padding byte. Members that an initialiser leaves out are 0.
pub record ZbeamMsg : Type 0 where
  pub type : MsgType
  pub count : ℕ  -- uint8_t
  pub severity : ℕ  -- uint8_t

pub MsgType-discrete : Discrete MsgType
MsgType-discrete = hlevel
