-- ===== src/Ui/Device.antt =====
-- The globals of the firmware: the static variables of src/ui_actions.c, the state of the parts
-- that it drives, and the calls made so far.
use zbeam.Base.{ℕ, Bool, List, [], ◌∷◌}
use zbeam.Base.Int.{ℤ}
use zbeam.Kernel.{Timer, Call, set_pulses, sleep, write_byte}
use zbeam.Thermal.{Thermal}
use zbeam.Channel.{Channel, channel_apply_mix}
use zbeam.Pm.{Pm}
use zbeam.Aux.{Aux}
use zbeam.Batt.{Batt}

-- `enum ui_mode`.
pub data UiMode : Type 0 where
  ui_simple ui_advanced : UiMode

-- `enum memory_mode`.
pub data MemoryMode : Type 0 where
  mem_auto mem_manual mem_hybrid : MemoryMode

-- `enum ramp_style`, and a stored byte that names neither.
pub data RampStyle : Type 0 where
  ramp_smooth ramp_stepped : RampStyle
  ramp_unnamed : (byte : ℕ) → RampStyle

-- `enum strobe_type`.
pub data StrobeType : Type 0 where
  strobe_party strobe_tactical strobe_candle strobe_bike : StrobeType

-- `enum control_param`.
pub data ControlParam : Type 0 where
  param_brightness param_frequency : ControlParam

-- The static variables of ui_actions.c.
pub record Ui : Type 0 where
  pub current_ui_mode : UiMode
  pub current_mem_mode : MemoryMode
  pub hybrid_timeout_ms : ℕ  -- uint32_t
  pub manual_mem_level : ℕ  -- uint8_t, as the levels below
  pub current_brightness : ℕ
  pub override_brightness : ℕ
  pub memorized_brightness : ℕ
  pub brightness_floor : ℕ
  pub brightness_ceiling : ℕ
  pub current_ramp_style : RampStyle
  pub current_strobe_mode : StrobeType
  pub stepped_ramp_steps : ℕ  -- uint8_t
  pub strobe_timer : Timer
  pub strobe_frequency : ℕ  -- uint8_t
  pub strobe_on : Bool
  pub party_mode : Bool
  pub ramp_timer : Timer
  pub ramp_direction : ℤ  -- int
  pub ramp_active : Bool
  pub active_param : ControlParam
  pub thermal_timer : Timer
  pub bike_counter : ℕ  -- uint32_t
  pub last_off_time : ℕ  -- int64_t
  pub buzz_timer : Timer
  pub buzz_state : Bool

pub record Device : Type 0 where
  pub ui : Ui
  pub thermal : Thermal
  pub channel : Channel
  pub pm : Pm
  pub aux : Aux
  pub batt : Batt
  -- newest first
  pub calls : List Call

abbrev pub on_ui : (Ui → Ui) → Device → Device
on_ui f d = record d { ui = f d.ui }

abbrev pub on_pm : (Pm → Pm) → Device → Device
on_pm f d = record d { pm = f d.pm }

abbrev pub emit : Call → Device → Device
emit c d = record d { calls = c ∷ d.calls }

unfoldable pub update_led_hardware : ℕ → Device → Device
update_led_hardware level d = record d {
  calls = set_pulses (channel_apply_mix d.thermal d.channel level) ∷ d.calls;
}

abbrev pub k_msleep : ℕ → Device → Device
k_msleep ms = emit (sleep ms)

abbrev pub nvs_write_byte : ℕ → ℕ → Device → Device
nvs_write_byte id value = emit (write_byte id value)

-- The pulses that the emitters were last given.
abbrev pub pulses : List Call → List ℕ
pulses [] = []
pulses (set_pulses ps ∷ cs) = ps
pulses (c ∷ cs) = pulses cs

-- The light of a level.
abbrev pub light : Device → ℕ → List ℕ
light d level = channel_apply_mix d.thermal d.channel level
