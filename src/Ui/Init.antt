-- ===== src/Ui/Init.antt =====
-- `ui_init` of src/ui_actions.c, with CONFIG_ZBEAM_NVS_ENABLED.
use zbeam.Base.{ℕ, ◌*◌, Bool, ◌++◌, ◌==◌, if◌then◌else◌, ◌|>◌}
use zbeam.Base.Int.{ℤ}
use zbeam.Env.{Env}
use zbeam.Kernel.{stopped}
use zbeam.Nvs.{
  nvs_read_byte, is_ok, id_ramp_floor, id_ramp_ceiling, id_mem_brightness, id_ui_mode,
  id_memory_mode, id_manual_mem_level, id_hybrid_timeout, id_ramp_style,
}
use zbeam.Thermal.{thermal_init}
use zbeam.Batt.{batt_init}
use zbeam.Pm.{pm_init}
use zbeam.Channel.{channel_init}
use zbeam.Aux.{aux_init}
use zbeam.Ui.Device.{
  Ui, Device, UiMode, ui_simple, ui_advanced, MemoryMode, mem_auto, mem_manual, mem_hybrid,
  RampStyle, ramp_smooth, ramp_stepped, ramp_unnamed, on_ui,
}

-- The casts of a stored byte to an enumeration. The firmware compares a mode with UI_SIMPLE only,
-- and a memory mode with the two constants that are not the default; of ramp styles it writes 0
-- and 1 only.
unfoldable pub mode_of_byte : ℕ → UiMode
mode_of_byte b = if b == 0 then ui_simple else ui_advanced

unfoldable pub memory_of_byte : ℕ → MemoryMode
memory_of_byte b = if b == 1 then mem_manual else if b == 2 then mem_hybrid else mem_auto

unfoldable pub style_of_byte : ℕ → RampStyle
style_of_byte b = if b == 0 then ramp_smooth else if b == 1 then ramp_stepped else ramp_unnamed b

module _ (driver : ℕ → ℤ × ℕ) where
  -- `nvs_read_byte(id, &variable)`, for a variable that keeps its value if nothing is read.
  unfoldable pub loaded : (id old : ℕ) → ℕ
  unfolding nvs_read_byte
  loaded id old = (nvs_read_byte driver id old).1

  -- `if (nvs_read_byte(id, &byte) == 0) variable = f(byte);`, with `byte` 0 before.
  unfoldable pub loaded_as {ℓ} : {A : Type ℓ} → (id : ℕ) → (ℕ → A) → A → A
  unfolding nvs_read_byte
  loaded_as id f old =
      let (rc, byte) = nvs_read_byte driver id 0 in if is_ok rc then f byte else old

  -- The reads of `ui_init` after `nvs_init_fs`.
  unfoldable pub load_settings : Ui → Ui
  unfolding loaded loaded_as mode_of_byte memory_of_byte style_of_byte
  load_settings u = record u {
    memorized_brightness = loaded id_mem_brightness u.memorized_brightness;
    brightness_floor = loaded id_ramp_floor u.brightness_floor;
    brightness_ceiling = loaded id_ramp_ceiling u.brightness_ceiling;
    current_ui_mode = loaded_as id_ui_mode mode_of_byte u.current_ui_mode;
    current_mem_mode = loaded_as id_memory_mode memory_of_byte u.current_mem_mode;
    manual_mem_level = loaded id_manual_mem_level u.manual_mem_level;
    hybrid_timeout_ms =
        loaded_as id_hybrid_timeout (λ minutes. minutes * 60 * 1000) u.hybrid_timeout_ms;
    current_ramp_style = loaded_as id_ramp_style style_of_byte u.current_ramp_style;
  }

init_aux : Bool → Device → Device
unfolding aux_init
init_aux ready d =
    let (aux, calls) = aux_init ready d.aux in record d { aux = aux; calls = calls ++ d.calls }

-- `default_mode` is UI_ADVANCED with CONFIG_ZBEAM_DEFAULT_UI_MODE_ADVANCED, and else UI_SIMPLE.
-- The parts that come first read the storage before `nvs_init_fs` mounts it.
unfoldable pub ui_init : UiMode → Env → Device → Device
unfolding thermal_init batt_init pm_init channel_init init_aux load_settings
ui_init default_mode env d =
    record d {
      ui = record (d.ui) { ramp_timer = stopped; strobe_timer = stopped; thermal_timer = stopped };
      thermal = thermal_init env.nvs_read_unmounted d.thermal;
      batt = batt_init env.nvs_read_unmounted env.adc d.batt;
      pm = pm_init d.pm;
      channel = channel_init d.channel;
    }
    |> init_aux env.aux_ready
    |> on_ui (λ u. record u { memorized_brightness = 128; current_ui_mode = default_mode })
    |> on_ui (load_settings env.nvs_read)
