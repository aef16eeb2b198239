-- ===== src/Ui/Settings.antt =====
-- The settings of src/ui_actions.c: what a menu or a toggle stores in lib/nvs_manager.c, and what
-- `ui_init` reads of it.
use zbeam.Base.{
  ℕ, ◌%◌, ◌≡◌, ◌<◌, ◌≤◌, refl, ◌∙◌, arith, true, ltb, ◌==◌, Option, none, some, List, [], ◌∷◌,
  if◌then◌else◌,
}
use zbeam.Base.Int.{ℤ, pos, negsuc}
use zbeam.Env.{Env, AdcRead, adc_not_ready, adc_failed, millivolts}
use zbeam.Kernel.{stopped, Call, write_byte, delete_id}
use zbeam.Node.{Node, adv_on, adv_config_ceiling}
use zbeam.Nvs.{
  nvs_read_byte, id_ramp_floor, id_ramp_ceiling, id_ui_mode, id_ramp_style, id_thermal_limit,
  id_temp_calib_offset, id_batt_calib_offset,
}
use zbeam.Thermal.{Thermal, thermal_init}
use zbeam.Batt.{Batt, batt_init}
use zbeam.Ui.Device.{
  Ui, Device, UiMode, ui_simple, ui_advanced, RampStyle, ramp_smooth, ramp_stepped, ramp_unnamed,
  update_led_hardware,
}
use zbeam.Ui.Strobe.{get_strobe_delay_ms}
use zbeam.Ui.Actions.{ui_toggle_mode, action_toggle_ramp_style, mode_byte, style_byte, other_style}
use zbeam.Ui.Config.{cb_config_floor_set, cb_config_ceiling_set, ceiling_of}
use zbeam.Ui.Init.{ui_init, load_settings, loaded, loaded_as, mode_of_byte, style_of_byte}

-- The last byte written under an id, in a log with the newest call first.
abbrev pub last_write : (id : ℕ) → List Call → Option ℕ
last_write id [] = none
last_write id (write_byte k v ∷ cs) = if k == id then some v else last_write id cs
last_write id (delete_id k ∷ cs) = if k == id then none else last_write id cs
last_write id (c ∷ cs) = last_write id cs

-- The driver reads back what was last written.
abbrev pub Recalls : (ℕ → ℤ × ℕ) → List Call → Type 0
Recalls driver calls =
    (id value : ℕ) → last_write id calls ≡ some value → driver id ≡ (pos 1, value)

loaded-of :
    (driver : ℕ → ℤ × ℕ) (id value old : ℕ)
    → driver id ≡ (pos 1, value)
    → loaded driver id old ≡ value
unfolding loaded nvs_read_byte
loaded-of driver id value old p = rw (loaded, p) refl

loaded_as-of :
    {A : Type 0} (driver : ℕ → ℤ × ℕ) (id value : ℕ) (f : ℕ → A) (old : A)
    → driver id ≡ (pos 1, value)
    → loaded_as driver id f old ≡ f value
unfolding loaded_as nvs_read_byte
loaded_as-of driver id value f old p = rw p refl

mode_of_byte-mode_byte : (m : UiMode) → mode_of_byte (mode_byte m) ≡ m
unfolding mode_of_byte
mode_of_byte-mode_byte ui_simple = refl
mode_of_byte-mode_byte ui_advanced = refl

style_of_byte-style_byte :
    (s : RampStyle) → style_of_byte (style_byte (other_style s)) ≡ other_style s
unfolding style_of_byte
style_of_byte-style_byte ramp_smooth = refl
style_of_byte-style_byte ramp_stepped = refl
style_of_byte-style_byte (ramp_unnamed _) = refl

-- If the storage reads back what was last written, the settings that `ui_init` loads, whatever
-- they were before, are those in force after the user interface or the ramp style was toggled,
-- and after a floor or a ceiling was set with one click or more.
pub load_settings-restores :
    (driver : ℕ → ℤ × ℕ) (u : Ui) (d : Device) (self : Node) (count : ℕ)
    → 0 < count
    → let mode = (ui_toggle_mode d).1 in
      let style = (action_toggle_ramp_style d).1 in
      let low = (cb_config_floor_set self count d).1 in
      let high = (cb_config_ceiling_set self count d).1 in
      let booted = load_settings driver u in
      (Recalls driver mode.calls → booted.current_ui_mode ≡ mode.ui.current_ui_mode)
      × (Recalls driver style.calls → booted.current_ramp_style ≡ style.ui.current_ramp_style)
      × (Recalls driver low.calls → booted.brightness_floor ≡ low.ui.brightness_floor)
      × (Recalls driver high.calls → booted.brightness_ceiling ≡ high.ui.brightness_ceiling)
unfolding load_settings ui_toggle_mode action_toggle_ramp_style cb_config_floor_set
    cb_config_ceiling_set update_led_hardware
load_settings-restores driver u d self count h =
    let counted : ltb 0 count ≡ true = ground arith in
    let mode = (ui_toggle_mode d).1.ui.current_ui_mode in
    let style = (action_toggle_ramp_style d).1.ui.current_ramp_style in
    rw counted (
      λ r.
          loaded_as-of driver id_ui_mode (mode_byte mode) mode_of_byte _ (r id_ui_mode _ refl)
          ∙ mode_of_byte-mode_byte mode,
      λ r.
          loaded_as-of driver id_ramp_style (style_byte style) style_of_byte _
            (r id_ramp_style _ refl)
          ∙ style_of_byte-style_byte d.ui.current_ramp_style,
      λ r. loaded-of driver id_ramp_floor _ _ (r id_ramp_floor _ refl),
      λ r. loaded-of driver id_ramp_ceiling _ _ (r id_ramp_ceiling _ refl),
    )

ceiling_of-above :
    (floor count : ℕ)
    → floor < 255
    → (floor ≤ ceiling_of floor count) × (ceiling_of floor count < 256)
unfolding ceiling_of
ceiling_of-above floor count h = ground arith

-- The ramp menu, with a click at least for the floor and for the ceiling, and a floor below 255,
-- leads to the ceiling's node and back to `on`, leaves the buzz timer stopped, sets the floor to
-- the number of clicks modulo 256, and a ceiling that fits in a byte and is not below the floor.
pub config-ordered :
    (a b : Node) (n m : ℕ) (d : Device)
    → 0 < n
    → 0 < m
    → n % 256 < 255
    → let (to_ceiling, d1) = cb_config_floor_set a n d in
      let (to_on, e) = cb_config_ceiling_set b m d1 in
      (to_ceiling ≡ some adv_config_ceiling)
      × (to_on ≡ some adv_on)
      × (e.ui.buzz_timer ≡ stopped)
      × (e.ui.brightness_floor ≡ n % 256)
      × (e.ui.brightness_floor ≤ e.ui.brightness_ceiling)
      × (e.ui.brightness_ceiling < 256)
unfolding cb_config_floor_set cb_config_ceiling_set
config-ordered a b n m d p q r =
    let low : ltb 0 n ≡ true = ground arith in
    let high : ltb 0 m ≡ true = ground arith in
    let (above, byte) = ceiling_of-above (n % 256) m r in
    rw (low, high) (refl, refl, refl, refl, above, byte)

-- For frequencies up to 255 the delay of a strobe lies between 12 and 500 ms and does not rise
-- with the frequency.
pub strobe_delay-bounds :
    (f g : ℕ)
    → f ≤ g
    → g ≤ 255
    → (12 ≤ get_strobe_delay_ms g)
      × (get_strobe_delay_ms g ≤ get_strobe_delay_ms f)
      × (get_strobe_delay_ms f ≤ 500)
unfolding get_strobe_delay_ms
strobe_delay-bounds f g a b = ground arith

-- Every read fails with -EACCES, as `nvs_read` does before `nvs_mount`.
abbrev pub Unmounted : (ℕ → ℤ × ℕ) → Type 0
Unmounted driver = (id : ℕ) → (driver id).0 ≡ negsuc 12

thermal_init-Unmounted :
    (driver : ℕ → ℤ × ℕ) (t : Thermal) → Unmounted driver → thermal_init driver t ≡ t
unfolding thermal_init nvs_read_byte
thermal_init-Unmounted driver t h = rw (h id_thermal_limit, h id_temp_calib_offset) refl

batt_init-Unmounted :
    (driver : ℕ → ℤ × ℕ) (adc : AdcRead) (b : Batt) → Unmounted driver → batt_init driver adc b ≡ b
unfolding batt_init nvs_read_byte
batt_init-Unmounted driver adc_not_ready b h = refl
batt_init-Unmounted driver adc_failed b h = rw (h id_batt_calib_offset) refl
batt_init-Unmounted driver (millivolts v) b h = rw (h id_batt_calib_offset) refl

-- If reads fail with -EACCES before the storage is mounted, `ui_init` leaves the thermal limit, the
-- temperature offset and the battery calibration as they were, whatever the storage holds.
pub ui_init-uncalibrated :
    (m : UiMode) (env : Env) (d : Device)
    → Unmounted env.nvs_read_unmounted
    → let e = ui_init m env d in (e.thermal ≡ d.thermal) × (e.batt ≡ d.batt)
unfolding ui_init
ui_init-uncalibrated m env d h = (
  thermal_init-Unmounted env.nvs_read_unmounted d.thermal h,
  batt_init-Unmounted env.nvs_read_unmounted env.adc d.batt h,
)
