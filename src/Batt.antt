-- ===== src/Batt.antt =====
-- src/batt_check.c: the battery voltage, its calibration and how it is blinked.
pub mod Accuracy
use zbeam.Base.{ℕ, ◌+◌, ◌*◌, ◌/◌, ◌%◌, ◌^◌, ltb, if◌then◌else◌}
use zbeam.Base.Int.{ℤ, pos, negsuc, ◌+ℤ◌, ◌-ℤ◌, ◌*ℤ◌, quot, ltb_ℤ, wrap}
use zbeam.Env.{Env, AdcRead, adc_not_ready, adc_failed, millivolts}
use zbeam.Nvs.{nvs_read_byte, id_batt_calib_offset}

-- The static variable; it starts at 100, which stands for no offset.
pub record Batt : Type 0 where
  pub cal_offset : ℕ  -- uint8_t

-- `batt_init`; `driver` is `nvs_read` of one byte. With the ADC not ready it returns at once.
unfoldable pub batt_init : (driver : ℕ → ℤ × ℕ) → AdcRead → Batt → Batt
batt_init driver adc_not_ready b = b
batt_init driver _ b = record b {
  cal_offset = (nvs_read_byte driver id_batt_calib_offset b.cal_offset).1;
}

-- `((int32_t)batt_cal_offset - 100) * 100`.
unfoldable pub offset_mv : ℕ → ℤ
offset_mv cal_offset = (pos cal_offset -ℤ pos 100) *ℤ pos 100

-- `final_mv` before it becomes a uint16_t: the measured voltage and the offset, at least 0.
unfoldable pub final_mv : (batt_mv : ℕ) → (offset : ℤ) → ℕ
final_mv batt_mv offset =
    let final = pos batt_mv +ℤ offset in elim final [ pos n ↦ n | negsuc n ↦ 0 ]

-- `(uint32_t)val_mv * divider / 1000`.
unfoldable pub divided_mv : (divider : ℕ) → ℤ → ℕ
unfolding wrap
divided_mv divider val_mv = wrap (2 ^ 32) val_mv * divider % 2 ^ 32 / 1000

unfoldable pub read_voltage : (divider : ℕ) → AdcRead → Batt → ℕ
read_voltage divider adc_not_ready b = 3800
read_voltage divider adc_failed b = 3800
read_voltage divider (millivolts val_mv) b =
    final_mv (divided_mv divider val_mv) (offset_mv b.cal_offset) % 65536

unfoldable pub batt_read_voltage_mv : Env → Batt → ℕ
batt_read_voltage_mv env b = read_voltage env.divider env.adc b

-- `*major` and `*minor`.
unfoldable pub batt_calculate_blinks : ℕ → ℕ × ℕ
batt_calculate_blinks mv =
    let low = if ltb mv 2500 then 2500 else mv in
    let high = if ltb 4500 low then 4500 else low in
    let rounded = (high + 50) / 100 in (rounded / 10, rounded % 10)

-- `stored`, clamped, for the offset in mV that is needed.
unfoldable pub stored_units : ℤ → ℕ
stored_units needed =
    let stored = quot (needed +ℤ pos 50) 100 +ℤ pos 100 in
    elim stored [ pos n ↦ (if ltb 255 n then 255 else n) | negsuc n ↦ 0 ]

-- The new state; its offset is also the byte written to NVS_ID_BATT_CALIB_OFFSET.
unfoldable pub batt_calibrate_voltage : Env → ℕ → Batt → Batt
batt_calibrate_voltage env actual_mv b =
    let measured_raw = pos (batt_read_voltage_mv env b) -ℤ offset_mv b.cal_offset in
    record b { cal_offset = stored_units (pos actual_mv -ℤ measured_raw) }
