-- ===== src/Batt/Accuracy.antt =====
-- How accurate the blinks and the calibration of src/batt_check.c are.
use zbeam.Base.{ℕ, ◌+◌, ◌-◌, ◌*◌, ◌≤◌, ◌<◌, ◌≡◌, arith}
use zbeam.Base.Int.{ℤ, pos, negsuc, ◌+ℤ◌, ◌-ℤ◌, ◌*ℤ◌, quot}
use zbeam.Env.{Env, millivolts}
use zbeam.Batt.{
  Batt, offset_mv, final_mv, divided_mv, read_voltage, batt_read_voltage_mv, batt_calculate_blinks,
  stored_units, batt_calibrate_voltage,
}

-- The blinks are at most 4 and at most 9; a voltage of 2500 to 4500 mV is shown to the nearest
-- 100 mV, and one outside as the nearer bound.
pub blinks-nearest :
    (mv : ℕ)
    → let (major, minor) = batt_calculate_blinks mv in
      (major ≤ 4)
      × (minor ≤ 9)
      × (2500 ≤ mv → mv ≤ 4500 → mv ≤ (major * 10 + minor) * 100 + 50)
      × (2500 ≤ mv → mv ≤ 4500 → (major * 10 + minor) * 100 ≤ mv + 50)
      × (mv < 2500 → (major ≡ 2) × (minor ≡ 5))
      × (4500 < mv → (major ≡ 4) × (minor ≡ 5))
unfolding batt_calculate_blinks
blinks-nearest mv = ground arith

-- A reading with no clipping.
final_mv-value : (m c : ℕ) → 10000 ≤ m + c * 100 → final_mv m (offset_mv c) ≡ m + c * 100 - 10000
unfolding final_mv offset_mv ◌+ℤ◌ ◌-ℤ◌ ◌*ℤ◌
final_mv-value m c h = ground arith

read-value :
    (env : Env) (v : ℤ) (b : Batt)
    → env.adc ≡ millivolts v
    → 10000 ≤ divided_mv env.divider v + b.cal_offset * 100
    → divided_mv env.divider v + b.cal_offset * 100 < 75536
    → batt_read_voltage_mv env b ≡ divided_mv env.divider v + b.cal_offset * 100 - 10000
unfolding batt_read_voltage_mv read_voltage
read-value env v b e lo hi =
    rw (e, read_voltage, final_mv-value (divided_mv env.divider v) b.cal_offset lo) (omega arith)

needed-value :
    (m c actual : ℕ)
    → 10000 ≤ m + c * 100
    → m ≤ actual
    → pos actual -ℤ (pos (m + c * 100 - 10000) -ℤ offset_mv c) ≡ pos (actual - m)
unfolding offset_mv ◌-ℤ◌ ◌*ℤ◌
needed-value m c actual lo h = ground arith

-- The stored byte for an offset that is not negative is the nearest, if it fits.
stored-nearest :
    (n : ℕ)
    → n < 15550
    → (stored_units (pos n) * 100 ≤ n + 10050) × (n + 10000 ≤ stored_units (pos n) * 100 + 50)
unfolding stored_units quot ◌+ℤ◌
stored-nearest n h = ground arith

-- A needed offset of -149 to -51 mV is stored as the byte 100, which stands for no offset.
pub negative-rounding : (n : ℕ) → 50 ≤ n → n ≤ 148 → stored_units (negsuc n) ≡ 100
unfolding stored_units quot ◌+ℤ◌
negative-rounding n a b = ground arith

module _ (env : Env) (v : ℤ) (b : Batt) (actual : ℕ) where
  abbrev raw : ℕ
  raw = divided_mv env.divider v

  calibrate-offset :
      env.adc ≡ millivolts v
      → 10000 ≤ raw + b.cal_offset * 100
      → raw + b.cal_offset * 100 < 75536
      → raw ≤ actual
      → (batt_calibrate_voltage env actual b).cal_offset ≡ stored_units (pos (actual - raw))
  unfolding batt_calibrate_voltage
  calibrate-offset e lo hi up =
      rw (read-value env v b e lo hi, needed-value raw b.cal_offset actual lo up)

  -- After a calibration to a voltage at or above the measured one, by less than 15.55 V, and
  -- below 65 V, the same measurement reads as that voltage to within 50 mV, if the reading
  -- before was cut off neither at 0 nor at 16 bits.
  pub calibrate-accurate :
      env.adc ≡ millivolts v
      → 10000 ≤ raw + b.cal_offset * 100
      → raw + b.cal_offset * 100 < 75536
      → raw ≤ actual
      → actual < raw + 15550
      → actual < 65000
      → let read = batt_read_voltage_mv env (batt_calibrate_voltage env actual b) in
        (actual ≤ read + 50) × (read ≤ actual + 50)
  calibrate-accurate e lo hi up near small =
      let cal = calibrate-offset e lo hi up in
      let s = stored-nearest (actual - raw) (omega arith) in
      let again = read-value env v (batt_calibrate_voltage env actual b) e in
      omega (arith, cal, s, again (omega (arith, cal, s)) (omega (arith, cal, s)))
