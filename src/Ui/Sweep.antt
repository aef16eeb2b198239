-- ===== src/Ui/Sweep.antt =====
-- The smooth ramp of src/ui_actions.c: one tick, and a whole sweep.
use zbeam.Base.{ℕ, zero, suc, ◌+◌, ◌-◌, ◌≡◌, ◌≤◌, ◌<◌, refl, arith, ltb, ap, ◌∙◌, if◌then◌else◌}
use zbeam.Base.Int.{ℤ, pos, negsuc}
use zbeam.Ui.Device.{Device, ramp_smooth, param_brightness, light, pulses, update_led_hardware}
use zbeam.Ui.Ramp.{smooth_tick, ramp_timer_handler}

-- `n` ticks of the smooth branch, from a value and a direction.
unfoldable pub ticks : (floor ceiling n : ℕ) → ℕ × ℤ → ℕ × ℤ
ticks floor ceiling zero s = s
ticks floor ceiling (suc n) s = ticks floor ceiling n (smooth_tick s.0 floor ceiling s.1)

smooth_tick-between :
    (val floor ceiling : ℕ) (direction : ℤ)
    → floor ≤ val
    → val ≤ ceiling
    → ceiling < 256
    → (floor ≤ (smooth_tick val floor ceiling direction).0)
      × ((smooth_tick val floor ceiling direction).0 ≤ ceiling)
unfolding smooth_tick
smooth_tick-between val floor ceiling (pos zero) a b c = ground arith
smooth_tick-between val floor ceiling (pos (suc n)) a b c = ground arith
smooth_tick-between val floor ceiling (negsuc n) a b c = ground arith

smooth_tick-up :
    (val floor ceiling : ℕ)
    → suc val < ceiling
    → ceiling < 256
    → smooth_tick val floor ceiling (pos 1) ≡ (suc val, pos 1)
unfolding smooth_tick
smooth_tick-up val floor ceiling a c = ground arith

smooth_tick-top :
    (val floor ceiling : ℕ)
    → ceiling ≤ suc val
    → smooth_tick val floor ceiling (pos 1) ≡ (ceiling, negsuc 0)
unfolding smooth_tick
smooth_tick-top val floor ceiling a = ground arith

smooth_tick-down :
    (val floor ceiling : ℕ)
    → suc floor < suc val
    → smooth_tick (suc val) floor ceiling (negsuc 0) ≡ (val, negsuc 0)
unfolding smooth_tick
smooth_tick-down val floor ceiling a = ground arith

smooth_tick-bottom :
    (val floor ceiling : ℕ)
    → val ≤ suc floor
    → smooth_tick val floor ceiling (negsuc 0) ≡ (floor, pos 1)
unfolding smooth_tick
smooth_tick-bottom val floor ceiling a = ground arith

-- Where `n` ticks upwards end, as long as the ceiling is not reached before the last of them.
unfoldable pub raised : (ceiling val n : ℕ) → ℕ × ℤ
raised ceiling val n = if ltb (val + n) ceiling then (val + n, pos 1) else (ceiling, negsuc 0)

-- The same downwards.
unfoldable pub lowered : (floor val n : ℕ) → ℕ × ℤ
lowered floor val n = if ltb (floor + n) val then (val - n, negsuc 0) else (floor, pos 1)

raised-next : (ceiling val n : ℕ) → raised ceiling (suc val) n ≡ raised ceiling val (suc n)
unfolding raised
raised-next ceiling val n = ground arith

lowered-next : (floor val n : ℕ) → lowered floor val n ≡ lowered floor (suc val) (suc n)
unfolding lowered
lowered-next floor val n = ground arith

raised_zero : (ceiling val : ℕ) → val < ceiling → (val, pos 1) ≡ raised ceiling val 0
unfolding raised
raised_zero ceiling val a = ground arith

lowered_zero : (floor val : ℕ) → floor < val → (val, negsuc 0) ≡ lowered floor val 0
unfolding lowered
lowered_zero floor val a = ground arith

raised-top : (floor span : ℕ) → raised (floor + span) floor span ≡ (floor + span, negsuc 0)
unfolding raised
raised-top floor span = ground arith

lowered-bottom : (floor span : ℕ) → lowered floor (floor + span) span ≡ (floor, pos 1)
unfolding lowered
lowered-bottom floor span = ground arith

smooth_tick-raised :
    (val floor ceiling : ℕ)
    → val + 1 ≤ ceiling
    → ceiling < 256
    → smooth_tick val floor ceiling (pos 1) ≡ raised ceiling val 1
unfolding smooth_tick raised
smooth_tick-raised val floor ceiling a b = ground arith

smooth_tick-lowered :
    (val floor ceiling : ℕ)
    → floor < val
    → smooth_tick val floor ceiling (negsuc 0) ≡ lowered floor val 1
unfolding smooth_tick lowered
smooth_tick-lowered val floor ceiling a = ground arith

-- A sweep that starts upwards at a value below the ceiling rises by one at each tick, reaches the
-- ceiling after exactly `ceiling - val` ticks, and turns there.
pub sweep_up :
    (floor ceiling n val : ℕ)
    → val < ceiling
    → val + n ≤ ceiling
    → ceiling < 256
    → ticks floor ceiling n (val, pos 1) ≡ raised ceiling val n
unfolding ticks
sweep_up floor ceiling zero val a b c = raised_zero ceiling val a
sweep_up floor ceiling (suc zero) val a b c = smooth_tick-raised val floor ceiling b c
sweep_up floor ceiling (suc (suc n)) val a b c =
    rw (smooth_tick-up val floor ceiling (omega arith) c) (
      sweep_up floor ceiling (suc n) (suc val) (omega arith) (omega arith) c
      ∙ raised-next ceiling val (suc n))

-- A sweep downwards from above the floor falls by one at each tick, reaches the floor, and turns.
pub sweep_down :
    (floor ceiling n val : ℕ)
    → floor < val
    → floor + n ≤ val
    → ticks floor ceiling n (val, negsuc 0) ≡ lowered floor val n
unfolding ticks
sweep_down floor ceiling zero val a b = lowered_zero floor val a
sweep_down floor ceiling (suc zero) val a b = smooth_tick-lowered val floor ceiling a
sweep_down floor ceiling (suc (suc n)) zero a b = ground arith
sweep_down floor ceiling (suc (suc n)) (suc val) a b =
    rw (smooth_tick-down val floor ceiling (omega arith)) (
      sweep_down floor ceiling (suc n) val (omega arith) (omega arith)
      ∙ lowered-next floor val (suc n))

ticks-add :
    (floor ceiling m n : ℕ) (s : ℕ × ℤ)
    → ticks floor ceiling (m + n) s ≡ ticks floor ceiling n (ticks floor ceiling m s)
unfolding ticks
ticks-add floor ceiling zero n s =
    let p : 0 + n ≡ n = omega arith in ap (λ k. ticks floor ceiling k s) p
ticks-add floor ceiling (suc m) n s =
    let p : suc m + n ≡ suc (m + n) = omega arith in
    rw p (ticks-add floor ceiling m n (smooth_tick s.0 floor ceiling s.1))

-- With the floor below a ceiling of at most 255, a sweep from the floor is at the ceiling
-- after `ceiling - floor` ticks and back at the floor, upwards again, after as many more.
pub sweep-cycle :
    (floor span : ℕ)
    → 0 < span
    → floor + span < 256
    → (ticks floor (floor + span) span (floor, pos 1) ≡ (floor + span, negsuc 0))
      × (ticks floor (floor + span) (span + span) (floor, pos 1) ≡ (floor, pos 1))
sweep-cycle floor span a b =
    let up =
      sweep_up floor (floor + span) span floor (omega arith) (omega arith) b
      ∙ raised-top floor span in
    let down =
      sweep_down floor (floor + span) span (floor + span) (omega arith) (omega arith)
      ∙ lowered-bottom floor span in
    (
      up,
      ticks-add floor (floor + span) span span (floor, pos 1)
          ∙ ap (ticks floor (floor + span) span) up
          ∙ down,
    )

-- While the ramp moves the brightness smoothly, a tick keeps it between the floor and the
-- ceiling, if it was between them and the ceiling fits in a byte, and gives the emitters the
-- light of the new level.
pub ramp_timer_handler-between :
    (d : Device)
    → d.ui.active_param ≡ param_brightness
    → d.ui.current_ramp_style ≡ ramp_smooth
    → d.ui.brightness_floor ≤ d.ui.current_brightness
    → d.ui.current_brightness ≤ d.ui.brightness_ceiling
    → d.ui.brightness_ceiling < 256
    → let e = ramp_timer_handler d in
      (d.ui.brightness_floor ≤ e.ui.current_brightness)
      × (e.ui.current_brightness ≤ d.ui.brightness_ceiling)
      × (pulses e.calls ≡ light d e.ui.current_brightness)
unfolding ramp_timer_handler update_led_hardware
ramp_timer_handler-between d p q a b c =
    rw (p, q)
      (let (x, y) =
          smooth_tick-between d.ui.current_brightness d.ui.brightness_floor d.ui.brightness_ceiling
            d.ui.ramp_direction a b c in
        (x, y, refl))
