-- ===== src/Channel/Mix.antt =====
-- Bounds of the mix of src/channel_manager.c.
use native.Mathlib.Nat.{div-le_of_le-mul}
use zbeam.Base.{
  ℕ, suc, ◌+◌, ◌-◌, ◌*◌, ◌/◌, ◌%◌, ◌^◌, ◌≤◌, ◌<◌, ◌≡◌, ◌≢◌, refl, arith, List, [], ◌∷◌, length, All,
}
use zbeam.Thermal.{Thermal, thermal_apply_throttle}
use zbeam.Thermal.Regulation.{throttle-bounds}
use zbeam.Channel.{
  ChannelMode, Channel, single, fifty_fifty, cold, warm, auto_tint, sequential, slice_weight,
  weight, emitter_level, pulse_of, pulses_from, channel_apply_mix,
}

-- A part of a slice, scaled to 255.
ratio-le : (d s : ℕ) → d ≤ s → d * 255 / s ≤ 255
ratio-le d s h = div-le_of_le-mul s (omega arith)

slice_weight-le : (n t i : ℕ) → slice_weight n t i ≤ 255
unfolding slice_weight
slice_weight-le n t i =
    let s = 255 / n % 256 in
    let apart : (i + 1) * s ≡ i * s + s = grind arith in
    ground (arith, apart, ratio-le (t - i * s) s)

weight-le : (mode : ChannelMode) (n t i : ℕ) → t ≤ 255 → weight mode n t i ≤ 255
unfolding weight
weight-le sequential n t i h = slice_weight-le n t i
weight-le _ n t i h = ground arith

scaled-le : (t w : ℕ) → w ≤ 255 → t * w / 255 ≤ t
scaled-le t w h = let top : t * w ≤ t * 255 = grind arith in omega arith

emitter_level-le : (mode : ChannelMode) (n t i : ℕ) → t ≤ 255 → emitter_level mode n t i ≤ 255
unfolding emitter_level
emitter_level-le mode n t i h =
    ground (arith, weight-le mode n t i h, scaled-le t (weight mode n t i))

-- In every mode but the tint mix no emitter is brighter than the throttled level.
level-le-throttled :
    (mode : ChannelMode) (n t i : ℕ) → mode ≢ auto_tint → t ≤ 255 → emitter_level mode n t i ≤ t
unfolding emitter_level
level-le-throttled auto_tint n t i m h = absurd (m refl)
level-le-throttled single n t i m h = scaled-le t _ (weight-le single n t i h)
level-le-throttled fifty_fifty n t i m h = scaled-le t _ (weight-le fifty_fifty n t i h)
level-le-throttled cold n t i m h = scaled-le t _ (weight-le cold n t i h)
level-le-throttled warm n t i m h = scaled-le t _ (weight-le warm n t i h)
level-le-throttled sequential n t i m h = scaled-le t _ (weight-le sequential n t i h)

pulse_of-le : (p l : ℕ) → p * 255 < 2 ^ 32 → l ≤ 255 → pulse_of p l ≤ p
unfolding pulse_of
pulse_of-le p l a b = let top : p * l ≤ p * 255 = grind arith in omega arith

-- One pulse for each emitter, no longer than its period.
abbrev pub Within : (pulses periods : List ℕ) → Type 0
Within [] [] = Unit
Within (x ∷ xs) (p ∷ ps) = (x ≤ p) × Within xs ps
Within _ _ = ⊥

-- Periods for which `period * 255` fits a uint32_t: up to 16.8 ms.
abbrev pub Fits : ℕ → Type 0
Fits p = p * 255 < 2 ^ 32

pulses-Within :
    (mode : ChannelMode) (n t i : ℕ) (ps : List ℕ)
    → t ≤ 255
    → All Fits ps
    → Within (pulses_from mode n t i ps) ps
unfolding pulses_from
pulses-Within mode n t i [] h f = tt
pulses-Within mode n t i (p ∷ ps) h f =
    (pulse_of-le p _ f.0 (emitter_level-le mode n t i h), pulses-Within mode n t (suc i) ps h f.1)

-- In every mode, for a level and a throttle of at most 255 and periods of at most 16.8 ms, the
-- mix sets as many pulses as there are emitters, and none is longer than its emitter's period.
pub channel_apply_mix-Within :
    (t : Thermal) (c : Channel) (level : ℕ)
    → t.throttle_factor ≤ 255
    → level ≤ 255
    → All Fits c.emitters
    → Within (channel_apply_mix t c level) c.emitters
unfolding channel_apply_mix
channel_apply_mix-Within t c level a b f =
    pulses-Within c.current_mode _ _ 0 c.emitters
      (omega (arith, throttle-bounds t a level level (omega arith) b)) f

pulse_zero : (p : ℕ) → pulse_of p 0 ≡ 0
unfolding pulse_of
pulse_zero p = omega arith

pulses-dark :
    (mode : ChannelMode) (n i : ℕ) (ps : List ℕ)
    → mode ≢ auto_tint
    → All (λ x. x ≡ 0) (pulses_from mode n 0 i ps)
unfolding pulses_from
pulses-dark mode n i [] m = tt
pulses-dark mode n i (p ∷ ps) m =
    let off : emitter_level mode n 0 i ≡ 0 =
      omega (arith, level-le-throttled mode n 0 i m (omega arith)) in
    (rw off (pulse_zero p), pulses-dark mode n (suc i) ps m)

throttle_zero : (t : Thermal) → thermal_apply_throttle t 0 ≡ 0
unfolding thermal_apply_throttle
throttle_zero t = omega arith

-- In every mode but the tint mix, level 0 turns every emitter off.
pub channel_apply_mix-dark :
    (t : Thermal) (c : Channel)
    → c.current_mode ≢ auto_tint
    → All (λ x. x ≡ 0) (channel_apply_mix t c 0)
unfolding channel_apply_mix
channel_apply_mix-dark t c m = rw (throttle_zero t) (pulses-dark c.current_mode _ 0 c.emitters m)

tint_level :
    (n : ℕ)
    → (emitter_level auto_tint (suc (suc n)) 0 0 ≡ 0)
      × (emitter_level auto_tint (suc (suc n)) 0 1 ≡ 255)
unfolding emitter_level weight
tint_level n = ground arith

pulse_full : (p : ℕ) → Fits p → pulse_of p 255 ≡ p
unfolding pulse_of
pulse_full p f = omega arith

tint_pulses :
    (p q : ℕ) (rest : List ℕ)
    → Fits q
    → pulses_from auto_tint (suc (suc (length rest))) 0 0 (p ∷ q ∷ rest)
      ≡ 0 ∷ q ∷ pulses_from auto_tint (suc (suc (length rest))) 0 2 rest
unfolding pulses_from
tint_pulses p q rest f =
    let level = tint_level (length rest) in rw (level.0, level.1, pulse_zero p, pulse_full q f)

-- In the tint mix of two emitters or more, level 0 turns the first emitter off and the second,
-- if its period is at most 16.8 ms, fully on.
pub auto_tint-bright :
    (t : Thermal) (c : Channel) (p q : ℕ) (rest : List ℕ)
    → c.current_mode ≡ auto_tint
    → c.emitters ≡ p ∷ q ∷ rest
    → Fits q
    → (rest_pulses : List ℕ) × (channel_apply_mix t c 0 ≡ 0 ∷ q ∷ rest_pulses)
unfolding channel_apply_mix
auto_tint-bright t c p q rest m e f = (
  pulses_from auto_tint (suc (suc (length rest))) 0 2 rest,
  rw (throttle_zero t, m, e) (tint_pulses p q rest f),
)
