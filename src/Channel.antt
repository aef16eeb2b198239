-- ===== src/Channel.antt =====
-- src/channel_manager.c: how a master level becomes a pulse for each emitter.
pub mod Mix
use zbeam.Base.{
  ℕ, zero, suc, ◌+◌, ◌-◌, ◌*◌, ◌/◌, ◌%◌, ◌^◌, Bool, true, false, ◌&&◌, List, [], ◌∷◌, length, ltb,
  leb, ◌==◌, if◌then◌else◌,
}
use zbeam.Thermal.{Thermal, thermal_apply_throttle}

-- `channel_mode_t`, with the numbers of its constants.
pub data ChannelMode : Type 0 where
  single fifty_fifty cold warm auto_tint sequential : ChannelMode

-- The periods in ns of `emitters`, which the device tree fixes, and the static mode.
pub record Channel : Type 0 where
  pub emitters : List ℕ
  pub current_mode : ChannelMode

unfoldable pub num_emitters : Channel → ℕ
num_emitters c = length c.emitters

unfoldable pub channel_init : Channel → Channel
channel_init c = record c {
  current_mode = if ltb 1 (length c.emitters) then fifty_fifty else single;
}

-- `weights[i]` in CHANNEL_MODE_SEQUENTIAL; `slice` is a uint8_t.
unfoldable pub slice_weight : (n throttled i : ℕ) → ℕ
slice_weight n throttled i =
    let slice = 255 / n % 256 in
    let start = i * slice in
    let end_ = (i + 1) * slice in
    if leb throttled start
    then 0
    else if leb end_ throttled
    then 255
    else (throttled - start) * 255 / slice % 65536

-- `weights[i]` after the switch, for `n` emitters.
unfoldable pub weight : ChannelMode → (n throttled i : ℕ) → ℕ
weight single n throttled i = if i == 0 then 255 else 0
weight fifty_fifty n throttled i = 255
weight cold n throttled i = if i == 0 then 255 else 0
weight warm n throttled i =
    if ltb 1 n then (if i == 1 then 255 else 0) else if i == 0 then 255 else 0
weight auto_tint n throttled i =
    if leb 2 n
    then (if i == 0 then throttled else if i == 1 then 255 - throttled else 0)
    else if i == 0
    then 255
    else 0
weight sequential n throttled i = slice_weight n throttled i

is_auto_tint : ChannelMode → Bool
is_auto_tint auto_tint = true
is_auto_tint _ = false

-- `level` of emitter `i`; the weight is the level where it already holds the mix.
unfoldable pub emitter_level : ChannelMode → (n throttled i : ℕ) → ℕ
unfolding is_auto_tint
emitter_level mode n throttled i =
    if is_auto_tint mode && leb 2 n
    then weight mode n throttled i
    else throttled * weight mode n throttled i / 255

-- `(period * level) / 255` in uint32_t.
unfoldable pub pulse_of : (period level : ℕ) → ℕ
pulse_of period level = period * level % 2 ^ 32 / 255

-- The loop over the emitters from index `i` on.
unfoldable pub pulses_from : ChannelMode → (n throttled i : ℕ) → List ℕ → List ℕ
pulses_from mode n throttled i [] = []
pulses_from mode n throttled i (period ∷ rest) =
    pulse_of period (emitter_level mode n throttled i) ∷ pulses_from mode n throttled (suc i) rest

-- The pulses that `channel_apply_mix` sets, one for each emitter.
unfoldable pub channel_apply_mix : Thermal → Channel → ℕ → List ℕ
channel_apply_mix t c master_level =
    let throttled = thermal_apply_throttle t master_level in
    pulses_from c.current_mode (length c.emitters) throttled 0 c.emitters

-- `(current_mode + 1) % CHANNEL_MODE_COUNT`.
unfoldable pub next_mode : ChannelMode → ChannelMode
next_mode single = fifty_fifty
next_mode fifty_fifty = cold
next_mode cold = warm
next_mode warm = auto_tint
next_mode auto_tint = sequential
next_mode sequential = single

unfoldable pub channel_cycle_mode : Channel → Channel
unfolding is_auto_tint
channel_cycle_mode c =
    let next = next_mode c.current_mode in
    if leb (length c.emitters) 1
    then c
    else if is_auto_tint next && ltb (length c.emitters) 2
    then record c { current_mode = single }
    else record c { current_mode = next }
