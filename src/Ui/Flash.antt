-- ===== src/Ui/Flash.antt =====
-- What the strobes of src/ui_actions.c do over time.
use native.Mathlib.Nat.{zero-add}
use zbeam.Base.{
  subst, ℕ, ◌+◌, ◌*◌, ◌%◌, ◌^◌, ◌≤◌, ◌<◌, ◌≡◌, ◌⊎◌, refl, ap, ◌∙◌, arith, length, ltb,
  if◌then◌else◌, inl, inr, Bool-cases, List, [], ◌∷◌,
}
use zbeam.Env.{Env}
use zbeam.Kernel.{started}
use zbeam.Ui.Device.{
  Device, StrobeType, strobe_party, strobe_tactical, strobe_candle, strobe_bike, pulses, light,
  update_led_hardware,
}
use zbeam.Ui.Strobe.{get_strobe_delay_ms, strobe_tick, strobe_timer_handler, action_strobe_bike}

-- The delay for a frequency index of type `uint8_t` is 500 ms at most and 12 ms at least.
pub delay-range :
    (freq : ℕ) → freq < 256 → (12 ≤ get_strobe_delay_ms freq) × (get_strobe_delay_ms freq ≤ 500)
unfolding get_strobe_delay_ms
delay-range freq h = (omega arith, omega arith)

-- The levels that a strobe gives the emitters.
abbrev pub Levels : StrobeType → ℕ → Type 0
Levels strobe_party level = (level ≡ 0) ⊎ (level ≡ 255)
Levels strobe_tactical level = (level ≡ 0) ⊎ (level ≡ 255)
Levels strobe_candle level = (40 ≤ level) × (level ≤ 120)
Levels strobe_bike level = (level ≡ 40) ⊎ (level ≡ 255)

abbrev Ranged : Env → StrobeType → Device → Type 0
Ranged env mode d =
    let (delay, e) = strobe_tick env mode d in
    (2 ≤ delay) × (delay ≤ 500) × (level : ℕ) × Levels mode level × (pulses e.calls ≡ light d level)

strobe_tick-Ranged :
    (env : Env) (mode : StrobeType) (d : Device) → d.ui.strobe_frequency < 256 → Ranged env mode d
unfolding strobe_tick update_led_hardware
strobe_tick-Ranged env strobe_party d byte =
    let (low, high) = delay-range d.ui.strobe_frequency byte in
    elim (Bool-cases d.ui.strobe_on) [
      | inl e ↦ elim (Bool-cases (ltb (get_strobe_delay_ms d.ui.strobe_frequency) 5)) [
        | inl s ↦ rw (e, s) (omega arith, omega arith, 0, inl refl, refl)
        | inr s ↦ rw (e, s) (omega (arith, low), high, 0, inl refl, refl)
      ]
      | inr e ↦ rw e (omega arith, omega arith, 255, inr refl, refl)
    ]
strobe_tick-Ranged env strobe_tactical d byte =
    let (low, high) = delay-range d.ui.strobe_frequency byte in
    elim (Bool-cases d.ui.strobe_on) [
      | inl e ↦ rw e (omega (arith, low), high, 0, inl refl, refl)
      | inr e ↦ rw e (omega (arith, low), high, 255, inr refl, refl)
    ]
strobe_tick-Ranged env strobe_candle d byte =
    (omega arith, omega arith, _, (omega arith, omega arith), refl)
strobe_tick-Ranged env strobe_bike d byte =
    let counted = (d.ui.bike_counter + 20) % 2 ^ 32 in
    elim (Bool-cases (ltb (if ltb 1000 counted then 0 else counted) 80)) [
      | inl e ↦ rw e (omega arith, omega arith, 255, inr refl, refl)
      | inr e ↦ rw e (omega arith, omega arith, 40, inl refl, refl)
    ]

-- With a frequency index of type `uint8_t`, every tick of a strobe starts its timer again, once, for 2
-- to 500 ms, and gives the emitters the light of one level: 0 or 255 in the party and the tactical
-- strobe, 40 to 120 in the candle, 40 or 255 in the bike flasher.
pub strobe-range :
    (env : Env) (d : Device)
    → d.ui.strobe_frequency < 256
    → let e = strobe_timer_handler env d in
      (delay : ℕ) × (level : ℕ) × (e.ui.strobe_timer ≡ started delay 0)
      × (2 ≤ delay)
      × (delay ≤ 500)
      × Levels d.ui.current_strobe_mode level
      × (pulses e.calls ≡ light d level)
unfolding strobe_timer_handler
strobe-range env d byte =
    let (low, high, level, fits, lit) = strobe_tick-Ranged env d.ui.current_strobe_mode d byte in
    (_, level, refl, low, high, fits, lit)

-- Some ticks of the strobe, each with its own draws.
abbrev pub flashes : List Env → Device → Device
flashes [] d = d
flashes (env ∷ envs) d = flashes envs (strobe_timer_handler env d)

-- The counter after `j` steps of 20 in the round of 51.
record Bike (j : ℕ) (d e : Device) : Type 0 where
  mode : e.ui.current_strobe_mode ≡ strobe_bike
  counter : e.ui.bike_counter ≡ 20 * (j % 51)
  timer : e.ui.strobe_timer ≡ started 20 0
  lit : pulses e.calls ≡ light d (if ltb (j % 51) 4 then 255 else 40)
  thermal : e.thermal ≡ d.thermal
  channel : e.channel ≡ d.channel

tick-Bike :
    (j : ℕ) (env : Env) (d : Device)
    → d.ui.current_strobe_mode ≡ strobe_bike
    → d.ui.bike_counter ≡ 20 * (j % 51)
    → Bike (j + 1) d (strobe_timer_handler env d)
unfolding strobe_timer_handler strobe_tick update_led_hardware
tick-Bike j env d m c =
    let next : ℕ =
      if ltb 1000 ((20 * (j % 51) + 20) % 2 ^ 32) then 0 else (20 * (j % 51) + 20) % 2 ^ 32 in
    let moved : next ≡ 20 * ((j + 1) % 51) = ground arith in
    let same : ltb next 80 ≡ ltb ((j + 1) % 51) 4 = ground arith in
    rw (m, c)
      (record {
        mode = refl;
        counter = moved;
        timer = refl;
        lit = ap (λ b. light d (if b then 255 else 40)) same;
        thermal = refl;
        channel = refl;
      })

moved_on :
    (j : ℕ) (d d1 e : Device)
    → d1.thermal ≡ d.thermal
    → d1.channel ≡ d.channel
    → Bike j d1 e
    → Bike j d e
moved_on j d d1 e t c b = record {
  mode = b.mode;
  counter = b.counter;
  timer = b.timer;
  lit = cc (b.lit, t, c);
  thermal = b.thermal ∙ t;
  channel = b.channel ∙ c;
}

flashes-Bike :
    (j : ℕ) (env : Env) (envs : List Env) (d : Device)
    → d.ui.current_strobe_mode ≡ strobe_bike
    → d.ui.bike_counter ≡ 20 * (j % 51)
    → Bike (j + length (env ∷ envs)) d (flashes (env ∷ envs) d)
flashes-Bike j env [] d m c = tick-Bike j env d m c
flashes-Bike j env (env' ∷ envs) d m c =
    let b = tick-Bike j env d m c in
    let rest = flashes-Bike (j + 1) env' envs (strobe_timer_handler env d) b.mode b.counter in
    let total : j + 1 + length (env' ∷ envs) ≡ j + length (env ∷ env' ∷ envs) = omega arith in
    subst (λ n. Bike n d (flashes (env ∷ env' ∷ envs) d)) total
      (moved_on _ d (strobe_timer_handler env d) _ b.thermal b.channel rest)

-- The bike flasher, `n` ticks after it was started, one or more: the emitters have the light of level
-- 255 where `n` modulo 51 is below 4, and of level 40 otherwise, and the next tick is 20 ms later.
pub bike-cycle :
    (env : Env) (envs : List Env) (d : Device)
    → let n = length (env ∷ envs) in
      let e = flashes (env ∷ envs) (action_strobe_bike d) in
      (e.ui.strobe_timer ≡ started 20 0)
      × (pulses e.calls ≡ light d (if ltb (n % 51) 4 then 255 else 40))
unfolding action_strobe_bike
bike-cycle env envs d =
    let start = action_strobe_bike d in
    let b =
      subst (λ k. Bike k start (flashes (env ∷ envs) start)) (zero-add (length (env ∷ envs)))
        (flashes-Bike 0 env envs start refl refl) in
    (b.timer, b.lit)
