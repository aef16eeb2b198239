-- ===== src/Pwm/GenericRun.antt =====
-- The loop of src/pwm_ramp_generic.c, from its start to the return of `pwm_ramp_start`.
use zbeam.Base.{
  ℕ, zero, suc, ◌+◌, ◌-◌, ◌*◌, ◌≡◌, ◌≤◌, ◌<◌, refl, sym, subst, ◌∙◌, arith, inl, inr, Bool, true,
  false, Bool-cases, Option, some, [], ◌∷◌, ltb, ◌==◌, if◌then◌else◌,
}
use zbeam.Pwm.{PwmSpec, set_pwm, Ramp}
use zbeam.Pwm.Generic.{
  brightness_to_pulse_ns, pwm_ramp_set_brightness, pwm_ramp_stop, distance, step_delay, finish,
  ramp_round, ramp_loop, start_on, pwm_ramp_start,
}
use zbeam.Pwm.Levels.{
  Ran, Ran-flag, Ends, Arrives, Arrives-flag, Ran-refl, Ran-trans, Ran-weaken, sleep-Ran, one_delay,
  more_delays, total_sleep,
}
use zbeam.Pwm.GenericSteps.{
  Toward, step-Toward, step_within, not_equal, equal, distance_pos, longest, start-Toward,
  delays_fit,
}

module _ (stops : ℕ → Bool) (spec : PwmSpec) (lo hi : ℕ) where
  abbrev pulse : ℕ → ℕ
  pulse = brightness_to_pulse_ns spec.period

  set-Ran :
      (b : ℕ) (r : Ramp)
      → r.pwm_dev ≡ some spec
      → lo ≤ b
      → b ≤ hi
      → Ran pulse lo hi 0 r (pwm_ramp_set_brightness b r)
        × ((pwm_ramp_set_brightness b r).current_brightness ≡ b)
  unfolding pwm_ramp_set_brightness total_sleep
  set-Ran b r dev l h = rw dev (
    record {
      new = set_pwm spec.period (pulse b) ∷ [];
      log = refl;
      dev = refl;
      levels = ((b, l, h, refl), tt);
      time = omega arith;
    },
    refl,
  )

  round-Ran :
      (delay k i : ℕ) (r : Ramp)
      → r.pwm_dev ≡ some spec
      → lo ≤ i
      → i ≤ hi
      → Ran pulse lo hi (delay + 0) r (ramp_round stops delay k i r)
  unfolding ramp_round pwm_ramp_stop
  round-Ran delay k i r dev l h =
      let set = pwm_ramp_set_brightness i r in
      let ran = (set-Ran i r dev l h).0 in
      let level = set.current_brightness in
      elim (Bool-cases (stops k)) [
        | inl stopped ↦
            rw stopped (Ran-trans pulse lo hi ran (sleep-Ran pulse lo hi delay level false set))
        | inr on ↦
            rw on
              (Ran-trans pulse lo hi ran (sleep-Ran pulse lo hi delay level set.ramp_active set))
      ]

  loop-Ends :
      (fuel delay : ℕ) (rising : Bool) (end_ k i n : ℕ) (r : Ramp)
      → r.pwm_dev ≡ some spec
      → Toward rising end_ i
      → distance end_ i ≤ n
      → n ≤ fuel
      → lo ≤ i
      → i ≤ hi
      → lo ≤ end_
      → end_ ≤ hi
      → Ends pulse lo hi (n * delay) r (ramp_loop stops fuel delay rising end_ k i r)
  unfolding ramp_loop ramp_round
  loop-Ends zero delay rising end_ k i n r dev t d f l h le he =
      (r, ground arith, Ran-refl pulse lo hi r (n * delay))
  loop-Ends (suc fuel) delay rising end_ k i n r dev t d f l h le he =
      elim (Bool-cases (i == end_)) [
        | inl here ↦ (r, rw (ramp_loop, here) refl, Ran-refl pulse lo hi r (n * delay))
        | inr away ↦
            let ne = not_equal i end_ away in
            let r1 = ramp_round stops delay k i r in
            let ran = round-Ran delay k i r dev l h in
            let once : delay + 0 ≤ n * delay = one_delay n delay (distance_pos end_ i n ne d) in
            elim (Bool-cases r1.ramp_active) [
              | inr halted ↦
                  (r1, rw (ramp_loop, away, halted) refl, Ran-weaken pulse lo hi once ran)
              | inl going ↦
                  let j = if rising then i + 1 else i - 1 in
                  let (t', d') = step-Toward rising end_ i (n - 1) t ne (omega arith) in
                  let (l', h') = step_within rising end_ i lo hi t ne l h le he in
                  let (r', e, rest) =
                    loop-Ends fuel delay rising end_ (suc k) j (n - 1) r1 (ran.dev ∙ dev) t' d'
                      (omega arith) l' h' le he in
                  (
                    r',
                    rw (ramp_loop, away, going) e,
                    Ran-weaken pulse lo hi (more_delays n delay (distance_pos end_ i n ne d))
                        (Ran-trans pulse lo hi ran rest),
                  )
            ]
      ]

  Ends-weaken :
      {m n : ℕ} {r : Ramp} {o : Option Ramp}
      → m ≤ n
      → Ends pulse lo hi m r o
      → Ends pulse lo hi n r o
  Ends-weaken le (r', e, ran) = (r', e, Ran-weaken pulse lo hi le ran)

  finish-Arrives :
      (target most : ℕ) (r : Ramp) (o : Option Ramp)
      → r.pwm_dev ≡ some spec
      → lo ≤ target
      → target ≤ hi
      → Ends pulse lo hi most r o
      → Arrives pulse lo hi most target r (finish target o)
  unfolding finish pwm_ramp_set_brightness
  finish-Arrives target most r o dev l h (r1, e, ran) =
      let (set, at) = set-Ran target r1 (ran.dev ∙ dev) l h in
      let fits : 0 + most ≤ most = omega arith in
      rw e (
        record (pwm_ramp_set_brightness target r1) { ramp_active = false },
        refl,
        at,
        refl,
        Ran-flag pulse lo hi most false
            (Ran-weaken pulse lo hi fits (Ran-trans pulse lo hi ran set)),
      )

module _ (stops : ℕ → Bool) (spec : PwmSpec) (lo hi : ℕ) where
  start_on-Arrives :
      (target duration_ms : ℕ) (r : Ramp)
      → r.pwm_dev ≡ some spec
      → lo ≤ r.current_brightness
      → r.current_brightness ≤ hi
      → lo ≤ target
      → target ≤ hi
      → hi < 256
      → Arrives
          (brightness_to_pulse_ns spec.period)
          lo
          hi
          (longest duration_ms (distance target r.current_brightness))
          target
          r
          (start_on stops (some spec) target duration_ms r)
  unfolding start_on
  start_on-Arrives target duration_ms r dev ls sh lt th top =
      let start = r.current_brightness in
      let steps = distance target start in
      elim (Bool-cases (steps == 0)) [
        | inl none_left ↦ rw none_left (
          record r { ramp_active = false },
          refl,
          equal start target (ground arith),
          refl,
          Ran-flag _ lo hi _ false (Ran-refl _ lo hi r _),
        )
        | inr some_left ↦ rw some_left (
            Arrives-flag _ lo hi _ target true r _ (
              finish-Arrives stops spec lo hi target _ (record r { ramp_active = true }) _ dev lt th
                (Ends-weaken stops spec lo hi (delays_fit duration_ms steps) (
                  loop-Ends stops spec lo hi 255 (step_delay duration_ms steps) (ltb start target)
                    target 0 start steps (record r { ramp_active = true }) dev
                    (start-Toward start target) (omega arith) (omega arith) ls sh lt th))))
      ]

  -- From a device that is set and levels below 256, whatever thread stops the ramp and whenever, `pwm_ramp_start` of
  -- src/pwm_ramp_generic.c returns 0 at the target and with no ramp going on. Each pulse set on the way
  -- is the one of a level between the start and the target, bounds `lo` and `hi` of both, and the
  -- sleeps together take at most the duration, or 1 ms a level where the duration is shorter than that.
  pub pwm_ramp_start-Arrives :
      (target duration_ms : ℕ) (r : Ramp)
      → r.pwm_dev ≡ some spec
      → lo ≤ r.current_brightness
      → r.current_brightness ≤ hi
      → lo ≤ target
      → target ≤ hi
      → hi < 256
      → Arrives
          (brightness_to_pulse_ns spec.period)
          lo
          hi
          (longest duration_ms (distance target r.current_brightness))
          target
          r
          (pwm_ramp_start stops target duration_ms r)
  unfolding pwm_ramp_start
  pwm_ramp_start-Arrives target duration_ms r dev ls sh lt th top =
      subst
        (λ d.
          Arrives (brightness_to_pulse_ns spec.period) lo hi
            (longest duration_ms (distance target r.current_brightness)) target r
            (start_on stops d target duration_ms r))
        (sym dev) (start_on-Arrives target duration_ms r dev ls sh lt th top)
