-- ===== src/Pwm/Esp32Run.antt =====
-- The loop of src/pwm_ramp_esp32.c, from its start to the return of `pwm_ramp_start`.
use zbeam.Base.{
  ℕ, zero, suc, ◌+◌, ◌-◌, ◌*◌, ◌/◌, ◌≡◌, ◌≤◌, ◌<◌, refl, sym, subst, ◌∙◌, arith, inl, inr, Bool,
  true, false, Bool-cases, Option, some, [], ◌∷◌, ltb, ◌==◌,
}
use native.Mathlib.Nat.{mul-div-le}
use zbeam.Pwm.{PwmSpec, set_pwm, Ramp}
use zbeam.Pwm.Esp32.{
  pwm_period_ns, brightness_to_pulse_ns, pwm_ramp_set_brightness, pwm_ramp_stop, next_idx, goes_on,
  total_steps, finish, ramp_round, ramp_loop, start_on, pwm_ramp_start,
}
use zbeam.Pwm.Levels.{
  Ran, Ran-flag, Ends, Arrives, Arrives-flag, Ran-refl, Ran-trans, Ran-weaken, sleep-Ran, one_delay,
  more_delays, total_sleep,
}
use zbeam.Pwm.Esp32Steps.{
  Reaches, Side, advance, Reaches-none, some_round, step_Reaches, step_Side, next_within,
  start_Reaches, start_Side, few_steps,
}

module _ (stops : ℕ → Bool) where
  loop-step :
      (fuel delay : ℕ) (rising : Bool) (end_ k i : ℕ) (r : Ramp)
      → goes_on rising end_ i ≡ true
      → (ramp_round stops delay k (next_idx rising end_ i) r).ramp_active ≡ true
      → ramp_loop stops (suc fuel) delay rising end_ k i r
        ≡ ramp_loop stops fuel delay rising end_
            (suc k)
            (advance rising i)
            (ramp_round stops delay k (next_idx rising end_ i) r)
  unfolding ramp_loop
  loop-step fuel delay rising end_ k i r more going = simp (ramp_loop, more, going) refl

module _ (stops : ℕ → Bool) (spec : PwmSpec) (lo hi : ℕ) where
  abbrev pulse : ℕ → ℕ
  pulse = brightness_to_pulse_ns

  set-Ran :
      (b : ℕ) (r : Ramp)
      → r.pwm_dev ≡ some spec
      → lo ≤ b
      → b ≤ hi
      → Ran brightness_to_pulse_ns lo hi 0 r (pwm_ramp_set_brightness b r)
        × ((pwm_ramp_set_brightness b r).current_brightness ≡ b)
  unfolding pwm_ramp_set_brightness total_sleep
  set-Ran b r dev l h = rw dev (
    record {
      new = set_pwm pwm_period_ns (brightness_to_pulse_ns b) ∷ [];
      log = refl;
      dev = refl;
      levels = ((b, l, h, refl), tt);
      time = omega arith;
    },
    refl,
  )

  round-Ran :
      (delay k next : ℕ) (r : Ramp)
      → r.pwm_dev ≡ some spec
      → lo ≤ next
      → next ≤ hi
      → Ran brightness_to_pulse_ns lo hi (delay + 0) r (ramp_round stops delay k next r)
  unfolding ramp_round pwm_ramp_stop
  round-Ran delay k next r dev l h =
      let set = pwm_ramp_set_brightness next r in
      let ran = (set-Ran next r dev l h).0 in
      elim (Bool-cases (stops k)) [
        | inl stopped ↦
            rw stopped (Ran-trans pulse lo hi ran (sleep-Ran pulse lo hi delay next false set))
        | inr on ↦
            rw on (Ran-trans pulse lo hi ran (sleep-Ran pulse lo hi delay next set.ramp_active set))
      ]

  loop-Ends :
      (fuel delay : ℕ) (rising : Bool) (end_ k i n : ℕ) (r : Ramp)
      → r.pwm_dev ≡ some spec
      → Reaches rising end_ i n
      → Side rising lo hi i
      → n ≤ fuel
      → lo ≤ end_
      → end_ ≤ hi
      → Ends pulse lo hi (n * delay) r (ramp_loop stops fuel delay rising end_ k i r)
  unfolding ramp_loop
  loop-Ends zero delay rising end_ k i n r dev t s f le he =
      let all_done : n ≡ 0 = omega arith in
      (
        r,
        rw (Reaches-none rising end_ i (subst (λ m. Reaches rising end_ i m) all_done t)) refl,
        Ran-refl pulse lo hi r (n * delay),
      )
  loop-Ends (suc fuel) delay rising end_ k i n r dev t s f le he =
      elim (Bool-cases (goes_on rising end_ i)) [
        | inr over ↦ (r, rw (ramp_loop, over) refl, Ran-refl pulse lo hi r (n * delay))
        | inl more ↦
            let next = next_idx rising end_ i in
            let (l, h) = next_within rising end_ i lo hi more s le he in
            let r1 = ramp_round stops delay k next r in
            let ran = round-Ran delay k next r dev l h in
            let left = some_round rising end_ i n t more in
            elim (Bool-cases r1.ramp_active) [
              | inr halted ↦ (
                r1,
                simp (ramp_loop, more, halted) refl,
                Ran-weaken pulse lo hi (one_delay n delay left) ran,
              )
              | inl going ↦
                  let (r', e, rest) =
                    loop-Ends fuel delay rising end_ (suc k) (advance rising i) (n - 1) r1
                      (ran.dev ∙ dev) (step_Reaches rising end_ i n t more)
                      (step_Side rising lo hi i s) (omega arith) le he in
                  (
                    r',
                    loop-step stops fuel delay rising end_ k i r more going ∙ e,
                    Ran-weaken pulse lo hi (more_delays n delay left)
                        (Ran-trans pulse lo hi ran rest),
                  )
            ]
      ]

  finish-Arrives :
      (target most : ℕ) (r : Ramp) (o : Option Ramp)
      → r.pwm_dev ≡ some spec
      → lo ≤ target
      → target ≤ hi
      → Ends pulse lo hi most r o
      → Arrives pulse lo hi most target r (finish target o)
  unfolding finish pwm_ramp_set_brightness
  finish-Arrives target most r o dev l h (r1, e, ran) =
      let (set, at) = set-Ran target r1 (ran.dev ∙ dev) l h in
      let fits : 0 + most ≤ most = omega arith in
      rw e (
        record (pwm_ramp_set_brightness target r1) { ramp_active = false },
        refl,
        at,
        refl,
        Ran-flag pulse lo hi most false
            (Ran-weaken pulse lo hi fits (Ran-trans pulse lo hi ran set)),
      )

  -- No step is left: the loop's place is taken by the state itself.
  start_on-Arrives :
      (target duration_ms : ℕ) (r : Ramp)
      → r.pwm_dev ≡ some spec
      → lo ≤ r.current_brightness
      → r.current_brightness ≤ hi
      → lo ≤ target
      → target ≤ hi
      → hi < 256
      → Arrives pulse lo hi duration_ms target r (start_on stops (some spec) target duration_ms r)
  unfolding start_on finish
  start_on-Arrives target duration_ms r dev ls sh lt th top =
      let start = r.current_brightness in
      let steps = total_steps target start in
      let active = record r { ramp_active = true } in
      elim (Bool-cases (steps == 0)) [
        | inl none_left ↦ rw none_left (
            Arrives-flag _ lo hi _ target true r _ (
              finish-Arrives target duration_ms active (some active) dev lt th
                (active, refl, Ran-refl pulse lo hi active duration_ms)))
        | inr some_left ↦
            let (r', e, ran) =
              loop-Ends 32 (duration_ms / steps) (ltb start target) target 0 start steps active dev
                (start_Reaches start target) (start_Side start target lo hi ls sh)
                (few_steps start target hi sh th top) lt th in
            rw some_left (
              Arrives-flag _ lo hi _ target true r _ (
                finish-Arrives target duration_ms active _ dev lt th
                  (r', e, Ran-weaken pulse lo hi (mul-div-le duration_ms steps) ran)))
      ]

module _ (stops : ℕ → Bool) (spec : PwmSpec) (lo hi : ℕ) where
  -- From a device that is set and levels below 256, whatever thread stops the ramp and whenever, `pwm_ramp_start` of
  -- src/pwm_ramp_esp32.c returns 0 at the target and with no ramp going on. Each pulse set on the way
  -- is the one of a level between the bounds `lo` and `hi` of the start and the target, so no step
  -- overshoots, and the sleeps together take at most the duration.
  pub pwm_ramp_start-Arrives_in_time :
      (target duration_ms : ℕ) (r : Ramp)
      → r.pwm_dev ≡ some spec
      → lo ≤ r.current_brightness
      → r.current_brightness ≤ hi
      → lo ≤ target
      → target ≤ hi
      → hi < 256
      → Arrives brightness_to_pulse_ns lo hi duration_ms target r
          (pwm_ramp_start stops target duration_ms r)
  unfolding pwm_ramp_start
  pwm_ramp_start-Arrives_in_time target duration_ms r dev ls sh lt th top =
      subst
        (λ d.
          Arrives brightness_to_pulse_ns lo hi duration_ms target r
            (start_on stops d target duration_ms r))
        (sym dev) (start_on-Arrives stops spec lo hi target duration_ms r dev ls sh lt th top)
