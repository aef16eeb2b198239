-- ===== src/Pwm/Levels.antt =====
-- Which levels a ramp goes through, and how long it takes.
use zbeam.Base.{
  ℕ, ◌+◌, ◌-◌, ◌*◌, ◌≡◌, ◌≤◌, ◌<◌, refl, ap, ◌∙◌, arith, Bool, false, Option, some, List, [], ◌∷◌,
  ◌++◌, All,
}
use zbeam.Base.Int.{ℤ, pos}
use zbeam.Pwm.{PwmCall, set_pwm, sleep_ms, route_gpio, Ramp, call_out}

-- The milliseconds slept.
unfoldable pub total_sleep : List PwmCall → ℕ
total_sleep [] = 0
total_sleep (sleep_ms ms ∷ cs) = ms + total_sleep cs
total_sleep (c ∷ cs) = total_sleep cs

-- Each pulse set is the one of a level between `lo` and `hi`.
abbrev pub Level : (pulse : ℕ → ℕ) → (lo hi : ℕ) → PwmCall → Type 0
Level pulse lo hi (set_pwm period x) = (l : ℕ) × (lo ≤ l) × (l ≤ hi) × (x ≡ pulse l)
Level pulse lo hi (sleep_ms ms) = Unit
Level pulse lo hi route_gpio = ⊥

-- From `r` the code gets to some state with the same device, through levels from `lo` to `hi`, and
-- sleeps at most `most` ms.
pub record Ran (pulse : ℕ → ℕ) (lo hi most : ℕ) (r r' : Ramp) : Type 0 where
  pub new : List PwmCall
  pub log : r'.calls ≡ new ++ r.calls
  pub dev : r'.pwm_dev ≡ r.pwm_dev
  pub levels : All (Level pulse lo hi) new
  pub time : total_sleep new ≤ most

All-append : (P : PwmCall → Type 0) (xs ys : List PwmCall) → All P xs → All P ys → All P (xs ++ ys)
All-append P [] ys p q = q
All-append P (x ∷ xs) ys p q = (p.0, All-append P xs ys p.1 q)

total_sleep-append :
    (xs ys : List PwmCall) → total_sleep (xs ++ ys) ≡ total_sleep xs + total_sleep ys
unfolding total_sleep
total_sleep-append [] ys = omega arith
total_sleep-append (sleep_ms ms ∷ xs) ys = omega (arith, total_sleep-append xs ys)
total_sleep-append (set_pwm p x ∷ xs) ys = total_sleep-append xs ys
total_sleep-append (route_gpio ∷ xs) ys = total_sleep-append xs ys

append_assoc : (xs ys zs : List PwmCall) → xs ++ (ys ++ zs) ≡ (xs ++ ys) ++ zs
append_assoc [] ys zs = refl
append_assoc (x ∷ xs) ys zs = ap (λ l. x ∷ l) (append_assoc xs ys zs)

module _ (pulse : ℕ → ℕ) (lo hi : ℕ) where
  pub Ran-refl : (r : Ramp) (most : ℕ) → Ran pulse lo hi most r r
  unfolding total_sleep
  Ran-refl r most = record { new = []; log = refl; dev = refl; levels = tt; time = omega arith }

  pub Ran-trans :
      {a b c : Ramp} {m n : ℕ}
      → Ran pulse lo hi m a b
      → Ran pulse lo hi n b c
      → Ran pulse lo hi (n + m) a c
  Ran-trans {a} {b} {c} p q = record {
    new = q.new ++ p.new;
    log = q.log ∙ ap (λ l. q.new ++ l) p.log ∙ append_assoc q.new p.new a.calls;
    dev = q.dev ∙ p.dev;
    levels = All-append (Level pulse lo hi) q.new p.new q.levels p.levels;
    time = omega (arith, total_sleep-append q.new p.new, p.time, q.time);
  }

  pub Ran-weaken : {a b : Ramp} {m n : ℕ} → m ≤ n → Ran pulse lo hi m a b → Ran pulse lo hi n a b
  Ran-weaken h p = record {
    new = p.new;
    log = p.log;
    dev = p.dev;
    levels = p.levels;
    time = omega (arith, p.time);
  }

  -- One sleep, at whose end the flag and the level can be others.
  pub sleep-Ran :
      (delay level : ℕ) (flag : Bool) (r : Ramp)
      → Ran pulse lo hi delay r
          (record (call_out (sleep_ms delay) r) { current_brightness = level; ramp_active = flag })
  unfolding total_sleep
  sleep-Ran delay level flag r = record {
    new = sleep_ms delay ∷ [];
    log = refl;
    dev = refl;
    levels = (tt, tt);
    time = omega arith;
  }

-- The sleeps of one round, and of one more.
pub one_delay : (n delay : ℕ) → 0 < n → delay + 0 ≤ n * delay
one_delay n delay h = grind arith

pub more_delays : (n delay : ℕ) → 0 < n → (n - 1) * delay + (delay + 0) ≤ n * delay
more_delays n delay h = grind arith

-- Some state is the result, reached so.
abbrev pub Ends : (pulse : ℕ → ℕ) → (lo hi most : ℕ) → Ramp → Option Ramp → Type 0
Ends pulse lo hi most r o = (r' : Ramp) × (o ≡ some r') × Ran pulse lo hi most r r'

-- The call returns 0, at the target and with no ramp going on, in a state reached so.
abbrev pub Arrives : (pulse : ℕ → ℕ) → (lo hi most target : ℕ) → Ramp → Option (ℤ × Ramp) → Type 0
Arrives pulse lo hi most target r o =
    (r' : Ramp) × (o ≡ some (pos 0, r'))
    × (r'.current_brightness ≡ target)
    × (r'.ramp_active ≡ false)
    × Ran pulse lo hi most r r'

-- The flag is no part of `Ran`.
pub Ran-flag :
    (pulse : ℕ → ℕ) (lo hi most : ℕ) {a b : Ramp} (flag : Bool)
    → Ran pulse lo hi most a b
    → Ran pulse lo hi most a (record b { ramp_active = flag })
Ran-flag pulse lo hi most flag p = record {
  new = p.new;
  log = p.log;
  dev = p.dev;
  levels = p.levels;
  time = p.time;
}

pub Arrives-flag :
    (pulse : ℕ → ℕ) (lo hi most target : ℕ) (flag : Bool) (r : Ramp) (o : Option (ℤ × Ramp))
    → Arrives pulse lo hi most target (record r { ramp_active = flag }) o
    → Arrives pulse lo hi most target r o
Arrives-flag pulse lo hi most target flag r o (r', e, at, off, p) = (
  r',
  e,
  at,
  off,
  record { new = p.new; log = p.log; dev = p.dev; levels = p.levels; time = p.time },
)
