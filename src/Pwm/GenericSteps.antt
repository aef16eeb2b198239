-- ===== src/Pwm/GenericSteps.antt =====
-- The levels and the delay of the loop of src/pwm_ramp_generic.c.
use zbeam.Base.{
  ℕ, zero, suc, ◌+◌, ◌-◌, ◌*◌, ◌/◌, ◌≡◌, ◌≢◌, ◌≤◌, ◌<◌, arith, inl, inr, Bool, true, false,
  Bool-cases, ltb, ◌==◌, if◌then◌else◌,
}
use native.Mathlib.Nat.{mul-div-le, lt-mul-div-succ}
use zbeam.Pwm.Generic.{distance, step_delay}

-- `i` is on its way to `end_`.
abbrev pub Toward : (rising : Bool) → (end_ i : ℕ) → Type 0
Toward true end_ i = i ≤ end_
Toward false end_ i = end_ ≤ i

pub step-Toward :
    (rising : Bool) (end_ i n : ℕ)
    → Toward rising end_ i
    → i ≢ end_
    → distance end_ i ≤ suc n
    → let j = if rising then i + 1 else i - 1 in Toward rising end_ j × (distance end_ j ≤ n)
step-Toward true end_ i n t ne d = omega arith
step-Toward false end_ i n t ne d = omega arith

pub step_within :
    (rising : Bool) (end_ i lo hi : ℕ)
    → Toward rising end_ i
    → i ≢ end_
    → lo ≤ i
    → i ≤ hi
    → lo ≤ end_
    → end_ ≤ hi
    → let j = if rising then i + 1 else i - 1 in (lo ≤ j) × (j ≤ hi)
step_within true end_ i lo hi t ne l h le he = omega arith
step_within false end_ i lo hi t ne l h le he = omega arith

pub not_equal : (a b : ℕ) → (a == b) ≡ false → a ≢ b
not_equal a b e = ground arith

pub equal : (a b : ℕ) → (a == b) ≡ true → a ≡ b
equal a b e = ground arith

pub distance_pos : (a b n : ℕ) → b ≢ a → distance a b ≤ n → 0 < n
distance_pos a b n ne d = omega arith

-- The longest that the loop sleeps in all: the delay is at least 1 ms.
abbrev pub longest : (duration_ms steps : ℕ) → ℕ
longest duration_ms steps = if ltb duration_ms steps then steps else duration_ms

pub one_each :
    (duration_ms steps : ℕ)
    → ltb (duration_ms / steps) 1 ≡ true
    → steps * 1 ≤ longest duration_ms steps
one_each duration_ms zero short = omega arith
one_each duration_ms (suc n) short =
    let some_step : 0 < suc n = omega arith in
    let over = lt-mul-div-succ duration_ms some_step in ground arith

pub start-Toward : (start target : ℕ) → Toward (ltb start target) target start
start-Toward start target = ground arith

pub delays_fit :
    (duration_ms steps : ℕ) → steps * step_delay duration_ms steps ≤ longest duration_ms steps
unfolding step_delay
delays_fit duration_ms steps =
    let whole = mul-div-le duration_ms steps in
    elim (Bool-cases (ltb (duration_ms / steps) 1)) [
      | inl short ↦ rw short (one_each duration_ms steps short)
      | inr long ↦ rw long (ground arith)
    ]
