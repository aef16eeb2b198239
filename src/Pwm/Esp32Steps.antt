-- ===== src/Pwm/Esp32Steps.antt =====
-- The levels of the loop of src/pwm_ramp_esp32.c, one round after another.
use zbeam.Base.{ℕ, ◌+◌, ◌-◌, ◌*◌, ◌≡◌, ◌≤◌, ◌<◌, arith, Bool, true, false, ltb, if◌then◌else◌}
use zbeam.Pwm.Esp32.{next_idx, goes_on, total_steps, interpolation_step}

-- `n` rounds from `i` reach `end_`.
abbrev pub Reaches : (rising : Bool) → (end_ i n : ℕ) → Type 0
Reaches true end_ i n = end_ ≤ i + n * 8
Reaches false end_ i n = i ≤ end_ + n * 8

-- The bound of `i` on the side from which it comes; it can pass `end_` on the other.
abbrev pub Side : (rising : Bool) → (lo hi i : ℕ) → Type 0
Side true lo hi i = lo ≤ i
Side false lo hi i = i ≤ hi

abbrev pub advance : (rising : Bool) → ℕ → ℕ
advance rising i = if rising then i + interpolation_step else i - interpolation_step

pub Reaches-none :
    (rising : Bool) (end_ i : ℕ) → Reaches rising end_ i 0 → goes_on rising end_ i ≡ false
Reaches-none true end_ i h = ground arith
Reaches-none false end_ i h = ground arith

pub some_round :
    (rising : Bool) (end_ i n : ℕ) → Reaches rising end_ i n → goes_on rising end_ i ≡ true → 0 < n
some_round true end_ i n h g = ground arith
some_round false end_ i n h g = ground arith

pub step_Reaches :
    (rising : Bool) (end_ i n : ℕ)
    → Reaches rising end_ i n
    → goes_on rising end_ i ≡ true
    → Reaches rising end_ (advance rising i) (n - 1)
step_Reaches true end_ i n h g = ground arith
step_Reaches false end_ i n h g = ground arith

pub step_Side :
    (rising : Bool) (lo hi i : ℕ) → Side rising lo hi i → Side rising lo hi (advance rising i)
step_Side true lo hi i h = omega arith
step_Side false lo hi i h = omega arith

pub next_within :
    (rising : Bool) (end_ i lo hi : ℕ)
    → goes_on rising end_ i ≡ true
    → Side rising lo hi i
    → lo ≤ end_
    → end_ ≤ hi
    → (lo ≤ next_idx rising end_ i) × (next_idx rising end_ i ≤ hi)
unfolding next_idx
next_within true end_ i lo hi g s le he = ground arith
next_within false end_ i lo hi g s le he = ground arith

-- The start of the loop.
pub start_Reaches :
    (start target : ℕ) → Reaches (ltb start target) target start (total_steps target start)
start_Reaches start target = ground arith

pub start_Side :
    (start target lo hi : ℕ) → lo ≤ start → start ≤ hi → Side (ltb start target) lo hi start
start_Side start target lo hi l h = ground arith

pub few_steps :
    (start target hi : ℕ) → start ≤ hi → target ≤ hi → hi < 256 → total_steps target start ≤ 32
few_steps start target hi s t h = omega arith
