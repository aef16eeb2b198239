-- ===== src/Tables/Shape.antt =====
-- What the tables of include/ are like: their lengths, their largest entry and their order.
use zbeam.Base.{
  ℕ, zero, suc, ◌≡◌, ◌≤◌, ◌<◌, refl, arith, Bool, true, ◌&&◌, leb, List, [], ◌∷◌, length, get_or,
}
use zbeam.Tables.Ramp.{ramp_table_max_duty, pwm_ramp_table_13bit_g28, pwm_ramp_table}
use zbeam.Tables.Sine.{pwm_sine_table_13bit_g28, pwm_sine_table}

all_le : ℕ → List ℕ → Bool
all_le k [] = true
all_le k (x ∷ xs) = leb x k && all_le k xs

-- Rising from `low` on.
rises_from : (low : ℕ) → List ℕ → Bool
rises_from low [] = true
rises_from low (x ∷ xs) = leb low x && rises_from x xs

get_or-le : (k : ℕ) (xs : List ℕ) (i : ℕ) → all_le k xs ≡ true → get_or xs i 0 ≤ k
unfolding all_le
get_or-le k [] i h = omega arith
get_or-le k (x ∷ xs) zero h = ground arith
get_or-le k (x ∷ xs) (suc i) h = ground (arith, get_or-le k xs i)

get_or-ge :
    (low : ℕ) (xs : List ℕ) (i : ℕ) → rises_from low xs ≡ true → i < length xs → low ≤ get_or xs i 0
unfolding rises_from
get_or-ge low [] i h l = absurd (omega arith)
get_or-ge low (x ∷ xs) zero h l = ground arith
get_or-ge low (x ∷ xs) (suc i) h l =
    let _x : x ≤ get_or xs i 0 = get_or-ge x xs i (ground arith) (omega arith) in ground arith

get_or_mono :
    (low : ℕ) (xs : List ℕ) (i j : ℕ)
    → rises_from low xs ≡ true
    → i ≤ j
    → j < length xs
    → get_or xs i 0 ≤ get_or xs j 0
unfolding rises_from
get_or_mono low [] i j h l m = absurd (omega arith)
get_or_mono low (x ∷ xs) zero zero h l m = omega arith
get_or_mono low (x ∷ xs) zero (suc j) h l m = get_or-ge x xs j (ground arith) (omega arith)
get_or_mono low (x ∷ xs) (suc i) zero h l m = absurd (omega arith)
get_or_mono low (x ∷ xs) (suc i) (suc j) h l m =
    get_or_mono x xs i j (ground arith) (omega arith) (omega arith)

ramp_tests :
    (all_le ramp_table_max_duty pwm_ramp_table_13bit_g28 ≡ true)
    × (rises_from 0 pwm_ramp_table_13bit_g28 ≡ true)
    × (length pwm_ramp_table_13bit_g28 ≡ 256)
unfolding all_le rises_from pwm_ramp_table_13bit_g28
ramp_tests = (refl, refl, refl)

sine_test : all_le ramp_table_max_duty pwm_sine_table_13bit_g28 ≡ true
unfolding all_le pwm_sine_table_13bit_g28
sine_test = refl

pub pwm_ramp_table-le : (b : ℕ) → pwm_ramp_table b ≤ ramp_table_max_duty
unfolding pwm_ramp_table
pwm_ramp_table-le b = get_or-le ramp_table_max_duty pwm_ramp_table_13bit_g28 b ramp_tests.0

pub pwm_ramp_table_mono : (a b : ℕ) → a ≤ b → b < 256 → pwm_ramp_table a ≤ pwm_ramp_table b
unfolding pwm_ramp_table
pwm_ramp_table_mono a b h k =
    get_or_mono 0 pwm_ramp_table_13bit_g28 a b ramp_tests.1 h (rw ramp_tests.2 k)

pub pwm_sine_table-le : (i : ℕ) → pwm_sine_table i ≤ ramp_table_max_duty
unfolding pwm_sine_table
pwm_sine_table-le i = get_or-le ramp_table_max_duty pwm_sine_table_13bit_g28 i sine_test

-- Dark at level 0, full at level 255.
pub pwm_ramp_table-ends : (pwm_ramp_table 0 ≡ 0) × (pwm_ramp_table 255 ≡ ramp_table_max_duty)
unfolding pwm_ramp_table pwm_ramp_table_13bit_g28
pwm_ramp_table-ends = (refl, refl)
