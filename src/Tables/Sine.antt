-- ===== src/Tables/Sine.antt =====
-- include/ramp_sine_13bit_g28.h.
use zbeam.Base.{ℕ, List, [], ◌∷◌, get_or}

unfoldable pub pwm_sine_table_13bit_g28 : List ℕ
pwm_sine_table_13bit_g28 =
    0 ∷ 0 ∷ 0 ∷ 0 ∷ 0 ∷ 0 ∷ 0 ∷ 0 ∷ 0 ∷ 0 ∷ 0 ∷ 0 ∷ 0 ∷ 0 ∷ 0 ∷ 1 ∷ 1 ∷ 1 ∷ 2 ∷ 2 ∷ 3 ∷ 4 ∷ 5 ∷ 6
    ∷ 8 ∷ 10 ∷ 12 ∷ 15 ∷ 19 ∷ 22 ∷ 27 ∷ 32 ∷ 38 ∷ 44 ∷ 52 ∷ 61 ∷ 70 ∷ 81 ∷ 93 ∷ 107 ∷ 121 ∷ 138
    ∷ 156 ∷ 176 ∷ 197 ∷ 221 ∷ 247 ∷ 275 ∷ 305 ∷ 337 ∷ 372 ∷ 410 ∷ 450 ∷ 493 ∷ 539 ∷ 588 ∷ 641 ∷ 696
    ∷ 754 ∷ 816 ∷ 881 ∷ 950 ∷ 1022 ∷ 1097 ∷ 1176 ∷ 1259 ∷ 1345 ∷ 1435 ∷ 1528 ∷ 1625 ∷ 1726 ∷ 1830
    ∷ 1937 ∷ 2048 ∷ 2162 ∷ 2280 ∷ 2401 ∷ 2525 ∷ 2652 ∷ 2781 ∷ 2914 ∷ 3049 ∷ 3186 ∷ 3326 ∷ 3468
    ∷ 3612 ∷ 3757 ∷ 3904 ∷ 4053 ∷ 4202 ∷ 4352 ∷ 4503 ∷ 4654 ∷ 4806 ∷ 4957 ∷ 5107 ∷ 5258 ∷ 5407
    ∷ 5555 ∷ 5701 ∷ 5846 ∷ 5988 ∷ 6129 ∷ 6267 ∷ 6402 ∷ 6534 ∷ 6662 ∷ 6787 ∷ 6908 ∷ 7025 ∷ 7137
    ∷ 7245 ∷ 7348 ∷ 7446 ∷ 7538 ∷ 7625 ∷ 7707 ∷ 7782 ∷ 7852 ∷ 7915 ∷ 7973 ∷ 8023 ∷ 8067 ∷ 8105
    ∷ 8136 ∷ 8160 ∷ 8177 ∷ 8188 ∷ 8191 ∷ 8188 ∷ 8177 ∷ 8160 ∷ 8136 ∷ 8105 ∷ 8067 ∷ 8023 ∷ 7973
    ∷ 7915 ∷ 7852 ∷ 7782 ∷ 7707 ∷ 7625 ∷ 7538 ∷ 7446 ∷ 7348 ∷ 7245 ∷ 7137 ∷ 7025 ∷ 6908 ∷ 6787
    ∷ 6662 ∷ 6534 ∷ 6402 ∷ 6267 ∷ 6129 ∷ 5988 ∷ 5846 ∷ 5701 ∷ 5555 ∷ 5407 ∷ 5258 ∷ 5107 ∷ 4957
    ∷ 4806 ∷ 4654 ∷ 4503 ∷ 4352 ∷ 4202 ∷ 4053 ∷ 3904 ∷ 3757 ∷ 3612 ∷ 3468 ∷ 3326 ∷ 3186 ∷ 3049
    ∷ 2914 ∷ 2781 ∷ 2652 ∷ 2525 ∷ 2401 ∷ 2280 ∷ 2162 ∷ 2048 ∷ 1937 ∷ 1830 ∷ 1726 ∷ 1625 ∷ 1528
    ∷ 1435 ∷ 1345 ∷ 1259 ∷ 1176 ∷ 1097 ∷ 1022 ∷ 950 ∷ 881 ∷ 816 ∷ 754 ∷ 696 ∷ 641 ∷ 588 ∷ 539 ∷ 493
    ∷ 450 ∷ 410 ∷ 372 ∷ 337 ∷ 305 ∷ 275 ∷ 247 ∷ 221 ∷ 197 ∷ 176 ∷ 156 ∷ 138 ∷ 121 ∷ 107 ∷ 93 ∷ 81
    ∷ 70 ∷ 61 ∷ 52 ∷ 44 ∷ 38 ∷ 32 ∷ 27 ∷ 22 ∷ 19 ∷ 15 ∷ 12 ∷ 10 ∷ 8 ∷ 6 ∷ 5 ∷ 4 ∷ 3 ∷ 2 ∷ 2 ∷ 1 ∷ 1
    ∷ 1 ∷ 0 ∷ 0 ∷ 0 ∷ 0 ∷ 0 ∷ 0 ∷ 0 ∷ 0 ∷ 0 ∷ 0 ∷ 0 ∷ 0 ∷ 0 ∷ 0 ∷ []

-- `pwm_sine_table_13bit_g28[sine_index]`, for a uint8_t.
unfoldable pub pwm_sine_table : ℕ → ℕ
pwm_sine_table sine_index = get_or pwm_sine_table_13bit_g28 sine_index 0
