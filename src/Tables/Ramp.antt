-- ===== src/Tables/Ramp.antt =====
-- include/ramp_table_13bit_g28.h, and include/ramp_table.h, which selects it.
use zbeam.Base.{ℕ, List, [], ◌∷◌, get_or}

-- PWM_RAMP_13BIT_G28_MAX_DUTY.
abbrev pub ramp_table_max_duty : ℕ
ramp_table_max_duty = 8191

unfoldable pub pwm_ramp_table_13bit_g28 : List ℕ
pwm_ramp_table_13bit_g28 =
    0 ∷ 0 ∷ 0 ∷ 0 ∷ 0 ∷ 0 ∷ 0 ∷ 0 ∷ 1 ∷ 1 ∷ 1 ∷ 1 ∷ 2 ∷ 2 ∷ 2 ∷ 3 ∷ 4 ∷ 4 ∷ 5 ∷ 6 ∷ 7 ∷ 8 ∷ 9 ∷ 10
    ∷ 11 ∷ 12 ∷ 14 ∷ 15 ∷ 17 ∷ 19 ∷ 20 ∷ 22 ∷ 25 ∷ 27 ∷ 29 ∷ 32 ∷ 34 ∷ 37 ∷ 40 ∷ 43 ∷ 46 ∷ 49 ∷ 52
    ∷ 56 ∷ 60 ∷ 64 ∷ 68 ∷ 72 ∷ 76 ∷ 81 ∷ 86 ∷ 90 ∷ 95 ∷ 101 ∷ 106 ∷ 112 ∷ 117 ∷ 123 ∷ 130 ∷ 136
    ∷ 143 ∷ 149 ∷ 156 ∷ 163 ∷ 171 ∷ 178 ∷ 186 ∷ 194 ∷ 202 ∷ 211 ∷ 219 ∷ 228 ∷ 237 ∷ 247 ∷ 256 ∷ 266
    ∷ 276 ∷ 287 ∷ 297 ∷ 308 ∷ 319 ∷ 330 ∷ 342 ∷ 354 ∷ 366 ∷ 378 ∷ 390 ∷ 403 ∷ 416 ∷ 430 ∷ 444 ∷ 457
    ∷ 472 ∷ 486 ∷ 501 ∷ 516 ∷ 531 ∷ 547 ∷ 563 ∷ 579 ∷ 596 ∷ 613 ∷ 630 ∷ 647 ∷ 665 ∷ 683 ∷ 701 ∷ 720
    ∷ 739 ∷ 758 ∷ 778 ∷ 798 ∷ 818 ∷ 839 ∷ 860 ∷ 881 ∷ 903 ∷ 925 ∷ 947 ∷ 970 ∷ 993 ∷ 1016 ∷ 1040
    ∷ 1064 ∷ 1088 ∷ 1113 ∷ 1138 ∷ 1163 ∷ 1189 ∷ 1215 ∷ 1242 ∷ 1269 ∷ 1296 ∷ 1324 ∷ 1352 ∷ 1380
    ∷ 1409 ∷ 1438 ∷ 1468 ∷ 1498 ∷ 1528 ∷ 1559 ∷ 1590 ∷ 1622 ∷ 1654 ∷ 1686 ∷ 1719 ∷ 1752 ∷ 1785
    ∷ 1819 ∷ 1854 ∷ 1889 ∷ 1924 ∷ 1960 ∷ 1996 ∷ 2032 ∷ 2069 ∷ 2106 ∷ 2144 ∷ 2182 ∷ 2221 ∷ 2260
    ∷ 2300 ∷ 2340 ∷ 2380 ∷ 2421 ∷ 2462 ∷ 2504 ∷ 2546 ∷ 2589 ∷ 2632 ∷ 2676 ∷ 2720 ∷ 2764 ∷ 2809
    ∷ 2855 ∷ 2900 ∷ 2947 ∷ 2994 ∷ 3041 ∷ 3089 ∷ 3137 ∷ 3186 ∷ 3235 ∷ 3285 ∷ 3335 ∷ 3386 ∷ 3437
    ∷ 3489 ∷ 3541 ∷ 3594 ∷ 3647 ∷ 3701 ∷ 3755 ∷ 3810 ∷ 3865 ∷ 3920 ∷ 3977 ∷ 4034 ∷ 4091 ∷ 4149
    ∷ 4207 ∷ 4266 ∷ 4325 ∷ 4385 ∷ 4446 ∷ 4507 ∷ 4568 ∷ 4630 ∷ 4693 ∷ 4756 ∷ 4820 ∷ 4884 ∷ 4949
    ∷ 5014 ∷ 5080 ∷ 5146 ∷ 5213 ∷ 5281 ∷ 5349 ∷ 5418 ∷ 5487 ∷ 5557 ∷ 5627 ∷ 5698 ∷ 5769 ∷ 5842
    ∷ 5914 ∷ 5987 ∷ 6061 ∷ 6136 ∷ 6211 ∷ 6286 ∷ 6362 ∷ 6439 ∷ 6517 ∷ 6594 ∷ 6673 ∷ 6752 ∷ 6832
    ∷ 6912 ∷ 6993 ∷ 7075 ∷ 7157 ∷ 7240 ∷ 7323 ∷ 7407 ∷ 7492 ∷ 7577 ∷ 7663 ∷ 7749 ∷ 7836 ∷ 7924
    ∷ 8012 ∷ 8101 ∷ 8191 ∷ []

-- `pwm_ramp_table[brightness]`, for a uint8_t.
unfoldable pub pwm_ramp_table : ℕ → ℕ
pwm_ramp_table brightness = get_or pwm_ramp_table_13bit_g28 brightness 0
