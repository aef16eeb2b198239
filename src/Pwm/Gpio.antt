-- ===== src/Pwm/Gpio.antt =====
-- The GPIO matrix of the ESP32C3: the register writes of `configure_gpio_for_ledc`, which is in
-- src/main.c for pin 7 and in src/pwm_ramp_esp32.c for pin 8.
use zbeam.Base.{ℕ, ◌+◌, ◌-◌, ◌/◌, ◌%◌, ◌^◌, ◌≡◌, arith, List, [], ◌∷◌, ◌==◌, if◌then◌else◌}

-- `n | (1 << k)`.
unfoldable pub set_bit : (k n : ℕ) → ℕ
set_bit k n = if n / 2 ^ k % 2 == 0 then n + 2 ^ k else n

abbrev pub gpio_enable_reg : ℕ
gpio_enable_reg = 1610629152

abbrev pub ledc_ls_sig_out0 : ℕ
ledc_ls_sig_out0 = 45

-- The addresses and the values written. The signal takes the place of the low byte; 45 has no bit 9.
unfoldable pub ledc_writes : (pin sel_reg : ℕ) → (register : ℕ → ℕ) → List (ℕ × ℕ)
unfolding set_bit
ledc_writes pin sel_reg register =
    let sel = register sel_reg in
    let signal = sel - sel % 256 + ledc_ls_sig_out0 in
    (sel_reg, set_bit 9 signal) ∷ (gpio_enable_reg, set_bit pin (register gpio_enable_reg)) ∷ []

-- The low byte becomes 45 and bit 9 is set, and every other bit is as it was.
pub signal-bits :
    (sel : ℕ)
    → let new = set_bit 9 (sel - sel % 256 + ledc_ls_sig_out0) in
      (new % 256 ≡ 45)
      × (new / 256 % 2 ≡ sel / 256 % 2)
      × (new / 512 % 2 ≡ 1)
      × (new / 1024 ≡ sel / 1024)
unfolding set_bit
signal-bits sel = (ground arith, ground arith, ground arith, ground arith)
