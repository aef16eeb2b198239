-- ===== src/System/Registers.antt =====
-- `configure_gpio_for_ledc` of src/main.c.
use zbeam.Base.{ℕ, ◌/◌, ◌%◌, ◌≡◌, refl, arith, true, [], ◌∷◌}
use zbeam.Pwm.Gpio.{set_bit, gpio_enable_reg, signal-bits}
use zbeam.System.{write_registers, gpio7_func_out_sel_reg, configure_gpio_for_ledc}

-- On an ESP32C3 `configure_gpio_for_ledc` writes two registers. In the first the low byte becomes 45
-- and bit 9 is set, in the second bit 7 is set, and every other bit of both is as it was.
pub configure_gpio_for_ledc-bits :
    (register : ℕ → ℕ)
    → (sel : ℕ) × (enable : ℕ) × (configure_gpio_for_ledc true register
        ≡ write_registers ((gpio7_func_out_sel_reg, sel) ∷ (gpio_enable_reg, enable) ∷ []) ∷ [])
      × (sel % 256 ≡ 45)
      × (sel / 256 % 2 ≡ register gpio7_func_out_sel_reg / 256 % 2)
      × (sel / 512 % 2 ≡ 1)
      × (sel / 1024 ≡ register gpio7_func_out_sel_reg / 1024)
      × (enable % 128 ≡ register gpio_enable_reg % 128)
      × (enable / 128 % 2 ≡ 1)
      × (enable / 256 ≡ register gpio_enable_reg / 256)
unfolding configure_gpio_for_ledc set_bit
configure_gpio_for_ledc-bits register =
    let (low, same, routed, high) = signal-bits (register gpio7_func_out_sel_reg) in
    let on = register gpio_enable_reg in
    (_, _, refl, low, same, routed, high, ground arith, ground arith, ground arith)
