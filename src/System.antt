-- ===== src/System.antt =====
-- src/main.c: how the parts are put together and started.
pub mod Boot
pub mod Registers
pub mod Taps
pub mod Tapped
pub mod Events
pub mod Fault
pub mod Live
pub mod Modes
pub mod Hold
pub mod Home
pub mod Turbo
pub mod Quiet
pub mod Threads
pub mod Interrupts
pub mod Sleep
pub mod Schedule
pub mod Waiting
pub mod Prompt
use zbeam.Base.{
  ℕ, ◌+◌, ◌-◌, ◌*◌, ◌/◌, ◌%◌, ◌^◌, Bool, true, false, Option, none, some, List, [], ◌∷◌, ◌++◌, ◌==◌,
  if◌then◌else◌, ◌|>◌,
}
use zbeam.Env.{Env}
use zbeam.Fsm.{Machine, fsm_init}
use zbeam.Node.{Node}
use zbeam.Pwm.{PwmSpec, Ramp}
use zbeam.Pwm.Gpio.{ledc_writes}
use zbeam.Pwm.Contract.{RampOps}
use zbeam.Tap.{Tap, multi_tap_input_init}
use zbeam.Ui.Device.{Device, UiMode}
use zbeam.Ui.Init.{ui_init}
use zbeam.Ui.Actions.{get_start_node}
use zbeam.Tree.Table.{table}

-- The calls of `main` before the first initialisation, and its register writes.
pub data BootCall : Type 0 where
  configure_output : BootCall
  set_pin : (level : ℕ) → BootCall
  boot_sleep : (ms : ℕ) → BootCall
  -- addresses and values, in order
  write_registers : List (ℕ × ℕ) → BootCall

-- The board: the AUX pin's readiness, the PWM of the LED if the device tree has one, which driver of
-- include/pwm_ramp.h is linked, the Kconfig mode, whether the SoC is an ESP32C3, and what
-- its registers hold.
pub record Board : Type 0 where
  pub aux_pin_ready : Bool
  pub pwm_led : Option PwmSpec
  pub ramp_ops : RampOps
  pub default_mode : UiMode
  pub esp32c3 : Bool
  pub register : ℕ → ℕ

-- The state of all parts; the boot calls are oldest first.
pub record System : Type 0 where
  pub lamp : Machine Node Device
  pub ramp : Ramp
  pub tap : Tap
  pub boot_calls : List BootCall

abbrev pub gpio7_func_out_sel_reg : ℕ
gpio7_func_out_sel_reg = 1610630512

-- `configure_gpio_for_ledc`.
unfoldable pub configure_gpio_for_ledc : (esp32c3 : Bool) → (register : ℕ → ℕ) → List BootCall
unfolding ledc_writes
configure_gpio_for_ledc false register = []
configure_gpio_for_ledc true register =
    write_registers (ledc_writes 7 gpio7_func_out_sel_reg register) ∷ []

-- The boot beacon.
unfoldable pub beacon : (aux_pin_ready : Bool) → List BootCall
beacon false = []
beacon true =
    configure_output
    ∷ boot_sleep 100
    ∷ set_pin 0
    ∷ boot_sleep 100
    ∷ set_pin 1
    ∷ boot_sleep 100
    ∷ set_pin 0
    ∷ []

-- `if (pwm_led.dev != NULL && device_is_ready(pwm_led.dev)) pwm_ramp_init(&pwm_led);`
unfoldable pub init_ramp : RampOps → Option PwmSpec → Ramp → Ramp
init_ramp ops none r = r
init_ramp ops (some spec) r = if spec.ready then (ops.init spec r).1 else r

-- `main`, up to its endless sleep.
unfoldable pub boot : Board → Env → System → System
boot b env s =
    let calls =
      beacon b.aux_pin_ready ++ (boot_sleep 1000 ∷ configure_gpio_for_ledc b.esp32c3 b.register) in
    let ready = record (s.lamp) { rest = ui_init b.default_mode env s.lamp.rest } in
    record {
      lamp = fsm_init (table env) (some (get_start_node ready.rest)) ready;
      ramp = init_ramp b.ramp_ops b.pwm_led s.ramp;
      tap = multi_tap_input_init s.tap;
      boot_calls = calls;
    }
