-- ===== src/Examples/Drivers.antt =====
-- The PWM drivers and the storage at concrete inputs, with a ZMS that is a function.
use zbeam.Base.{
  ℕ, ◌≡◌, ◌≢◌, refl, arith, Bool, true, false, Option, none, some, List, [], ◌∷◌, length, ◌==◌,
  if◌then◌else◌,
}
use zbeam.Base.Int.{ℤ, pos, negsuc}
use zbeam.Kernel.{enoent}
use zbeam.Nvs.{Flash}
use zbeam.Pwm.{PwmSpec, Ramp, ramp_reset}
use zbeam.Pwm.Generic
use zbeam.Pwm.Esp32
use zbeam.Pwm.GenericRun.{pwm_ramp_start-Arrives}
use zbeam.Pwm.Esp32Run.{pwm_ramp_start-Arrives_in_time}
use zbeam.Pwm.Levels.{Arrives}
use zbeam.Pwm.Contract.{RampCmd, do_init, do_set, do_start, do_get, do_ask}
use zbeam.Storage.{
  SystemConfig, config_bytes, Fits, Zms, Storage, storage_save_system_config,
  storage_load_system_config, storage_write,
}
use zbeam.Storage.Persist.{IsZms, load-save}

abbrev led : PwmSpec
led = record { ready = true; period = 1000000 }

abbrev dim : Ramp
dim = record ramp_reset { pwm_dev = some led; current_brightness = 30 }

-- Another thread stops the ramp in its third sleep.
abbrev stopped_at_2 : ℕ → Bool
stopped_at_2 k = k == 2

pwm_ramp_start-Arrives_example :
    Arrives
      (Generic.brightness_to_pulse_ns 1000000)
      10
      30
      500
      10
      dim
      (Generic.pwm_ramp_start stopped_at_2 10 500 dim)
pwm_ramp_start-Arrives_example =
    pwm_ramp_start-Arrives stopped_at_2 led 10 30 10 500 dim refl (omega arith) (omega arith)
      (omega arith) (omega arith) (omega arith)

pwm_ramp_start-Arrives_in_time_example :
    Arrives Esp32.brightness_to_pulse_ns 10 30 500 10 dim
      (Esp32.pwm_ramp_start stopped_at_2 10 500 dim)
pwm_ramp_start-Arrives_in_time_example =
    pwm_ramp_start-Arrives_in_time stopped_at_2 led 10 30 10 500 dim refl (omega arith)
      (omega arith) (omega arith) (omega arith) (omega arith)

abbrev calls : List RampCmd
calls =
    do_set 9
    ∷ do_init led
    ∷ do_set 20
    ∷ do_get
    ∷ do_start stopped_at_2 40 100
    ∷ do_get
    ∷ do_ask
    ∷ []

-- A flash whose entries are a function of their numbers.
abbrev Content : Type 0
Content = ℕ → Option (List ℕ)

abbrev read_entry : Option (List ℕ) → ℤ × List ℕ
read_entry none = (enoent, [])
read_entry (some bytes) = (pos (length bytes), bytes)

abbrev simple_zms : Zms Content
simple_zms = record {
  mount = λ layout c. (pos 0, c);
  write = λ id bytes c. (pos (length bytes), λ i. if i == id then some bytes else c i);
  read = λ id len c. read_entry (c id);
  delete = λ id c. (pos 0, λ i. if i == id then none else c i);
}

same_id : (id : ℕ) → (id == id) ≡ true
same_id id = ground arith

other_id : (id other : ℕ) → other ≢ id → (other == id) ≡ false
other_id id other ne = ground arith

simple_law : IsZms simple_zms
simple_law = record {
  read_written = λ id bytes c ok. rw (same_id id) refl;
  read_deleted = λ id len c ok. rw (same_id id) refl;
  read_other = λ id other len c ne. rw (other_id id other ne) refl;
}

abbrev mounted : Storage Content
mounted = record {
  fs = record { offset = 65536; sector_size = 4096; sector_count = 2 };
  content = λ _. none;
  initialized = true;
}

abbrev config : SystemConfig
config = record {
  click_timeout_ms = 400;
  hold_duration_ms = 70000;
  last_brightness = 200;
  reserved = (0, 0, 0);
}

abbrev blank : SystemConfig
blank = record {
  click_timeout_ms = 0;
  hold_duration_ms = 0;
  last_brightness = 0;
  reserved = (0, 0, 0);
}

config-Fits : Fits config
config-Fits = record { click = omega arith; hold = omega arith }

load-save_example :
    storage_load_system_config simple_zms blank
      (storage_save_system_config simple_zms config mounted).1
    ≡ (pos 0, config)
unfolding storage_save_system_config storage_write config_bytes
load-save_example = load-save simple_zms simple_law mounted config blank refl config-Fits refl

abbrev bad_flash : Flash
bad_flash = record { ready = true; partition_offset = 65536; page_info = λ _. (negsuc 21, 0) }

abbrev unmounted : Storage Content
unmounted = record mounted { initialized = false }
