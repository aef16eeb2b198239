-- ===== src/Pwm/Contract.antt =====
-- include/pwm_ramp.h as a record of operations, its three implementations, and a lamp without time to
-- compare them with.
use zbeam.Base.{
  ℕ, ◌≡◌, ◌<◌, Bool, true, false, Option, none, some, List, [], ◌∷◌, if◌then◌else◌, ◌>>=◌,
}
use zbeam.Base.Int.{ℤ, pos}
use zbeam.Kernel.{enodev}
use zbeam.Pwm.{PwmSpec, Ramp}
use zbeam.Pwm.Generic
use zbeam.Pwm.Esp32
use zbeam.Pwm.Dma

-- The functions of the header. `start` is told in which of its sleeps another thread stops it.
pub record RampOps : Type 0 where
  pub init : PwmSpec → Ramp → ℤ × Ramp
  pub set_brightness : ℕ → Ramp → Ramp
  pub start : (stops : ℕ → Bool) → (target duration_ms : ℕ) → Ramp → Option (ℤ × Ramp)
  pub is_active : Ramp → Bool
  pub stop : Ramp → Ramp
  pub get_brightness : Ramp → ℕ

abbrev pub generic_ops : RampOps
generic_ops = record {
  init = Generic.pwm_ramp_init;
  set_brightness = Generic.pwm_ramp_set_brightness;
  start = Generic.pwm_ramp_start;
  is_active = Generic.pwm_ramp_is_active;
  stop = Generic.pwm_ramp_stop;
  get_brightness = Generic.pwm_ramp_get_brightness;
}

abbrev pub esp32_ops : RampOps
esp32_ops = record {
  init = Esp32.pwm_ramp_init;
  set_brightness = Esp32.pwm_ramp_set_brightness;
  start = Esp32.pwm_ramp_start;
  is_active = Esp32.pwm_ramp_is_active;
  stop = Esp32.pwm_ramp_stop;
  get_brightness = Esp32.pwm_ramp_get_brightness;
}

abbrev pub dma_ops : RampOps
dma_ops = record {
  init = Dma.pwm_ramp_init;
  set_brightness = Dma.pwm_ramp_set_brightness;
  start = λ stops target duration_ms r. some (Dma.pwm_ramp_start target duration_ms r);
  is_active = Dma.pwm_ramp_is_active;
  stop = Dma.pwm_ramp_stop;
  get_brightness = Dma.pwm_ramp_get_brightness;
}

-- A call of one of them.
pub data RampCmd : Type 0 where
  do_init : PwmSpec → RampCmd
  do_set : (brightness : ℕ) → RampCmd
  do_start : (stops : ℕ → Bool) → (target duration_ms : ℕ) → RampCmd
  do_stop : RampCmd
  do_get : RampCmd
  do_ask : RampCmd

-- The result as a number, 0 where there is none, and the state after it.
unfoldable pub ramp_step : RampOps → RampCmd → Ramp → Option (ℤ × Ramp)
ramp_step ops (do_init spec) r = some (ops.init spec r)
ramp_step ops (do_set b) r = some (pos 0, ops.set_brightness b r)
ramp_step ops (do_start stops target duration_ms) r = ops.start stops target duration_ms r
ramp_step ops do_stop r = some (pos 0, ops.stop r)
ramp_step ops do_get r = some (pos (ops.get_brightness r), r)
ramp_step ops do_ask r = some (if ops.is_active r then pos 1 else pos 0, r)

unfoldable pub ramp_run : RampOps → List RampCmd → Ramp → Option (List ℤ × Ramp)
ramp_run ops [] r = some ([], r)
ramp_run ops (c ∷ cs) r = do
  (x, r1) ← ramp_step ops c r
  (xs, r2) ← ramp_run ops cs r1
  some (x ∷ xs, r2)

-- The lamp: whether it is initialised, and its level. A ramp puts it at its target at once, stopped or
-- not. The header says of `pwm_ramp_stop` that it holds the current brightness; the drivers set the
-- target when a stopped ramp ends, and this lamp is theirs.
pub record Lamp : Type 0 where
  pub bound : Bool
  pub level : ℕ

abbrev pub lamp_reset : Lamp
lamp_reset = record { bound = false; level = 0 }

unfoldable pub lamp_step : RampCmd → Lamp → ℤ × Lamp
lamp_step (do_init spec) l =
    if spec.ready then (pos 0, record { bound = true; level = 0 }) else (enodev, l)
lamp_step (do_set b) l = (pos 0, if l.bound then record l { level = b } else l)
lamp_step (do_start stops target duration_ms) l =
    if l.bound then (pos 0, record l { level = target }) else (enodev, l)
lamp_step do_stop l = (pos 0, l)
lamp_step do_get l = (pos l.level, l)
lamp_step do_ask l = (pos 0, l)

unfoldable pub lamp_run : List RampCmd → Lamp → List ℤ × Lamp
lamp_run [] l = ([], l)
lamp_run (c ∷ cs) l = let (x, l1) = lamp_step c l in let (xs, l2) = lamp_run cs l1 in (x ∷ xs, l2)

-- The levels passed are of type `uint8_t`.
abbrev pub Byte : RampCmd → Type 0
Byte (do_init spec) = Unit
Byte (do_set b) = b < 256
Byte (do_start stops target duration_ms) = target < 256
Byte do_stop = Unit
Byte do_get = Unit
Byte do_ask = Unit

abbrev pub is_bound : Option PwmSpec → Bool
is_bound none = false
is_bound (some spec) = true

-- The driver's variables stand for the lamp; no ramp is going on between two calls.
pub record Shows (r : Ramp) (l : Lamp) : Type 0 where
  pub bound : is_bound r.pwm_dev ≡ l.bound
  pub level : r.current_brightness ≡ l.level
  pub idle : r.ramp_active ≡ false
  pub byte : r.current_brightness < 256

-- A call gives the lamp's result and a state that stands for the lamp's.
abbrev pub Agrees : Option (ℤ × Ramp) → ℤ × Lamp → Type 0
Agrees o (x, l) = (r : Ramp) × (o ≡ some (x, r)) × Shows r l

-- The law of an implementation.
pub record IsRamp (ops : RampOps) : Type 0 where
  pub agrees :
      (c : RampCmd) (r : Ramp) (l : Lamp)
      → Byte c
      → Shows r l
      → Agrees (ramp_step ops c r) (lamp_step c l)
