-- ===== src/Pwm/Refine.antt =====
-- src/pwm_ramp_generic.c and src/pwm_ramp_esp32.c beside one lamp, call by call
-- and in a sequence of calls.
use zbeam.Base.{
  ℕ, ◌≡◌, ◌<◌, refl, sym, subst, ◌∙◌, arith, ◌⊎◌, ap, inl, inr, Bool, false, Bool-cases, Option,
  none, some, List, [], ◌∷◌, All, if◌then◌else◌,
}
use zbeam.Base.Int.{ℤ, pos}
use zbeam.Kernel.{enodev}
use zbeam.Pwm.{PwmSpec, Ramp, ramp_reset}
use zbeam.Pwm.Generic
use zbeam.Pwm.Esp32
use zbeam.Pwm.GenericRun
use zbeam.Pwm.Esp32Run
use zbeam.Pwm.Levels.{Arrives}
use zbeam.Pwm.Contract.{
  RampOps, generic_ops, esp32_ops, RampCmd, do_init, do_set, do_start, do_stop, do_get, do_ask,
  ramp_step, ramp_run, Lamp, lamp_reset, lamp_step, lamp_run, Byte, is_bound, Shows, Agrees, IsRamp,
}

module _ (ops : RampOps) (law : IsRamp ops) where
  -- The law for a sequence of calls.
  run-Shows :
      (cs : List RampCmd) (r : Ramp) (l : Lamp)
      → All Byte cs
      → Shows r l
      → (r' : Ramp) × (ramp_run ops cs r ≡ some ((lamp_run cs l).0, r'))
        × Shows r' (lamp_run cs l).1
  unfolding ramp_run lamp_run
  run-Shows [] r l b s = (r, refl, s)
  run-Shows (c ∷ cs) r l (b, bs) s =
      let (r1, e, s1) = law.agrees c r l b s in
      let (r2, e2, s2) = run-Shows cs r1 (lamp_step c l).1 bs s1 in (r2, rw (e, e2) refl, s2)

reset-Shows : Shows ramp_reset lamp_reset
reset-Shows = record { bound = refl; level = refl; idle = refl; byte = omega arith }

dev_cases : (d : Option PwmSpec) → (d ≡ none) ⊎ ((spec : PwmSpec) × (d ≡ some spec))
dev_cases none = inl refl
dev_cases (some spec) = inr (spec, refl)

same_level : {a b : ℕ} → a ≡ b → pos a ≡ pos b
same_level e = ap pos e

-- Without a device nothing is lit, with one the new level is.
absent-Shows :
    (a : Lamp) (r : Ramp) (l : Lamp)
    → Shows r l
    → r.pwm_dev ≡ none
    → Shows r (if l.bound then a else l)
absent-Shows a r l s absent =
    subst (λ b. Shows r (if b then a else l)) (sym (sym s.bound ∙ ap is_bound absent)) s

lit-Shows :
    {spec : PwmSpec} (r r' : Ramp) (l : Lamp)
    → Shows r l
    → r.pwm_dev ≡ some spec
    → r'.pwm_dev ≡ r.pwm_dev
    → r'.ramp_active ≡ false
    → r'.current_brightness < 256
    → Shows r' (if l.bound then record l { level = r'.current_brightness } else l)
lit-Shows r r' l s dev same off byte =
    rw (sym s.bound ∙ ap is_bound dev)
      (record { bound = ap is_bound (same ∙ dev); level = refl; idle = off; byte = byte })

absent-Agrees :
    (a : ℤ × Lamp) (r : Ramp) (l : Lamp)
    → Shows r l
    → r.pwm_dev ≡ none
    → Agrees (some (enodev, r)) (if l.bound then a else (enodev, l))
absent-Agrees a r l s absent =
    subst (λ b. Agrees (some (enodev, r)) (if b then a else (enodev, l)))
      (sym (sym s.bound ∙ ap is_bound absent)) (r, refl, s)

-- A ramp that arrives does what the contract says.
start-Agrees :
    {pulse : ℕ → ℕ} {lo hi most : ℕ} {spec : PwmSpec} {o : Option (ℤ × Ramp)} (target : ℕ)
    (r : Ramp) (l : Lamp)
    → target < 256
    → Shows r l
    → r.pwm_dev ≡ some spec
    → Arrives pulse lo hi most target r o
    → Agrees o (if l.bound then (pos 0, record l { level = target }) else (enodev, l))
start-Agrees target r l b s dev (r', e, at, off, ran) =
    rw (sym s.bound ∙ ap is_bound dev) (
      r',
      e,
      record { bound = ap is_bound (ran.dev ∙ dev); level = at; idle = off; byte = rw at b },
    )

generic-Agrees :
    (c : RampCmd) (r : Ramp) (l : Lamp)
    → Byte c
    → Shows r l
    → Agrees (ramp_step generic_ops c r) (lamp_step c l)
unfolding ramp_step lamp_step Generic.pwm_ramp_init Generic.pwm_ramp_set_brightness
    Generic.pwm_ramp_stop Generic.pwm_ramp_start Generic.start_on Generic.set_on
    Generic.pwm_ramp_get_brightness Generic.pwm_ramp_is_active
generic-Agrees (do_init spec) r l b s = elim (Bool-cases spec.ready) [
  | inl ready ↦
      rw ready (_, refl, record { bound = refl; level = refl; idle = refl; byte = omega arith })
  | inr not_ready ↦ rw not_ready (r, refl, s)
]
generic-Agrees (do_set x) r l b s =
    let Goal = λ (d : Option PwmSpec).
      Shows (Generic.set_on d x r) (if l.bound then record l { level = x } else l) in
    elim (dev_cases r.pwm_dev) [
      | inl absent ↦ (_, refl, subst Goal (sym absent) (absent-Shows _ r l s absent))
      | inr (spec, dev) ↦ (_, refl, subst Goal (sym dev) (lit-Shows r _ l s dev refl s.idle b))
    ]
generic-Agrees (do_start stops target d) r l b s = elim (dev_cases r.pwm_dev) [
  | inl absent ↦
      subst
        (λ dev.
          Agrees (Generic.start_on stops dev target d r) (lamp_step (do_start stops target d) l))
        (sym absent) (absent-Agrees (pos 0, record l { level = target }) r l s absent)
  | inr (spec, dev) ↦ start-Agrees target r l b s dev (
      GenericRun.pwm_ramp_start-Arrives stops spec 0 255 target d r dev (omega arith)
        (omega (arith, s.byte)) (omega arith) (omega arith) (omega arith))
]
generic-Agrees do_stop r l b s =
    (_, refl, record { bound = s.bound; level = s.level; idle = refl; byte = s.byte })
generic-Agrees do_get r l b s = (r, rw s.level refl, s)
generic-Agrees do_ask r l b s = (r, rw s.idle refl, s)

esp32-Agrees :
    (c : RampCmd) (r : Ramp) (l : Lamp)
    → Byte c
    → Shows r l
    → Agrees (ramp_step esp32_ops c r) (lamp_step c l)
unfolding ramp_step lamp_step Esp32.pwm_ramp_init Esp32.pwm_ramp_set_brightness Esp32.pwm_ramp_stop
    Esp32.pwm_ramp_start Esp32.start_on Esp32.set_on Esp32.pwm_ramp_get_brightness
    Esp32.pwm_ramp_is_active
esp32-Agrees (do_init spec) r l b s = elim (Bool-cases spec.ready) [
  | inl ready ↦
      rw ready (_, refl, record { bound = refl; level = refl; idle = refl; byte = omega arith })
  | inr not_ready ↦ rw not_ready (r, refl, s)
]
esp32-Agrees (do_set x) r l b s =
    let Goal = λ (d : Option PwmSpec).
      Shows (Esp32.set_on d x r) (if l.bound then record l { level = x } else l) in
    elim (dev_cases r.pwm_dev) [
      | inl absent ↦ (_, refl, subst Goal (sym absent) (absent-Shows _ r l s absent))
      | inr (spec, dev) ↦ (_, refl, subst Goal (sym dev) (lit-Shows r _ l s dev refl s.idle b))
    ]
esp32-Agrees (do_start stops target d) r l b s = elim (dev_cases r.pwm_dev) [
  | inl absent ↦
      subst
        (λ dev.
          Agrees (Esp32.start_on stops dev target d r) (lamp_step (do_start stops target d) l))
        (sym absent) (absent-Agrees (pos 0, record l { level = target }) r l s absent)
  | inr (spec, dev) ↦ start-Agrees target r l b s dev (
      Esp32Run.pwm_ramp_start-Arrives_in_time stops spec 0 255 target d r dev (omega arith)
        (omega (arith, s.byte)) (omega arith) (omega arith) (omega arith))
]
esp32-Agrees do_stop r l b s =
    (_, refl, record { bound = s.bound; level = s.level; idle = refl; byte = s.byte })
esp32-Agrees do_get r l b s = (r, rw s.level refl, s)
esp32-Agrees do_ask r l b s = (r, rw s.idle refl, s)

-- Both drivers return what the lamp returns, and end with its level.
pub ramp_run-lamp_run :
    (cs : List RampCmd)
    → All Byte cs
    → let (results, lamp) = lamp_run cs lamp_reset in
      ((r : Ramp) × (ramp_run generic_ops cs ramp_reset ≡ some (results, r)) × Shows r lamp)
      × ((r : Ramp) × (ramp_run esp32_ops cs ramp_reset ≡ some (results, r)) × Shows r lamp)
ramp_run-lamp_run cs b = (
  run-Shows generic_ops (record { agrees = generic-Agrees }) cs ramp_reset lamp_reset b reset-Shows,
  run-Shows esp32_ops (record { agrees = esp32-Agrees }) cs ramp_reset lamp_reset b reset-Shows,
)

-- The same call, with other stops if it is a ramp.
abbrev pub restop : (stops : ℕ → Bool) → RampCmd → RampCmd
restop stops (do_start _ target duration_ms) = do_start stops target duration_ms
restop stops (do_init spec) = do_init spec
restop stops (do_set b) = do_set b
restop stops do_stop = do_stop
restop stops do_get = do_get
restop stops do_ask = do_ask

abbrev pub restop_all : (stops : ℕ → Bool) → List RampCmd → List RampCmd
restop_all stops [] = []
restop_all stops (c ∷ cs) = restop stops c ∷ restop_all stops cs
