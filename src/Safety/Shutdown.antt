-- ===== src/Safety/Shutdown.antt =====
-- When lib/safety_monitor.c shuts the lamp down.
use mathlib.Core.Path.{ap₂}
use zbeam.Base.{
  ℕ, suc, ◌+◌, ◌≤◌, ◌<◌, ◌≡◌, ◌↔◌, refl, ap, ◌∙◌, inl, inr, arith, Bool, true, false, Bool-cases,
  not, ◌/◌, ◌||◌, List, [], ◌∷◌, ◌++◌, if◌then◌else◌,
}
use zbeam.Base.Int.{pos, ◌≤ℤ◌, ◌-ℤ◌, quot, wrap}
use zbeam.Msg.{MsgType, safety_shutdown, safety_thermal_warn, ZbeamMsg}
use zbeam.Safety.{
  safety_ok, Readings, Limits, Safety, check_fault, is_safe, warn_severity, safety_round,
  safety_run,
}

-- The readings are within all limits.
abbrev pub Within : Limits → Readings → Type 0
Within l r =
    (r.current_ma ≤ l.current_max_ma)
    × (r.temperature_c10 ≤ℤ pos l.temp_shutdown_c10)
    × (l.voltage_min_mv ≤ r.voltage_mv)
    × (r.voltage_mv ≤ l.voltage_max_mv)

-- A round finds no fault exactly if the readings are within all limits, the limits included.
pub check_fault_iff : (l : Limits) (r : Readings) → (check_fault l r ≡ safety_ok) ↔ Within l r
unfolding check_fault
check_fault_iff l r = (λ h. ground arith, λ h. ground arith)

is_shutdown : MsgType → Bool
is_shutdown safety_shutdown = true
is_shutdown _ = false

-- How many messages ask for a shutdown.
pub shutdowns : List ZbeamMsg → ℕ
unfolding is_shutdown
shutdowns [] = 0
shutdowns (m ∷ ms) = let n = shutdowns ms in if is_shutdown m.type then suc n else n

-- Some of the readings are not within the limits.
abbrev pub any_fault : Limits → List Readings → Bool
any_fault l [] = false
any_fault l (r ∷ rs) = not (is_safe (check_fault l r)) || any_fault l rs

shutdowns-append : (ms ns : List ZbeamMsg) → shutdowns (ms ++ ns) ≡ shutdowns ms + shutdowns ns
unfolding shutdowns
shutdowns-append [] ns = omega arith
shutdowns-append (m ∷ ms) ns = ground (arith, shutdowns-append ms ns)

shutdowns-nil : shutdowns [] ≡ 0
unfolding shutdowns
shutdowns-nil = refl

round-after :
    (l : Limits) (r : Readings) (s : Safety)
    → s.shutdown_triggered ≡ true
    → (shutdowns (safety_round l r s).1 ≡ 0) × ((safety_round l r s).0.shutdown_triggered ≡ true)
unfolding safety_round shutdowns
round-after l r s h = ground arith

round-before :
    (l : Limits) (r : Readings) (s : Safety)
    → s.shutdown_triggered ≡ false
    → (shutdowns (safety_round l r s).1 ≡ (if is_safe (check_fault l r) then 0 else 1))
      × ((safety_round l r s).0.shutdown_triggered ≡ not (is_safe (check_fault l r)))
unfolding safety_round shutdowns
round-before l r s h = ground arith

-- Once the shutdown has been triggered, no later round asks for it again.
pub run-after :
    (l : Limits) (rs : List Readings) (s : Safety)
    → s.shutdown_triggered ≡ true
    → (shutdowns (safety_run l rs s).1 ≡ 0) × ((safety_run l rs s).0.shutdown_triggered ≡ true)
unfolding safety_run
run-after l [] s h = (shutdowns-nil, h)
run-after l (r ∷ rs) s h =
    let now = round-after l r s h in
    let rest = run-after l rs (safety_round l r s).0 now.1 in
    (
      omega (
        arith,
        shutdowns-append (safety_round l r s).1 (safety_run l rs (safety_round l r s).0).1,
        now,
        rest,
      ),
      rest.1,
    )

-- From a state with no shutdown, any number of rounds posts one shutdown message if some reading is
-- out of the limits, and none otherwise; and the flag is then set, or not.
pub run-shutdowns :
    (l : Limits) (rs : List Readings) (s : Safety)
    → s.shutdown_triggered ≡ false
    → (shutdowns (safety_run l rs s).1 ≡ (if any_fault l rs then 1 else 0))
      × ((safety_run l rs s).0.shutdown_triggered ≡ any_fault l rs)
unfolding safety_run
run-shutdowns l [] s h = (shutdowns-nil, h)
run-shutdowns l (r ∷ rs) s h =
    let now = round-before l r s h in
    let s' = (safety_round l r s).0 in
    let both = shutdowns-append (safety_round l r s).1 (safety_run l rs s').1 in
    elim (Bool-cases (is_safe (check_fault l r))) [
      | inl safe ↦
          let rest = run-shutdowns l rs s' (now.1 ∙ ap not safe) in
          let none_now = now.0 ∙ ap (λ b. if b then 0 else 1) safe in
          rw safe (both ∙ ap₂ ◌+◌ none_now rest.0 ∙ omega arith, rest.1)
      | inr bad ↦
          let rest = run-after l rs s' (now.1 ∙ ap not bad) in
          let one_now = now.0 ∙ ap (λ b. if b then 0 else 1) bad in
          rw bad (both ∙ ap₂ ◌+◌ one_now rest.0, rest.1)
    ]

excess-value : (w e : ℕ) → pos (w + e) -ℤ pos w ≡ pos e
unfolding ◌-ℤ◌
excess-value w e = ground arith

severity-value :
    (l : Limits) (r : Readings) (e : ℕ)
    → r.temperature_c10 ≡ pos (l.temp_warn_c10 + e)
    → e < 2560
    → warn_severity l r ≡ e / 10
unfolding warn_severity quot wrap
severity-value l r e hot small = rw (hot, excess-value l.temp_warn_c10 e) (omega arith)

-- With no fault now and none on record, a round at 0.1 to 255.9 degrees above the warning
-- threshold posts one warning, whose severity is the excess in whole degrees, and changes
-- nothing but the last readings.
pub round-warning :
    (l : Limits) (r : Readings) (s : Safety) (excess : ℕ)
    → check_fault l r ≡ safety_ok
    → s.current_fault ≡ safety_ok
    → r.temperature_c10 ≡ pos (l.temp_warn_c10 + suc excess)
    → suc excess < 2560
    → safety_round l r s ≡ (
      record s { last_readings = r },
      record { type = safety_thermal_warn; count = 0; severity = suc excess / 10 } ∷ [],
    )
unfolding safety_round
round-warning l r s excess ok clear hot small =
    ground (arith, severity-value l r (suc excess) hot small)
