-- ===== src/Safety/Stub.antt =====
-- What the monitor of lib/safety_monitor.c does with the readings that it has without a mock.
use zbeam.Base.{ℕ, zero, suc, ◌≤◌, ◌≡◌, refl, ap, ◌∙◌, arith, Option, none, List, [], ◌∷◌, ◌++◌}
use zbeam.Safety.{
  safety_ok, Readings, Limits, Safety, read_sensors, check_fault, safety_round, safety_run,
  safety_thread_entry,
}

-- Some rounds without a mock.
abbrev pub unmocked : ℕ → List (Option Readings)
unmocked zero = []
unmocked (suc n) = none ∷ unmocked n

-- Limits that admit 25 degrees without a warning, 500 mA and 3700 mV.
abbrev pub Admits : Limits → Type 0
Admits l =
    (250 ≤ l.temp_warn_c10)
    × (250 ≤ l.temp_shutdown_c10)
    × (500 ≤ l.current_max_ma)
    × (l.voltage_min_mv ≤ 3700)
    × (3700 ≤ l.voltage_max_mv)

quiet-round :
    (l : Limits) (s : Safety)
    → Admits l
    → let (s', ms) = safety_round l (read_sensors none) s in
      (ms ≡ []) × (s'.current_fault ≡ safety_ok) × (s'.shutdown_triggered ≡ s.shutdown_triggered)
unfolding safety_round read_sensors check_fault
quiet-round l s h = ground arith

-- From a state with no fault, and under limits that admit the constant readings, the monitor posts no
-- message, neither a warning nor a shutdown, however often it goes round without a mock; there is
-- still no fault, and the shutdown flag is as it was.
pub unmocked-quiet :
    (n : ℕ) (l : Limits) (s : Safety)
    → Admits l
    → s.current_fault ≡ safety_ok
    → let (s', ms) = safety_thread_entry l (unmocked n) s in
      (ms ≡ []) × (s'.current_fault ≡ safety_ok) × (s'.shutdown_triggered ≡ s.shutdown_triggered)
unfolding safety_thread_entry safety_run
unmocked-quiet zero l s h ok = (refl, ok, refl)
unmocked-quiet (suc n) l s h ok =
    let (posted, fine, same) = quiet-round l s h in
    let (posted', fine', same') =
      unmocked-quiet n l (safety_round l (read_sensors none) s).0 h fine in
    (
      ap
            (λ ms.
              ms ++ (safety_thread_entry l (unmocked n) (safety_round l (read_sensors none) s).0).1)
            posted
          ∙ posted',
      fine',
      same' ∙ same,
    )
