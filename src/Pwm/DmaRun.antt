-- ===== src/Pwm/DmaRun.antt =====
-- src/pwm_ramp_dma.c, in every sequence of calls.
use zbeam.Base.{◌≡◌, refl, ◌∙◌, inl, inr, Bool-cases, some, List, [], ◌∷◌}
use zbeam.Base.Int.{ℤ}
use zbeam.Pwm.{Ramp}
use zbeam.Pwm.Dma
use zbeam.Pwm.Contract.{
  dma_ops, RampCmd, do_init, do_set, do_start, do_stop, do_get, do_ask, ramp_step, ramp_run,
}

dma_step :
    (c : RampCmd) (r : Ramp)
    → (x : ℤ) × (r' : Ramp) × (ramp_step dma_ops c r ≡ some (x, r')) × (r'.calls ≡ r.calls)
unfolding ramp_step Dma.pwm_ramp_init Dma.pwm_ramp_set_brightness Dma.pwm_ramp_start
    Dma.pwm_ramp_stop
dma_step (do_init spec) r = elim (Bool-cases spec.ready) [
  | inl ready ↦ rw ready (_, _, refl, refl)
  | inr not_ready ↦ rw not_ready (_, _, refl, refl)
]
dma_step (do_set b) r = (_, _, refl, refl)
dma_step (do_start stops target d) r = (_, _, refl, refl)
dma_step do_stop r = (_, _, refl, refl)
dma_step do_get r = (_, _, refl, refl)
dma_step do_ask r = (_, _, refl, refl)

-- In every sequence of calls, from any state, src/pwm_ramp_dma.c makes no call of the hardware: it
-- changes no pulse and sleeps not at all.
pub ramp_run-dark :
    (cs : List RampCmd) (r : Ramp)
    → (results : List ℤ) × (r' : Ramp) × (ramp_run dma_ops cs r ≡ some (results, r'))
      × (r'.calls ≡ r.calls)
unfolding ramp_run
ramp_run-dark [] r = ([], r, refl, refl)
ramp_run-dark (c ∷ cs) r =
    let (x, r1, e, kept) = dma_step c r in
    let (xs, r2, e2, kept2) = ramp_run-dark cs r1 in (x ∷ xs, r2, rw (e, e2) refl, kept2 ∙ kept)
