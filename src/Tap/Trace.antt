-- ===== src/Tap/Trace.antt =====
-- The messages that lib/multi_tap_input.c posts, over every sequence of events.
use zbeam.Base.{
  ℕ, ◌%◌, ◌≤◌, ◌≡◌, refl, ◌⊎◌, inl, inr, arith, Bool, true, false, Bool-cases, ◌==◌, Option, none,
  some, List, [], ◌∷◌, ◌++◌,
}
use zbeam.Kernel.{Timer, stopped, started, runs}
use zbeam.Msg.{input_tap, input_hold_start, input_hold_release, ZbeamMsg}
use zbeam.Tap.{
  TapState, idle, pressed, wait_timeout, Tap, TapEvent, key, click_expiry, hold_expiry, configure,
  tap_reset, tap_step, tap_run,
}

-- What the static variables say of one another.
abbrev pub Consistent : TapState → Tap → Type 0
Consistent idle t =
    (t.click_count ≡ 0)
    × (t.is_holding ≡ false)
    × (runs t.click_timer ≡ false)
    × (runs t.hold_timer ≡ false)
Consistent pressed t =
    (1 ≤ t.click_count)
    × (runs t.click_timer ≡ false)
    × ((t.is_holding ≡ true) ⊎ (runs t.hold_timer ≡ true))
    × (t.is_holding ≡ true → runs t.hold_timer ≡ false)
Consistent wait_timeout t =
    (1 ≤ t.click_count)
    × (t.is_holding ≡ false)
    × (runs t.click_timer ≡ true)
    × (runs t.hold_timer ≡ false)

-- The hold that has started and not ended, with the count that was posted.
abbrev pub open_hold : Tap → Option ℕ
open_hold t = elim t.is_holding [ true ↦ some (t.click_count % 256) | false ↦ none ]

-- Messages in which each hold that starts is released next, with the same count, and nothing else
-- is released; `open` is the hold before the first message, the second index that after the last.
pub data Bracketed : Option ℕ → List ZbeamMsg → Option ℕ → Type 0 where
  nothing : {o : Option ℕ} → Bracketed o [] o
  tap :
      {o : Option ℕ} {n : ℕ} {ms : List ZbeamMsg}
      → Bracketed none ms o
      → Bracketed none (record { type = input_tap; count = n; severity = 0 } ∷ ms) o
  start :
      {o : Option ℕ} {n : ℕ} {ms : List ZbeamMsg}
      → Bracketed (some n) ms o
      → Bracketed none (record { type = input_hold_start; count = n; severity = 0 } ∷ ms) o
  release :
      {o : Option ℕ} {n : ℕ} {ms : List ZbeamMsg}
      → Bracketed none ms o
      → Bracketed (some n) (record { type = input_hold_release; count = n; severity = 0 } ∷ ms) o

Bracketed-append :
    {o p q : Option ℕ} {ms ns : List ZbeamMsg}
    → Bracketed o ms p
    → Bracketed p ns q
    → Bracketed o (ms ++ ns) q
Bracketed-append nothing b = b
Bracketed-append (tap a) b = tap (Bracketed-append a b)
Bracketed-append (start a) b = start (Bracketed-append a b)
Bracketed-append (release a) b = release (Bracketed-append a b)

step-Consistent :
    (e : TapEvent) (t : Tap)
    → Consistent t.current_state t
    → Consistent (tap_step e t).0.current_state (tap_step e t).0
unfolding tap_step
step-Consistent (key v) t h = ground arith
step-Consistent click_expiry t h = ground arith
step-Consistent hold_expiry t h = ground arith
step-Consistent (configure c d) t h = ground arith

-- One event posts nothing, or one message that fits the hold that is open.
data Outcome (o : Option ℕ) (ms : List ZbeamMsg) (o' : Option ℕ) : Type 0 where
  silent : ms ≡ [] → o' ≡ o → Outcome o ms o'
  tapped :
      (n : ℕ)
      → ms ≡ record { type = input_tap; count = n; severity = 0 } ∷ []
      → o ≡ none
      → o' ≡ none
      → Outcome o ms o'
  held :
      (n : ℕ)
      → ms ≡ record { type = input_hold_start; count = n; severity = 0 } ∷ []
      → o ≡ none
      → o' ≡ some n
      → Outcome o ms o'
  released :
      (n : ℕ)
      → ms ≡ record { type = input_hold_release; count = n; severity = 0 } ∷ []
      → o ≡ some n
      → o' ≡ none
      → Outcome o ms o'

Outcome-Bracketed : {o o' : Option ℕ} {ms : List ZbeamMsg} → Outcome o ms o' → Bracketed o ms o'
Outcome-Bracketed (silent e p) = rw (e, p) nothing
Outcome-Bracketed (tapped n e p q) = rw (e, p, q) (tap nothing)
Outcome-Bracketed (held n e p q) = rw (e, p, q) (start nothing)
Outcome-Bracketed (released n e p q) = rw (e, p, q) (release nothing)

abbrev StepOutcome : TapEvent → Tap → Type 0
StepOutcome e t = Outcome (open_hold t) (tap_step e t).1 (open_hold (tap_step e t).0)

-- Split by the state, the flag and the timers, the outcome computes.
step-Outcome :
    (e : TapEvent) (s : TapState) (n : ℕ) (holding : Bool) (ct ht : Timer) (c d : ℕ)
    → let t : Tap = record {
      current_state = s;
      click_count = n;
      is_holding = holding;
      click_timer = ct;
      hold_timer = ht;
      click_timeout_ms = c;
      hold_duration_ms = d;
    } in
      Consistent s t → StepOutcome e t
unfolding tap_step
step-Outcome (configure c' d') s n h ct ht c d k = silent refl refl
step-Outcome (key v) idle n true ct ht c d k = cc
step-Outcome (key v) idle n false ct ht c d k = silent (ground arith) (ground arith)
step-Outcome (key v) wait_timeout n true ct ht c d k = cc
step-Outcome (key v) wait_timeout n false ct ht c d k = silent (ground arith) (ground arith)
step-Outcome (key v) pressed n true ct ht c d k = elim (Bool-cases (v == 1)) [
  | inl down ↦ rw down (silent refl refl)
  | inr up ↦ rw up (released _ refl refl refl)
]
step-Outcome (key v) pressed n false ct ht c d k = silent (ground arith) (ground arith)
step-Outcome click_expiry wait_timeout n true ct ht c d k = cc
step-Outcome click_expiry wait_timeout n false stopped ht c d k = silent refl refl
step-Outcome click_expiry wait_timeout n false (started x y) ht c d k = tapped _ refl refl refl
step-Outcome click_expiry s n h ct ht c d k = silent (ground arith) (ground arith)
step-Outcome hold_expiry pressed n h ct stopped c d k = silent refl refl
step-Outcome hold_expiry pressed n true ct (started x y) c d k =
    let stopped_too : runs (started x y) ≡ false = k.3 refl in cc
step-Outcome hold_expiry pressed n false ct (started x y) c d k = held _ refl refl refl
step-Outcome hold_expiry s n h ct ht c d k = silent (ground arith) (ground arith)

step-Bracketed :
    (e : TapEvent) (t : Tap)
    → Consistent t.current_state t
    → Bracketed (open_hold t) (tap_step e t).1 (open_hold (tap_step e t).0)
step-Bracketed e t k = Outcome-Bracketed (
    step-Outcome e t.current_state t.click_count t.is_holding t.click_timer t.hold_timer
      t.click_timeout_ms t.hold_duration_ms k)

run-Bracketed :
    (es : List TapEvent) (t : Tap)
    → Consistent t.current_state t
    → Bracketed (open_hold t) (tap_run es t).1 (open_hold (tap_run es t).0)
      × Consistent (tap_run es t).0.current_state (tap_run es t).0
unfolding tap_run
run-Bracketed [] t k = (nothing, k)
run-Bracketed (e ∷ es) t k =
    let (b, k') = run-Bracketed es (tap_step e t).0 (step-Consistent e t k) in
    (Bracketed-append (step-Bracketed e t k) b, k')

pub init-Consistent : (c d : ℕ) → Consistent idle (tap_reset c d)
init-Consistent c d = (refl, refl, refl, refl)

-- From the variables at power-up, whatever keys, expiries and changes of the times follow: each hold that
-- is posted as started is the next one released, with the same count, nothing else is posted
-- between, and nothing else is released.
pub tap_run-Bracketed :
    (c d : ℕ) (es : List TapEvent)
    → Bracketed none (tap_run es (tap_reset c d)).1 (open_hold (tap_run es (tap_reset c d)).0)
tap_run-Bracketed c d es = (run-Bracketed es _ (init-Consistent c d)).0
