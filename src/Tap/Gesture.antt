-- ===== src/Tap/Gesture.antt =====
-- What a gesture on the button becomes in lib/multi_tap_input.c.
use zbeam.Base.{ℕ, zero, suc, ◌+◌, ◌%◌, ◌≡◌, refl, ap, ◌∙◌, arith, false, List, [], ◌∷◌}
use zbeam.Kernel.{stopped, started}
use zbeam.Msg.{input_tap, input_hold_start, input_hold_release}
use zbeam.Tap.{
  wait_timeout, Tap, TapEvent, key, click_expiry, hold_expiry, tap_reset, tap_step, tap_run,
}

-- `n` further clicks, and then the events `last`.
abbrev pub clicks : ℕ → List TapEvent → List TapEvent
clicks zero last = last
clicks (suc n) last = key 1 ∷ key 0 ∷ clicks n last

-- After a click, with `n` clicks counted.
abbrev clicked : ℕ → ℕ → ℕ → Tap
clicked n c d = record {
  current_state = wait_timeout;
  click_count = n;
  is_holding = false;
  click_timer = started c 0;
  hold_timer = stopped;
  click_timeout_ms = c;
  hold_duration_ms = d;
}

click-again :
    (n c d : ℕ) (es : List TapEvent)
    → tap_run (key 1 ∷ key 0 ∷ es) (clicked n c d) ≡ tap_run es (clicked (n + 1) c d)
unfolding tap_run tap_step
click-again n c d es = refl

clicks-count :
    (k n c d : ℕ) (last : List TapEvent)
    → tap_run (clicks k last) (clicked n c d) ≡ tap_run last (clicked (n + k) c d)
clicks-count zero n c d last =
    let e : n ≡ n + 0 = omega arith in ap (λ m. tap_run last (clicked m c d)) e
clicks-count (suc k) n c d last =
    let e : n + 1 + k ≡ n + suc k = omega arith in
    click-again n c d (clicks k last)
    ∙ clicks-count k (n + 1) c d last
    ∙ ap (λ m. tap_run last (clicked m c d)) e

first-click :
    (c d : ℕ) (es : List TapEvent)
    → tap_run (key 1 ∷ key 0 ∷ es) (tap_reset c d) ≡ tap_run es (clicked 1 c d)
unfolding tap_run tap_step
first-click c d es = refl

all-clicks :
    (n c d : ℕ) (last : List TapEvent)
    → tap_run (clicks (suc n) last) (tap_reset c d) ≡ tap_run last (clicked (n + 1) c d)
all-clicks n c d last =
    let e : 1 + n ≡ n + 1 = omega arith in
    first-click c d (clicks n last)
    ∙ clicks-count n 1 c d last
    ∙ ap (λ m. tap_run last (clicked m c d)) e

-- One click or more, and then the click time running out, post one tap with their number, as a
-- uint8_t, and leave the engine as it was.
pub clicks-tap :
    (n c d : ℕ)
    → let end_ = tap_run (clicks (suc n) (click_expiry ∷ [])) (tap_reset c d) in
      (end_.1 ≡ record { type = input_tap; count = (n + 1) % 256; severity = 0 } ∷ [])
      × (end_.0 ≡ tap_reset c d)
unfolding tap_run tap_step
clicks-tap n c d =
    let e = all-clicks n c d (click_expiry ∷ []) in (ap (λ r. r.1) e, ap (λ r. r.0) e)

-- From the variables at power-up, clicks and then a press held past the hold time and let go post the start and the end of a hold,
-- both with the number of presses, as a uint8_t, and no tap.
pub clicks-hold :
    (n c d : ℕ)
    → let end_ = tap_run (clicks n (key 1 ∷ hold_expiry ∷ key 0 ∷ [])) (tap_reset c d) in
      (end_.1
        ≡ record { type = input_hold_start; count = (n + 1) % 256; severity = 0 }
          ∷ record { type = input_hold_release; count = (n + 1) % 256; severity = 0 }
          ∷ [])
      × (end_.0 ≡ tap_reset c d)
unfolding tap_run tap_step
clicks-hold zero c d = ground arith
clicks-hold (suc n) c d =
    let e = all-clicks n c d (key 1 ∷ hold_expiry ∷ key 0 ∷ []) in
    (ap (λ r. r.1) e ∙ ground arith, ap (λ r. r.0) e)
