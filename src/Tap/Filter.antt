-- ===== src/Tap/Filter.antt =====
-- lib/n_tap_input_handler.c, which the build does not list: it passes a key's events on to
-- `multi_tap_fsm_process_key`, which no file defines and which is an argument here.
use zbeam.Base.{ℕ, ◌≡◌, refl, inl, inr, Bool-cases, List, [], ◌∷◌, ◌==◌, if◌then◌else◌}
use zbeam.Base.Int.{ℤ}

-- `struct input_event`, as far as the handler reads it.
pub record InputEvent : Type 0 where
  pub code : ℕ
  pub value : ℤ

abbrev pub button_code : ℕ
button_code = 30

module _ {S : Type 0} (multi_tap_fsm_process_key : ℤ → S → S) where
  unfoldable pub input_cb : InputEvent → S → S
  input_cb evt s = if evt.code == button_code then multi_tap_fsm_process_key evt.value s else s

  -- The handler on a sequence of events.
  abbrev pub input_cbs : List InputEvent → S → S
  input_cbs [] s = s
  input_cbs (e ∷ es) s = input_cbs es (input_cb e s)

  abbrev pub process_keys : List ℤ → S → S
  process_keys [] s = s
  process_keys (v ∷ vs) s = process_keys vs (multi_tap_fsm_process_key v s)

-- The values of the button's events.
abbrev pub button_values : List InputEvent → List ℤ
button_values [] = []
button_values (e ∷ es) =
    let rest = button_values es in if e.code == button_code then e.value ∷ rest else rest

-- The handler passes on the values of the button's events, in order, and nothing else.
pub input_cbs-button :
    {S : Type 0} (process_key : ℤ → S → S) (es : List InputEvent) (s : S)
    → input_cbs process_key es s ≡ process_keys process_key (button_values es) s
unfolding input_cb
input_cbs-button process_key [] s = refl
input_cbs-button process_key (e ∷ es) s = elim (Bool-cases (e.code == button_code)) [
  | inl t ↦ rw t (input_cbs-button process_key es (process_key e.value s))
  | inr t ↦ rw t (input_cbs-button process_key es s)
]
