-- ===== src/Tree/StrobeNode.antt =====
-- The strobe's node of src/ui_advanced.c: what a hold does there.
use zbeam.Base.{ℕ, arith, ◌≡◌, ◌||◌, refl, inl, inr, Bool-cases, some, ltb, [], ◌∷◌}
use zbeam.Env.{Env}
use zbeam.Msg.{ZbeamMsg, input_hold_release}
use zbeam.Fsm.{
  Machine, max_nav_slots, dispatch_input, fsm_process_msg, fsm_transition_to,
  reset_inactivity_timer,
}
use zbeam.Node.{Node, adv_strobe}
use zbeam.Worker.{handle_all, handle_msg}
use zbeam.Ui.Device.{Device}
use zbeam.Ui.Ramp.{stop_ramping}
use zbeam.Tree.Advanced.{cb_adv_strobe_release}
use zbeam.Tree.Table.{table}
use zbeam.Tree.Routes.{held}

abbrev pub let_go : ZbeamMsg
let_go = record { type = input_hold_release; count = 0; severity = 0 }

same_frequency : (d : Device) → (stop_ramping d).ui.strobe_frequency ≡ d.ui.strobe_frequency
unfolding stop_ramping
same_frequency d = ground arith

-- In the strobe's node, a hold of any number of presses and its release lead to no other node, and
-- leave of the lamp's state what stopping a ramp leaves, the strobe's frequency as it was.
pub hold-idle :
    (env : Env) (count : ℕ) (m : Machine Node Device)
    → m.fsm.current_node ≡ some adv_strobe
    → (m' : Machine Node Device) × (handle_all (table env) (held count ∷ let_go ∷ []) m ≡ some m')
      × (m'.fsm.current_node ≡ some adv_strobe)
      × (m'.rest ≡ stop_ramping m.rest)
      × (m'.rest.ui.strobe_frequency ≡ m.rest.ui.strobe_frequency)
unfolding handle_all handle_msg fsm_process_msg dispatch_input table fsm_transition_to
    reset_inactivity_timer cb_adv_strobe_release
hold-idle env count m here = elim (Bool-cases (ltb count 1 || ltb max_nav_slots count)) [
  | inl e ↦ rw (here, e) (_, refl, refl, refl, same_frequency m.rest)
  | inr e ↦ rw (here, e) (_, refl, refl, refl, same_frequency m.rest)
]
