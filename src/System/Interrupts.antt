-- ===== src/System/Interrupts.antt =====
-- What the handler of the inactivity timer of lib/fsm_engine.c calls in its interrupt.
use zbeam.Base.{
  ◌≡◌, refl, sym, subst, arith, ◌⊎◌, inl, inr, true, Bool-cases, ◌==◌, Option, none, some,
}
use zbeam.Env.{Env}
use zbeam.Fsm.{
  Fsm, Machine, timeout_target, inactivity_timer_handler, fsm_transition_to, reset_inactivity_timer,
}
use zbeam.Node.{
  Node, simple_off, simple_on, simple_ramp, simple_moon, simple_turbo, simple_lockout,
  simple_battcheck, simple_reset, adv_off, adv_on, adv_ramp, adv_moon, adv_turbo, adv_lockout,
  adv_battcheck, adv_tempcheck, adv_reset, adv_strobe, adv_config_floor, adv_config_ceiling,
  adv_aux_config, adv_cal_voltage, adv_cal_thermal_current, adv_cal_thermal_limit, adv_blink,
  adv_party_strobe, adv_config_steps,
}
use zbeam.Ui.Device.{Device}
use zbeam.Tree.Table.{table}
use zbeam.Tree.Modes.{IsOff, by_simple, by_advanced}
use zbeam.System.Modes.{In}
use zbeam.Kernel.{stopped}
use zbeam.Ui.Config.{action_config_ceiling, action_cal_thermal_limit_entry}
use zbeam.System.Quiet.{Context, in_interrupt, ends_in, Quiet, off-Quiet, on-Quiet}
use zbeam.System.Threads.{outlives}

-- The menus whose timeout leads to a routine that sleeps.
pub data IsMenu : Node → Type 0 where
  by_voltage : IsMenu adv_cal_voltage
  by_limit : IsMenu adv_cal_thermal_limit

-- Where a timeout leads from every other node.
data Target (home : Option Node) : Option Node → Type 0 where
  by_home : Target home home
  by_ceiling : Target home (some adv_config_ceiling)
  by_on : Target home (some adv_on)
  by_entry : Target home (some adv_cal_thermal_limit)

last-Target : (p home : Option Node) → Target home (elim p [ some _ ↦ home | none ↦ home ])
last-Target none home = by_home
last-Target (some n) home = by_home

timeout-Target :
    (env : Env) (n : Node) (f : Fsm Node)
    → IsMenu n ⊎ Target f.home_node (timeout_target (table env) (some n) f)
unfolding timeout_target table
timeout-Target env simple_off f = inr (last-Target f.previous_node f.home_node)
timeout-Target env simple_on f = inr (last-Target f.previous_node f.home_node)
timeout-Target env simple_ramp f = inr (last-Target f.previous_node f.home_node)
timeout-Target env simple_moon f = inr (last-Target f.previous_node f.home_node)
timeout-Target env simple_turbo f = inr (last-Target f.previous_node f.home_node)
timeout-Target env simple_lockout f = inr (last-Target f.previous_node f.home_node)
timeout-Target env simple_battcheck f = inr (last-Target f.previous_node f.home_node)
timeout-Target env simple_reset f = inr (last-Target f.previous_node f.home_node)
timeout-Target env adv_off f = inr (last-Target f.previous_node f.home_node)
timeout-Target env adv_on f = inr (last-Target f.previous_node f.home_node)
timeout-Target env adv_ramp f = inr (last-Target f.previous_node f.home_node)
timeout-Target env adv_moon f = inr (last-Target f.previous_node f.home_node)
timeout-Target env adv_turbo f = inr (last-Target f.previous_node f.home_node)
timeout-Target env adv_lockout f = inr (last-Target f.previous_node f.home_node)
timeout-Target env adv_battcheck f = inr (last-Target f.previous_node f.home_node)
timeout-Target env adv_tempcheck f = inr (last-Target f.previous_node f.home_node)
timeout-Target env adv_reset f = inr (last-Target f.previous_node f.home_node)
timeout-Target env adv_strobe f = inr (last-Target f.previous_node f.home_node)
timeout-Target env adv_config_floor f = inr by_ceiling
timeout-Target env adv_config_ceiling f = inr by_on
timeout-Target env adv_aux_config f = inr (last-Target f.previous_node f.home_node)
timeout-Target env adv_cal_voltage f = inl by_voltage
timeout-Target env adv_cal_thermal_current f = inr by_entry
timeout-Target env adv_cal_thermal_limit f = inl by_limit
timeout-Target env adv_blink f = inr (last-Target f.previous_node f.home_node)
timeout-Target env adv_party_strobe f = inr (last-Target f.previous_node f.home_node)
timeout-Target env adv_config_steps f = inr (last-Target f.previous_node f.home_node)

goes-Quiet :
    (env : Env) (home : Node) (t : Option Node) (m : Machine Node Device)
    → IsOff home
    → Target (some home) t
    → Quiet in_interrupt m.rest (fsm_transition_to (table env) t m).rest
unfolding fsm_transition_to table reset_inactivity_timer action_config_ceiling
    action_cal_thermal_limit_entry
goes-Quiet env _ _ m by_simple by_home = off-Quiet in_interrupt env m.rest
goes-Quiet env _ _ m by_advanced by_home = off-Quiet in_interrupt env m.rest
goes-Quiet env _ _ m at by_ceiling = refl
goes-Quiet env _ _ m at by_on = on-Quiet in_interrupt env m.rest
goes-Quiet env _ _ m at by_entry = refl

-- The handler of the inactivity timer sleeps in no other node.
pub handler-Quiet :
    (env : Env) (home : Node) (m : Machine Node Device)
    → IsOff home
    → (w : In env home m)
    → IsMenu w.here ⊎ Quiet in_interrupt m.rest (inactivity_timer_handler (table env) m).rest
unfolding inactivity_timer_handler
handler-Quiet env home m at w = elim (timeout-Target env w.here m.fsm) [
  | inl menu ↦ inl menu
  | inr goes ↦
      let there : Target (some home) (timeout_target (table env) m.fsm.current_node m.fsm) =
        subst (λ o. Target (some home) (timeout_target (table env) o m.fsm)) (sym w.current)
          (subst (λ h. Target h (timeout_target (table env) (some w.here) m.fsm)) w.home_lem
            goes) in
      inr (
        goes-Quiet env home _ (record m { fsm = record (m.fsm) { inactivity_timer = stopped } }) at
          there)
]

-- A step outlives the calls that it does not make.
pub outlives-Quiet :
    (c : Context) (m m' : Machine Node Device) → Quiet c m.rest m'.rest → outlives c m m' ≡ some m'
unfolding outlives
outlives-Quiet c m m' q =
    let same : (ends_in c m'.rest.calls == ends_in c m.rest.calls) ≡ true = ground arith in
    rw same refl

pub outlives-cases :
    (c : Context) (m m' : Machine Node Device)
    → (outlives c m m' ≡ some m') ⊎ (outlives c m m' ≡ none)
unfolding outlives
outlives-cases c m m' = elim (Bool-cases (ends_in c m'.rest.calls == ends_in c m.rest.calls)) [
  | inl e ↦ inl (rw e refl)
  | inr e ↦ inr (rw e refl)
]
