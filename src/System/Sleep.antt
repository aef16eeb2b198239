-- ===== src/System/Sleep.antt =====
-- The two calibration menus whose timeout makes the interrupt sleep: action_battcheck and
-- action_tempcheck of src/ui_actions.c, called by the timer's handler of lib/fsm_engine.c.
use zbeam.Base.{ℕ, zero, suc, ◌≡◌, ◌≤◌, refl, ap, ◌∙◌, arith, true, false, ◌==◌, ◌|>◌, none, some}
use zbeam.Env.{Env}
use zbeam.Kernel.{runs}
use zbeam.Fsm.{
  Machine, fsm_transition_to, inactivity_timer_handler, reset_inactivity_timer, timeout_target,
}
use zbeam.Node.{Node}
use zbeam.Safety.{Limits}
use zbeam.Thermal.{Gains, thermal_get_temp_mc}
use zbeam.Batt.{batt_calculate_blinks, batt_read_voltage_mv}
use zbeam.Worker.{MsgQueue}
use zbeam.Ui.Device.{Device, update_led_hardware, k_msleep}
use zbeam.Ui.Ramp.{stop_ramping}
use zbeam.Ui.Actions.{blink, blink_digits, temp_digits, action_battcheck, action_tempcheck}
use zbeam.Tree.Table.{table}
use zbeam.System.Events.{inactivity_expiry, on_event}
use zbeam.System.Quiet.{in_interrupt, ends_in, stop-Quiet}
use zbeam.System.Interrupts.{IsMenu, by_voltage, by_limit}
use zbeam.System.Threads.{and_then, outlives, expired, expire}

-- The sleeps and reboots that a device has made.
abbrev ended : Device → ℕ
ended d = ends_in in_interrupt d.calls

-- One round of `blink`.
abbrev flash : Device → Device
flash d = d |> update_led_hardware 100 |> k_msleep 100 |> update_led_hardware 0 |> k_msleep 300

flash-ended : (d : Device) → ended (flash d) ≡ suc (suc (ended d))
unfolding update_led_hardware
flash-ended d = refl

blink-ended : (n : ℕ) (d : Device) → ended d ≤ ended (blink n d)
unfolding blink
blink-ended zero d = omega arith
blink-ended (suc n) d =
    let more : ended (flash d) ≤ ended (blink n (flash d)) = blink-ended n (flash d) in
    let two = flash-ended d in omega (arith, more, two)

digits-ended : (major minor : ℕ) (d : Device) → suc (ended d) ≤ ended (blink_digits major minor d)
unfolding blink_digits
digits-ended major minor d =
    let first : ended d ≤ ended (blink major d) = blink-ended major d in
    let second : suc (ended (blink major d)) ≤ ended (blink minor (k_msleep 800 (blink major d))) =
      blink-ended minor (k_msleep 800 (blink major d)) in
    omega (arith, first, second)

after_stop : {a b c : ℕ} → b ≡ a → suc b ≤ c → suc a ≤ c
after_stop e h = omega (arith, e, h)

batt-ended : (env : Env) (d : Device) → suc (ended d) ≤ ended (action_battcheck env d)
unfolding action_battcheck
batt-ended env d =
    let (major, minor) = batt_calculate_blinks (batt_read_voltage_mv env (stop_ramping d).batt) in
    after_stop (stop-Quiet in_interrupt d) (digits-ended major minor (stop_ramping d))

temp-ended : (d : Device) → suc (ended d) ≤ ended (action_tempcheck d)
unfolding action_tempcheck
temp-ended d =
    let (major, minor) = temp_digits (thermal_get_temp_mc (stop_ramping d).thermal) in
    after_stop (stop-Quiet in_interrupt d) (digits-ended major minor (stop_ramping d))

menu-ended :
    (env : Env) (n : Node) (m : Machine Node Device)
    → IsMenu n
    → m.fsm.current_node ≡ some n
    → suc (ended m.rest) ≤ ended (inactivity_timer_handler (table env) m).rest
unfolding inactivity_timer_handler timeout_target table fsm_transition_to reset_inactivity_timer
menu-ended env _ m by_voltage here = rw here (batt-ended env m.rest)
menu-ended env _ m by_limit here = rw here (temp-ended m.rest)

more-outlives :
    (m m' : Machine Node Device)
    → suc (ended m.rest) ≤ ended m'.rest
    → outlives in_interrupt m m' ≡ none
unfolding outlives
more-outlives m m' more =
    let other : (ended m'.rest == ended m.rest) ≡ false = ground arith in rw other refl

-- In the menu of the voltage or of the thermal limit, whatever the rest of the state and the readings
-- are, the expiry of the running inactivity timer ends the program: the next node's routine calls
-- `k_msleep` in the interrupt.
pub menu-ends :
    (k : MsgQueue) (gains : Gains) (limits : Limits) (env : Env) (n : Node)
    (m : Machine Node Device)
    → IsMenu n
    → m.fsm.current_node ≡ some n
    → runs m.fsm.inactivity_timer ≡ true
    → expire k gains limits env inactivity_expiry m ≡ none
unfolding on_event
menu-ends k gains limits env n m menu here running =
    let m' = inactivity_timer_handler (table env) m in
    let step : expired k gains limits env inactivity_expiry m ≡ some m' = rw running refl in
    ap (λ o. and_then o (outlives in_interrupt m)) step
    ∙ more-outlives m m' (menu-ended env n m menu here)
