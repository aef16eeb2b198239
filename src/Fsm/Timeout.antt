-- ===== src/Fsm/Timeout.antt =====
-- The inactivity timer of lib/fsm_engine.c, over every sequence of the engine's calls.
use zbeam.Base.{◌≡◌, refl, ap, ◌∙◌, some, arith, true}
use zbeam.Kernel.{stopped}
use zbeam.Msg.{timeout_inactivity, ZbeamMsg}
use zbeam.Fsm.{
  FsmNode, Machine, fsm_unset, on_fsm, run_action, enter_home, fsm_init, fsm_process_msg,
  fsm_process_timer, inactivity_timer_handler, fsm_emergency_off,
}
use zbeam.Fsm.Armed.{
  IsArmed, transition-IsArmed, rest-IsArmed, process_msg-IsArmed, process_timer-IsArmed,
  handler-IsArmed, emergency-IsArmed,
}

module _ {N S : Type 0} (table : N → FsmNode N S) where
  -- One thing that happens to the engine: a message of either kind, the timer's expiry, an
  -- emergency, or a change of the rest of the program's state.
  pub data Step (m : Machine N S) : Machine N S → Type 0 where
    message : (msg : ZbeamMsg) → Step m (fsm_process_msg table msg m)
    timer_message : (msg : ZbeamMsg) → Step m (fsm_process_timer table msg m)
    expiry : Step m (inactivity_timer_handler table m)
    emergency : {m' : Machine N S} → fsm_emergency_off table m ≡ some m' → Step m m'
    elsewhere : (s : S) → Step m (record m { rest = s })

  pub data Reach (start : N) : Machine N S → Type 0 where
    initially :
        (s : S) → Reach start (fsm_init table (some start) (record { fsm = fsm_unset N; rest = s }))
    later : {m m' : Machine N S} → Reach start m → Step m m' → Reach start m'

  Step-IsArmed :
      {home : N} {m m' : Machine N S}
      → (table home).timeout_ms ≡ 0
      → Step m m'
      → IsArmed table home m
      → IsArmed table home m'
  Step-IsArmed {home} {m} z (message msg) a = process_msg-IsArmed table home msg m a
  Step-IsArmed {home} {m} z (timer_message msg) a = process_timer-IsArmed table home msg m a
  Step-IsArmed {home} {m} z expiry a = handler-IsArmed table home m a
  Step-IsArmed {home} {m} z (emergency {m'} e) a = emergency-IsArmed table home m m' z a e
  Step-IsArmed {home} {m} z (elsewhere s) a = rest-IsArmed table home m s a

  -- From `fsm_init` with a start node that has no timeout, through any sequence of messages, timer
  -- expiries, emergencies and changes elsewhere: there is a current node, the inactivity timer
  -- runs exactly if that node has a timeout, and then with that timeout, and home is the start.
  pub Reach-IsArmed :
      {start : N} {m : Machine N S}
      → (table start).timeout_ms ≡ 0
      → Reach start m
      → IsArmed table start m
  unfolding fsm_init
  Reach-IsArmed {start} z (initially s) =
      transition-IsArmed table start start
        (record { fsm = record (fsm_unset N) { home_node = some start }; rest = s }) refl
  Reach-IsArmed z (later r st) = Step-IsArmed z st (Reach-IsArmed z r)

  -- The machine that `fsm_emergency_off` leaves.
  abbrev off_state : N → Machine N S → Machine N S
  off_state home m = run_action table (table home).action_routine (
      on_fsm table
        (λ f. record f {
          emergency_shutdown_active = true;
          inactivity_timer = stopped;
          current_node = f.home_node;
        })
        m)

  off_state-fsm :
      (home : N) (m : Machine N S)
      → (off_state home m).fsm ≡ record (m.fsm) {
        emergency_shutdown_active = true;
        inactivity_timer = stopped;
        current_node = m.fsm.home_node;
      }
  off_state-fsm home m = ground arith

  emergency-off_state :
      (home : N) (m : Machine N S)
      → m.fsm.home_node ≡ some home
      → fsm_emergency_off table m ≡ some (off_state home m)
  unfolding fsm_emergency_off
  emergency-off_state home m h = rw (h, enter_home)

  -- With a home node, `fsm_emergency_off` returns.
  pub emergency_found :
      (home : N) (m : Machine N S)
      → m.fsm.home_node ≡ some home
      → (m' : Machine N S) × (fsm_emergency_off table m ≡ some m')
  emergency_found home m h = (off_state home m, emergency-off_state home m h)

  -- From `fsm_init` with a start node that has no timeout, in every state reached through
  -- messages, timer expiries, emergencies and changes elsewhere, `fsm_emergency_off` meets
  -- no NULL node: it returns with the start node current, the shutdown flag set and the
  -- inactivity timer stopped.
  pub emergency-returns :
      {start : N} {m : Machine N S}
      → (table start).timeout_ms ≡ 0
      → Reach start m
      → (m' : Machine N S) × (fsm_emergency_off table m ≡ some m')
        × (m'.fsm.current_node ≡ some start)
        × (m'.fsm.emergency_shutdown_active ≡ true)
        × (m'.fsm.inactivity_timer ≡ stopped)
  unfolding fsm_emergency_off
  emergency-returns {start} {m} z r =
      let a = Reach-IsArmed z r in
      let e = off_state-fsm start m in
      (
        off_state start m,
        emergency-off_state start m a.home_lem,
        ap (λ f. f.current_node) e ∙ a.home_lem,
        ap (λ f. f.emergency_shutdown_active) e,
        ap (λ f. f.inactivity_timer) e,
      )

  -- In a state whose inactivity timer is stopped, the timer's handler does what a
  -- `MSG_TIMEOUT_INACTIVITY` message does.
  pub handler-eq-timer_message :
      (m : Machine N S) (msg : ZbeamMsg)
      → msg.type ≡ timeout_inactivity
      → m.fsm.inactivity_timer ≡ stopped
      → inactivity_timer_handler table m ≡ fsm_process_timer table msg m
  unfolding inactivity_timer_handler fsm_process_timer
  handler-eq-timer_message m msg h e = ground arith
