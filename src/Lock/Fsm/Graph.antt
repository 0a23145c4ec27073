-- ===== src/Lock/Fsm/Graph.antt =====
-- How a session begins: the only way to `REQUEST` leads through a ticket that was accepted.
use esloq.Base.{
  ◌≡◌, ◌⊎◌, refl, sym, ◌∙◌, ap, List, true, false, Outcome, ok, ◌==◌, Bool-cases, inl, inr, arith,
}
use esloq.Crypto.{SecretBox}
use esloq.Uart.{Window}
use esloq.Lock.State.{State, Machine, BgLib, Message, system_address_get, gap_set_mode}
use esloq.Lock.Monad.{M, ◌>>◌, >>=-eq-ok, modify-eq-ok}
use esloq.Lock.Board.{battery_monitor_alert}
use esloq.Lock.Send.{ble_cmd}
use esloq.Lock.Respond.{reset_msg_buffer}
use esloq.Lock.Ticket.{process_ticket_msg}
use esloq.Lock.Advert.{set_adv_parameters}
use esloq.Lock.Advert.Ends.{process_adv_param_set-state, process_adv_data_set-state}
use esloq.Lock.Handlers.{set_state, handle}
use esloq.Lock.Handlers.Session.{in_session, handle-session}
use esloq.Lock.Fsm.{
  FsmInputs, fsm_process, dispatch, after_ticket, gap_user_data, gap_undirected_connectable,
}

-- `process_ticket_msg` has accepted the ticket in `m`.
abbrev pub Accepts : SecretBox → BgLib → FsmInputs → Machine → Type 0
Accepts box bg inputs m =
    (process_ticket_msg box bg inputs.windows (battery_monitor_alert inputs.acsr) m).1 ≡ ok 0

assigns :
    (x : M (Unit {0})) (s : State) (m m' : Machine) {B : Type 0}
    → in_session s ≡ false
    → (x >> set_state s) m ≡ (m', ok tt)
    → in_session m'.state ≡ true
    → B
assigns x s m m' out h e =
    let same : m'.state ≡ s =
      ap (λ (after : Machine). after.state)
        (modify-eq-ok x (λ m''. record m'' { state = s }) m m' h) in
    let in_ : in_session s ≡ true = sym (ap in_session same) ∙ e in cc

outside :
    (m' : Machine) (s : State) {B : Type 0}
    → m'.state ≡ s
    → in_session s ≡ false
    → in_session m'.state ≡ true
    → B
outside m' s same out e = let in_ = sym (ap in_session same) ∙ e in cc

module _ (box : SecretBox) (bg : BgLib) (inputs : FsmInputs) (m m' : Machine) where
  ticket-session :
      dispatch box bg inputs State.ticket m ≡ (m', ok tt)
      → in_session m'.state ≡ true
      → Accepts box bg inputs m
  unfolding dispatch after_ticket reset_msg_buffer
  ticket-session h e =
      let x = process_ticket_msg box bg inputs.windows (battery_monitor_alert inputs.acsr) in
      let (code, returned, rest) = >>=-eq-ok x after_ticket m m' tt h in
      elim (Bool-cases (code == 0)) [
        | inl good ↦ returned ∙ ap ok (ground (arith, good))
        | inr bad ↦
            let in_ : false ≡ true =
              ap (λ (r : Machine × Outcome (Unit {0})). in_session r.0.state) (rw bad at rest)
              ∙ e in
            cc
      ]

  dispatch-session :
      (s : State)
      → m.state ≡ s
      → dispatch box bg inputs s m ≡ (m', ok tt)
      → in_session m'.state ≡ true
      → (in_session m.state ≡ true) ⊎ ((m.state ≡ State.ticket) × Accepts box bg inputs m)
  unfolding dispatch
  dispatch-session State.ticket here h e = inr (here, ticket-session h e)
  dispatch-session State.request_w here h e = inl (ap in_session here)
  dispatch-session State.request here h e = inl (ap in_session here)
  dispatch-session State.ble_boot here h e =
      assigns (ble_cmd bg inputs.windows system_address_get) State.system_address_get_w m m' refl h
        e
  dispatch-session State.system_address_get here h e =
      assigns (set_adv_parameters bg inputs.windows) State.adv_param_set_w m m' refl h e
  dispatch-session State.adv_param_set here h e =
      outside m' _ (process_adv_param_set-state bg inputs.windows m m' h) refl e
  dispatch-session State.adv_data_set here h e =
      outside m' _ (process_adv_data_set-state bg inputs.windows m m' h) refl e
  dispatch-session State.adv_sr_data_set here h e =
      assigns (ble_cmd bg inputs.windows (gap_set_mode gap_user_data gap_undirected_connectable))
        State.advertising_w m m' refl h e
  dispatch-session State.disconnected here h e =
      assigns (set_adv_parameters bg inputs.windows) State.adv_param_set_w (reset_msg_buffer m) m'
        refl h e
  dispatch-session s here h e =
      inl (ap (λ (r : Machine × Outcome (Unit {0})). in_session r.0.state) h ∙ e)

-- A run of the program: its calls of `fsm_process`, the messages delivered between them, and other
-- steps (packets received, buttons served, interrupts), which leave the state alone.
pub data Run (box : SecretBox) (bg : BgLib) : Machine → Machine → Type 0 where
  start : {m : Machine} → Run box bg m m
  processes :
      {m0 m m' : Machine}
      → Run box bg m0 m
      → (inputs : FsmInputs) → fsm_process box bg inputs m ≡ (m', ok tt)
      → Run box bg m0 m'
  receives :
      {m0 m m' : Machine}
      → Run box bg m0 m
      → (ws : List Window) (message : Message) → handle bg ws message m ≡ (m', ok tt)
      → Run box bg m0 m'
  other : {m0 m m' : Machine} → Run box bg m0 m → m'.state ≡ m.state → Run box bg m0 m'

-- A run that leads from a state outside a session into one has accepted a ticket: at some point of
-- it the state was `TICKET`, and `process_ticket_msg` returned 0. So no request is ever processed
-- before a ticket was accepted.
pub session-Accepts :
    (box : SecretBox) (bg : BgLib) (m0 m : Machine)
    → Run box bg m0 m
    → in_session m0.state ≡ false
    → in_session m.state ≡ true
    → (mt : Machine) × (inputs : FsmInputs) × Run box bg m0 mt
      × (mt.state ≡ State.ticket)
      × Accepts box bg inputs mt
unfolding fsm_process
session-Accepts box bg m0 m Run.start outside_first inside = cc
session-Accepts box bg m0 m (Run.processes {m = before} run inputs h) outside_first inside =
    elim (dispatch-session box bg inputs before m before.state refl h inside) [
      | inl was ↦ session-Accepts box bg m0 before run outside_first was
      | inr (here, accepts) ↦ (before, inputs, run, here, accepts)
    ]
session-Accepts box bg m0 m (Run.receives {m = before} run ws message h) outside_first inside =
    session-Accepts box bg m0 before run outside_first
      (handle-session bg ws message before m h inside)
session-Accepts box bg m0 m (Run.other {m = before} run same) outside_first inside =
    session-Accepts box bg m0 before run outside_first (ap in_session (sym same) ∙ inside)
