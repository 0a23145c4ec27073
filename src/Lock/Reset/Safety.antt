-- ===== src/Lock/Reset/Safety.antt =====
-- What holds of a lock over all its restarts.
use esloq.Base.{◌≤◌, ◌≡◌, refl, sym, ap, subst, List, Bool, Outcome, ok, arith}
use esloq.Crypto.{SecretBox, IsSecretBox}
use esloq.Mcu.{Mcu}
use esloq.Nonce.Order.{value}
use esloq.Uart.{Window}
use esloq.Lock.State.{State, Machine, BgLib}
use esloq.Lock.Monad.{◌>>=◌}
use esloq.Lock.Board.{battery_monitor_alert}
use esloq.Lock.Ticket.{process_ticket_msg}
use esloq.Lock.Ticket.Branches.{process_ticket_msg-stale}
use esloq.Lock.Ticket.Replay.{process_ticket_msg-monotone}
use esloq.Lock.Ticket.Steady.{process_ticket_msg-Steady}
use esloq.Lock.Fsm.{fsm_process, dispatch, after_ticket}
use esloq.Lock.Fsm.Steady.{after_ticket-Steady}
use esloq.Lock.Loop.{LoopInputs, main_init, main_step, ble_process_packet, after_packet}
use esloq.Lock.Loop.Steady.{GivesBytes, main_step-Steady, after_fsm-Steady}
use esloq.Lock.Reset.{
  start_up, reboot, Turn, Later, goes_on, restarts, now, turns, loses_power, loses_power_late,
}
use esloq.Lock.Steady.{Advances, Advances-refl, Advances-trans, Advances-bind}
use esloq.Lock.WellFormed.{IsWellFormed, nonce_of, AllBytes-replicate}

reboot-Advances : (mcu : Mcu) (m : Machine) → IsWellFormed m → Advances m (reboot mcu m)
unfolding reboot main_init start_up
reboot-Advances mcu m wf = record {
  well_formed = record {
    msg_fits = omega arith;
    msg_room = refl;
    msg_bytes = AllBytes-replicate 72 0 (omega arith);
    nonce_room = refl;
    nonce_bytes = AllBytes-replicate 24 0 (omega arith);
    key_room = refl;
    master_nonce_room = wf.master_nonce_room;
    master_nonce_bytes = wf.master_nonce_bytes;
    master_key_room = wf.master_key_room;
    att_room = refl;
  };
  nonce_kept = omega arith;
  key_kept = refl;
}

module _ (box : SecretBox) (doc : IsSecretBox box) (bg : BgLib) (bytes : GivesBytes bg) where
  stopped-Advances :
      (inputs : LoopInputs) {m m' : Machine} {o : Outcome (Unit {0})}
      → IsWellFormed m
      → main_step box bg inputs m ≡ (m', o)
      → Advances m m'
  stopped-Advances inputs {m} wf e =
      subst (Advances m) (ap (λ (r : Machine × Outcome (Unit {0})). r.0) e)
        ((main_step-Steady bg bytes box doc inputs).at m wf)

  Turn-Advances :
      (inputs : LoopInputs) {m m' : Machine}
      → IsWellFormed m
      → Turn box bg inputs m m'
      → Advances m m'
  Turn-Advances inputs wf (goes_on e) = stopped-Advances inputs wf e
  Turn-Advances inputs {m} wf (restarts {m' = m'} stop mcu e defined) =
      let before = stopped-Advances inputs wf e in
      Advances-trans before (reboot-Advances mcu m' before.well_formed)

  pub Later-Advances : {m m' : Machine} → IsWellFormed m → Later box bg m m' → Advances m m'
  Later-Advances wf now = Advances-refl wf
  Later-Advances wf (turns before inputs turn) =
      let earlier = Later-Advances wf before in
      Advances-trans earlier (Turn-Advances inputs earlier.well_formed turn)
  Later-Advances wf (loses_power {m' = m'} before mcu) =
      let earlier = Later-Advances wf before in
      Advances-trans earlier (reboot-Advances mcu m' earlier.well_formed)
  Later-Advances wf (loses_power_late {m' = m'} before inputs mcu) =
      let earlier = Later-Advances wf before in
      let turned = (main_step-Steady bg bytes box doc inputs).at m' earlier.well_formed in
      Advances-trans earlier (
        Advances-trans turned
          (reboot-Advances mcu (main_step box bg inputs m').0 turned.well_formed))

  -- Whatever turns of the main loop, resets and losses of power outside the write of the EEPROM a
  -- well-formed machine goes through, where the values in BGLib's messages are bytes, the last
  -- master nonce never falls and the master key is unchanged, as long as no turn accesses an object
  -- out of bounds.
  pub Later-master_nonce :
      {m m' : Machine}
      → IsWellFormed m
      → Later box bg m m'
      → (value m.master_nonce_eeprom ≤ value m'.master_nonce_eeprom)
        × (m'.master_key_eeprom ≡ m.master_key_eeprom)
  Later-master_nonce wf later =
      let kept = Later-Advances wf later in (kept.nonce_kept, kept.key_kept)

  -- A turn that begins in the state TICKET stores a nonce that is not smaller than the ticket's,
  -- whether it comes to its end or stops.
  ticket_turn-stores :
      (inputs : LoopInputs) (m : Machine)
      → IsWellFormed m
      → m.state ≡ State.ticket
      → value (nonce_of m) ≤ value (main_step box bg inputs m).0.master_nonce_eeprom
  unfolding main_step fsm_process dispatch
  ticket_turn-stores inputs m wf e =
      let f = inputs.fsm in
      let low = battery_monitor_alert f.acsr in
      let p = process_ticket_msg box bg f.windows low in
      let processed = (process_ticket_msg-Steady box doc bg f.windows low).at m wf in
      let fsm : Advances (p m).0 (fsm_process box bg f m).0 =
        subst (λ s. Advances (p m).0 (dispatch box bg f s m).0) (sym e)
          (Advances-bind p after_ticket (p m).0 m (Advances-refl processed.well_formed)
            after_ticket-Steady) in
      let turn : Advances (p m).0 (main_step box bg inputs m).0 =
        Advances-bind (fsm_process box bg f)
          (λ _. ble_process_packet bg inputs >>= after_packet inputs) (p m).0 m fsm
          (λ _. after_fsm-Steady bg bytes inputs) in
      omega (arith, (process_ticket_msg-monotone box doc bg f.windows low m wf).1, turn.nonce_kept)

  Turn-stores :
      (inputs : LoopInputs) {m m' : Machine}
      → IsWellFormed m
      → m.state ≡ State.ticket
      → Turn box bg inputs m m'
      → value (nonce_of m) ≤ value m'.master_nonce_eeprom
  Turn-stores inputs {m} wf e (goes_on done) =
      subst
        (λ (r : Machine × Outcome (Unit {0})). value (nonce_of m) ≤ value r.0.master_nonce_eeprom)
        done (ticket_turn-stores inputs m wf e)
  Turn-stores inputs {m} wf e (restarts {m' = m'} stop mcu done defined) =
      let before = stopped-Advances inputs wf done in
      let stored =
        subst
          (λ (r : Machine × Outcome (Unit {0})). value (nonce_of m) ≤ value r.0.master_nonce_eeprom)
          done (ticket_turn-stores inputs m wf e) in
      omega (arith, stored, (reboot-Advances mcu m' before.well_formed).nonce_kept)

  -- A ticket is taken at most once: after a turn of a well-formed machine that began in the state
  -- TICKET, whether it came to its end or was stopped by a reset, and after any further turns,
  -- resets and losses of power outside the write of the EEPROM, a ticket whose nonce is not greater
  -- is refused by 1 and changes nothing, where the values in BGLib's messages are bytes, as long as
  -- no turn accesses an object out of bounds.
  pub ticket_once :
      (inputs : LoopInputs) (ws : List Window) (low_battery : Bool) {m m1 m' : Machine}
      → IsWellFormed m
      → m.state ≡ State.ticket
      → Turn box bg inputs m m1
      → Later box bg m1 m'
      → value (nonce_of m') ≤ value (nonce_of m)
      → process_ticket_msg box bg ws low_battery m' ≡ (m', ok 1)
  ticket_once inputs ws low_battery {m' = m'} wf e turn later le =
      let after = Later-Advances (Turn-Advances inputs wf turn).well_formed later in
      process_ticket_msg-stale box doc bg ws low_battery m' after.well_formed
        (omega (arith, Turn-stores inputs wf e turn, after.nonce_kept, le))
