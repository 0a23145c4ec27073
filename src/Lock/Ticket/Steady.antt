-- ===== src/Lock/Ticket/Steady.antt =====
-- `process_ticket_msg` keeps what `Steady` says, on every branch.
use esloq.Base.{◌<◌, refl, List, [], ◌∷◌, Bool, arith, replicate, order_cases, inl, inr}
use native.Mathlib.Decide.{ℕ_discrete}
use esloq.Crypto.{SecretBox, IsSecretBox}
use esloq.Nonce.Order.{value}
use esloq.Uart.{Window}
use esloq.Lock.State.{State, Machine, BgLib}
use esloq.Lock.Monad.{pure}
use esloq.Lock.Respond.{send_response}
use esloq.Lock.Respond.Steady.{send_response-Steady}
use esloq.Lock.Steady.{
  Advances, Advances-refl, Advances-trans, Steady, Steady-bind, Steady-pure, buffers_change,
  nonce_change,
}
use esloq.Lock.Ticket.{process_ticket_msg}
use esloq.Lock.Ticket.Branches.{
  opened_ticket, process_ticket_msg-stale, process_ticket_msg-forged, process_ticket_msg-accepted,
  first_nonce, ticket_code, session_key_of, length-session_key, ticket_taken,
}
use esloq.Lock.Ticket.Replay.{length-sealed_byte}
use esloq.Nonce.Order.{AllBytes}
use esloq.Lock.WellFormed.{
  IsWellFormed, nonce_of, length-nonce_of, AllBytes-nonce_of, AllBytes-append, AllBytes-replicate,
}

first_nonce-AllBytes : AllBytes first_nonce
first_nonce-AllBytes =
    AllBytes-append (replicate 23 0) (1 ∷ []) (AllBytes-replicate 23 0 (omega arith))
      (omega arith, tt)

module _ (box : SecretBox) (doc : IsSecretBox box) (bg : BgLib) (ws : List Window)
    (low_battery : Bool) where
  module _ (m : Machine) (wf : IsWellFormed m)
      (lt : value m.master_nonce_eeprom < value (nonce_of m)) where
    nonce_stored : Advances m (record m { master_nonce_eeprom = nonce_of m })
    nonce_stored =
        nonce_change m (nonce_of m) wf (length-nonce_of wf) (AllBytes-nonce_of wf)
          (omega (arith, lt))

    ticket_taken-Advances : Advances m (ticket_taken box doc bg ws low_battery m wf)
    ticket_taken-Advances = Advances-trans nonce_stored (
        buffers_change (record m { master_nonce_eeprom = nonce_of m }) State.request_w 0
          m.msg_buf.bytes first_nonce (session_key_of box m) m.att_write_buffer.bytes
          nonce_stored.well_formed (omega arith) wf.msg_room wf.msg_bytes refl first_nonce-AllBytes
          (length-session_key box doc bg ws low_battery m wf) wf.att_room)

    by_box : Advances m (process_ticket_msg box bg ws low_battery m).0
    by_box = elim (ℕ_discrete (opened_ticket box m).0 0) [
      | no forged ↦
          rw (process_ticket_msg-forged box doc bg ws low_battery m wf lt forged) nonce_stored
      | yes opens ↦ rw (process_ticket_msg-accepted box doc bg ws low_battery m wf lt opens) (
          Advances-trans ticket_taken-Advances (
            (Steady-bind (send_response bg ws _) (λ _. pure 0)
                (send_response-Steady bg ws _ (
                  length-sealed_byte box doc (ticket_code low_battery) first_nonce
                    (session_key_of box m) refl))
                (λ _. Steady-pure 0)).at
              _ ticket_taken-Advances.well_formed))
    ]

  pub process_ticket_msg-Steady : Steady (process_ticket_msg box bg ws low_battery)
  process_ticket_msg-Steady = record {
    at = λ m wf. elim (order_cases (value (nonce_of m)) (value m.master_nonce_eeprom)) [
      | inl le ↦ rw (process_ticket_msg-stale box doc bg ws low_battery m wf le) (Advances-refl wf)
      | inr lt ↦ by_box m wf lt
    ];
  }
