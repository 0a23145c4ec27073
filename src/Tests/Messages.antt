-- ===== src/Tests/Messages.antt =====
-- Tickets, requests, values in parts, and responses.
use esloq.Base.{
  ap, sym, ℕ, ◌+◌, ◌≡◌, refl, List, [], ◌∷◌, true, false, Outcome, ok, halted, out_of_bounds,
  replicate, length, arith,
}
use esloq.Lock.State.{State, Machine}
use esloq.Lock.Monad.{◌>>◌, pure}
use esloq.Lock.Respond.{send_response}
use esloq.Lock.Ticket.{process_ticket_msg}
use esloq.Lock.Ticket.Branches.{
  process_ticket_msg-forged, process_ticket_msg-accepted, sealed_byte, first_nonce,
}
use esloq.Lock.Ticket.Replay.{process_ticket_msg-stores, process_ticket_msg-locks_out}
use esloq.Lock.Request.{process_request_msg}
use esloq.Lock.Request.Branches.{process_request_msg-forged, process_request_msg-accepted, Served}
use esloq.Lock.Request.Safety.{process_request_msg-no_replay}
use esloq.Lock.Handlers.Buffer.{receive_parts, holding}
use esloq.Lock.Handlers.Overrun.{attributes_value-overruns}
use esloq.Lock.WellFormed.{IsWellFormed, nonce_of}
use esloq.Nonce.Order.{value}
use esloq.Uart.{Uart}
use esloq.Tests.Setup.{
  plain_box, plain_box-IsSecretBox, bg, clear_window, machine, machine_after, zero_nonce,
  machine-IsWellFormed, nonce_five, good_ticket, forged_message, good_request, last_ticket,
  long_rotation, long_rotation-IsLongEnough,
}

abbrev with_ticket : Machine
with_ticket = machine State.ticket good_ticket

with_ticket-IsWellFormed : IsWellFormed with_ticket
with_ticket-IsWellFormed =
    machine-IsWellFormed zero_nonce zero_nonce State.ticket good_ticket refl refl refl refl refl
      refl

abbrev with_forged : Machine
with_forged = machine State.ticket forged_message

with_forged-IsWellFormed : IsWellFormed with_forged
with_forged-IsWellFormed =
    machine-IsWellFormed zero_nonce zero_nonce State.ticket forged_message refl refl refl refl refl
      refl

process_ticket_msg-forged_example :
    process_ticket_msg plain_box bg [] false with_forged
    ≡ (record with_forged { master_nonce_eeprom = nonce_five }, ok 2)
process_ticket_msg-forged_example =
    process_ticket_msg-forged plain_box plain_box-IsSecretBox bg [] false with_forged
      with_forged-IsWellFormed (omega arith) (λ e. absurd (omega (arith, e)))

process_ticket_msg-accepted_example :
    process_ticket_msg plain_box bg (clear_window ∷ clear_window ∷ []) false with_ticket
    ≡ (send_response bg
            (clear_window ∷ clear_window ∷ [])
            (sealed_byte plain_box 4 first_nonce (replicate 32 9))
          >> pure 0)
        (record with_ticket {
          state = State.request_w;
          session_nonce = first_nonce;
          session_key = replicate 32 9;
          master_nonce_eeprom = nonce_five;
        })
process_ticket_msg-accepted_example =
    process_ticket_msg-accepted plain_box plain_box-IsSecretBox bg
      (clear_window ∷ clear_window ∷ []) false with_ticket with_ticket-IsWellFormed (omega arith)
      refl

abbrev with_last : Machine
with_last = machine State.ticket last_ticket

with_last-IsWellFormed : IsWellFormed with_last
with_last-IsWellFormed =
    machine-IsWellFormed zero_nonce zero_nonce State.ticket last_ticket refl refl refl refl refl
      refl

abbrev locked_out : Machine
locked_out = machine_after (replicate 24 255) zero_nonce State.ticket good_ticket

locked_out-IsWellFormed : IsWellFormed locked_out
locked_out-IsWellFormed =
    machine-IsWellFormed (replicate 24 255) zero_nonce State.ticket good_ticket refl refl refl refl
      refl refl

process_ticket_msg-locks_out_example :
    process_ticket_msg plain_box bg [] false locked_out ≡ (locked_out, ok 1)
process_ticket_msg-locks_out_example =
    process_ticket_msg-locks_out plain_box plain_box-IsSecretBox bg [] [] false false with_last
      locked_out with_last-IsWellFormed locked_out-IsWellFormed refl
      (sym (
        process_ticket_msg-stores plain_box plain_box-IsSecretBox bg [] false with_last
          with_last-IsWellFormed (omega arith)))

abbrev with_request : Machine
with_request = machine State.request good_request

with_request-IsWellFormed : IsWellFormed with_request
with_request-IsWellFormed =
    machine-IsWellFormed zero_nonce zero_nonce State.request good_request refl refl refl refl refl
      refl

request_forged_run :
    process_request_msg plain_box bg [] long_rotation with_forged
    ≡ (record with_forged { state = State.request_w; session_nonce = nonce_five }, ok 2)
request_forged_run =
    process_request_msg-forged plain_box plain_box-IsSecretBox bg [] long_rotation with_forged
      with_forged-IsWellFormed (omega arith) (λ e. absurd (omega (arith, e)))

process_request_msg-forged_example :
    process_request_msg plain_box bg [] long_rotation with_forged
    ≡ (record with_forged { state = State.request_w; session_nonce = nonce_five }, ok 2)
process_request_msg-forged_example =
    process_request_msg-forged plain_box plain_box-IsSecretBox bg [] long_rotation with_forged
      with_forged-IsWellFormed (omega arith) (λ e. absurd (omega (arith, e)))

process_request_msg-accepted_example :
    (after : Uart) × (code : ℕ) × (next : List ℕ) × Served long_rotation with_request.uart.mcu
      after.mcu 1 code
    × (value next ≡ value (nonce_of with_request) + 1)
    × (length next ≡ 24)
    × (process_request_msg plain_box bg
          (clear_window ∷ clear_window ∷ [])
          long_rotation
          with_request
        ≡ (send_response bg
                (clear_window ∷ clear_window ∷ [])
                (sealed_byte plain_box code next (replicate 32 2))
              >> pure 0)
            (record with_request { state = State.request_w; session_nonce = next; uart = after }))
process_request_msg-accepted_example =
    process_request_msg-accepted plain_box plain_box-IsSecretBox bg
      (clear_window ∷ clear_window ∷ []) long_rotation with_request with_request-IsWellFormed 1
      (omega arith) refl refl (λ e. absurd (omega (arith, ap value e))) long_rotation-IsLongEnough
      (omega arith) (omega arith)

abbrev later_request : Machine
later_request = machine_after zero_nonce nonce_five State.request good_request

process_request_msg-no_replay_example :
    process_request_msg plain_box bg [] long_rotation later_request
    ≡ (record later_request { state = State.request_w }, ok 1)
process_request_msg-no_replay_example =
    process_request_msg-no_replay plain_box plain_box-IsSecretBox bg [] long_rotation with_forged
      with_forged-IsWellFormed (λ e. absurd (omega (arith, ap value e))) long_rotation-IsLongEnough
      (omega arith) (omega arith) later_request [] long_rotation
      (machine-IsWellFormed zero_nonce nonce_five State.request good_request refl refl refl refl
        refl refl)
      (sym (ap (λ (r : Machine × Outcome ℕ). r.0.session_nonce) request_forged_run)) (omega arith)

abbrev empty_buffer : State → Machine
empty_buffer s = machine s (replicate 72 0)

-- Four values of 20 bytes reach a lock that awaits a request.
attributes_value-overruns_example :
    (bytes : List ℕ) × (receive_parts
        (replicate 20 5 ∷ replicate 20 6 ∷ replicate 20 7 ∷ replicate 20 8 ∷ [])
        (empty_buffer State.request_w)
      ≡ (holding (empty_buffer State.request_w) 60 bytes State.request_w, halted out_of_bounds))
attributes_value-overruns_example =
    attributes_value-overruns true (replicate 20 5 ∷ replicate 20 6 ∷ replicate 20 7 ∷ [])
      (replicate 20 8) (empty_buffer State.request_w) refl refl refl
      (
        (λ e. absurd (omega (arith, e))),
        ((λ e. absurd (omega (arith, e))), ((λ e. absurd (omega (arith, e))), tt)),
      )
      (omega arith) (omega arith)
