-- ===== src/Tests/Program.antt =====
-- A response that is carried whole, and the main loop from a reset to an accepted ticket.
use esloq.Base.{
  ℕ, ◌≡◌, refl, List, [], ◌∷◌, ◌++◌, true, Outcome, ok, replicate, take, drop, slice, copy_into,
}
use esloq.Crypto.{crypto_auth_encrypt, crypto_auth_decrypt}
use esloq.Nonce.{
  compare_from, is_greater_than, is_valid_ticket_nonce, increment_from, increment_array,
}
use esloq.Timer.{timer_16bit_start, timer_16bit_stop, timer_16bit_reset}
use esloq.Uart.{
  Window, Slot, receive, uart_rx, take_byte, usart_rx, arrive, cnt_threshold, wait_clear,
  wait_empty, send_byte, send_bytes, uart_tx, uart_enable,
}
use esloq.Lock.State.{State, Machine}
use esloq.Lock.Send.{after_tx, ble_send_packet, ble_cmd}
use esloq.Lock.Respond.{write_section, send_response, response, reset_msg_buffer}
use esloq.Lock.Ticket.{accept_ticket, process_ticket_msg}
use esloq.Lock.Handlers.{
  handle, ble_evt_attributes_value, after_value, ble_evt_connection_status,
  ble_rsp_attributes_write,
}
use esloq.Lock.Handlers.Writes.{response-sent, section_write}
use esloq.Lock.Handlers.Session.{in_session}
use esloq.Lock.Fsm.{after_ticket, dispatch, fsm_process}
use esloq.Lock.Loop.{
  LoopInputs, receive_into, deliver, after_payload, receive_payload, after_header,
  ble_process_packet, press, serve_request, serve_buttons, reset_on_error, after_packet, main_step,
  main_loop, main_init,
}
use esloq.Tests.Setup.{plain_box, bg, clear_window, machine, good_ticket, long_rotation}

abbrev rsp : List ℕ
rsp = replicate 20 1 ++ (replicate 20 2 ++ (3 ∷ []))

abbrev pair : List Window
pair = clear_window ∷ clear_window ∷ []

abbrev ready : Machine
ready = machine State.request_w (replicate 72 0)

abbrev first : Machine × Outcome (Unit {0})
first = send_response bg pair rsp ready

abbrev second : Machine × Outcome (Unit {0})
second = ble_rsp_attributes_write bg pair 0 first.0

abbrev third : Machine × Outcome (Unit {0})
third = ble_rsp_attributes_write bg pair 0 second.0

all_sent : (first.1 ≡ ok tt) × (second.1 ≡ ok tt) × (third.1 ≡ ok tt)
unfolding send_response ble_rsp_attributes_write write_section ble_cmd ble_send_packet after_tx
    uart_tx send_bytes send_byte wait_clear wait_empty cnt_threshold arrive timer_16bit_start
    timer_16bit_stop slice
all_sent = (refl, refl, refl)

response-sent_example :
    (third.0.commands
      ≡ section_write rsp 40 1 ∷ section_write rsp 20 20 ∷ section_write rsp 0 20 ∷ [])
    × (take 20 rsp ++ (take 20 (drop 20 rsp) ++ take 1 (drop 40 rsp)) ≡ rsp)
    × (ble_rsp_attributes_write bg [] 0 third.0 ≡ (third.0, ok tt))
response-sent_example =
    response-sent bg pair pair pair [] rsp ready first.0 second.0 third.0 refl
      (λ i. (first.0, all_sent.0 i)) (λ i. (second.0, all_sent.1 i)) (λ i. (third.0, all_sent.2 i))

-- Turns in which nothing comes and the timer is late.
abbrev silence : List Slot
silence = replicate 40 (record { arrivals = []; timer = 60000 })

abbrev arriving : List ℕ → List Slot
arriving bytes = record { arrivals = bytes; timer = 0 } ∷ silence

abbrev quiet : LoopInputs
quiet = record {
  fsm = record { windows = pair; acsr = 0; pind = 0; rotation = long_rotation };
  header_slots = silence;
  body_slots = silence;
  stack = replicate 60 0;
  handler_windows = [];
  presses = [];
  presses_turning = [];
  rotation = long_rotation;
}

-- A phone connects, a ticket comes in two packets, and it is processed.
abbrev turns : List LoopInputs
turns =
    record quiet { header_slots = arriving (0 ∷ 0 ∷ 0 ∷ 1 ∷ []) }
    ∷ record quiet {
      header_slots = arriving (0 ∷ 36 ∷ 0 ∷ 2 ∷ []);
      body_slots = arriving (take 36 good_ticket);
    }
    ∷ record quiet {
      header_slots = arriving (0 ∷ 36 ∷ 0 ∷ 2 ∷ []);
      body_slots = arriving (drop 36 good_ticket);
    }
    ∷ quiet
    ∷ []

abbrev at_reset : Machine
at_reset = machine State.reset (replicate 72 0)

abbrev last_turn : Machine × Outcome (Unit {0})
last_turn = main_loop plain_box bg turns (main_init at_reset)

loops : (last_turn.1 ≡ ok tt) × (in_session last_turn.0.state ≡ true)
unfolding main_loop main_step after_packet reset_on_error serve_buttons serve_request press
    ble_process_packet after_header receive_payload after_payload deliver receive_into uart_rx
    receive take_byte usart_rx arrive cnt_threshold timer_16bit_start timer_16bit_stop
    timer_16bit_reset handle ble_evt_attributes_value after_value ble_evt_connection_status
    fsm_process dispatch after_ticket process_ticket_msg accept_ticket reset_msg_buffer response
    send_response write_section ble_cmd ble_send_packet after_tx uart_tx send_bytes send_byte
    wait_clear wait_empty slice copy_into crypto_auth_encrypt crypto_auth_decrypt compare_from
    is_greater_than is_valid_ticket_nonce increment_from increment_array main_init uart_enable
loops = (refl, refl)
