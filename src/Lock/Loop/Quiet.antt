-- ===== src/Lock/Loop/Quiet.antt =====
-- What follows `fsm_process` in a turn of the main loop is quiet.
use esloq.Base.{
  ℕ, ◌≡◌, refl, List, ◌++◌, drop, length, Outcome, ok, halted, soft_reset, Option, none, some,
  in_bounds, get_elem?, ◌==◌,
}
use esloq.Mcu.{Mcu}
use esloq.Motor.{Rotation, rotate_motor_cw, rotate_motor_ccw}
use esloq.Uart.{Uart, Slot, RxStatus, Window, received, no_data, incomplete, uart_rx}
use esloq.Lock.State.{Machine, BgLib, Message, no_request, rotate_cw, rotate_ccw}
use esloq.Lock.Monad.{◌>>=◌, lift, modify}
use esloq.Lock.Send.{uart_timeout}
use esloq.Lock.Request.{rotating}
use esloq.Lock.Handlers.{handle}
use esloq.Lock.Handlers.Quiet.{handle-Quiet}
use esloq.Lock.Loop.{
  LoopInputs, PacketStatus, max_payload, receive_into, deliver, after_payload, receive_payload,
  after_header, ble_process_packet, press, reset_on_error, turn_for, serve_request, serve_buttons,
  after_packet, nothing, processed, receive_failed, not_found,
}
use esloq.Lock.Quiet.{
  Quietly, Quietly-refl, Quietly-trans, Quiet, Quiet-pure, Quiet-lift, Quiet-if, Quiet-modify,
  Quiet-bind, Quietly-free,
}
use esloq.Lock.Quiet.Parts.{rotating-Quiet}

receive_into-Quiet : (len room : ℕ) (slots : List Slot) → Quiet (receive_into len room slots)
unfolding receive_into
receive_into-Quiet len room slots = record {
  at = λ m. by_outcome m (uart_rx len room uart_timeout slots m.uart) refl;
}
  where
    by_outcome :
        (m : Machine) (o : Outcome (RxStatus × List ℕ × Uart))
        → uart_rx len room uart_timeout slots m.uart ≡ o
        → Quietly m (receive_into len room slots m).0
    by_outcome m (ok r) e =
        rw (e, receive_into)
          (Quietly-free m m.state m.msg_buf m.request m.system_address r.2 m.commands
            m.att_write_buffer (λ h. h))
    by_outcome m (halted s) e = rw (e, receive_into) Quietly-refl

request-Quiet : (f : ℕ → ℕ) → Quiet (modify (λ m. record m { request = f m.request }))
request-Quiet f = Quiet-modify _ (λ m.
    Quietly-free m m.state m.msg_buf (f m.request) m.system_address m.uart m.commands
      m.att_write_buffer (λ h. h))

module _ (inputs : LoopInputs) where
  turn_for-Quiet : (rotate : Rotation → Mcu → Outcome (Mcu × ℕ)) → Quiet (turn_for inputs rotate)
  unfolding turn_for
  turn_for-Quiet rotate =
      Quiet-bind (rotating rotate inputs.rotation) _ (rotating-Quiet rotate inputs.rotation)
        (λ code.
          Quiet-bind (modify (λ s. record s { request = press inputs.presses_turning s.request })) _
            (request-Quiet (press inputs.presses_turning)) (λ _. request-Quiet (λ r. no_request)))

  serve_request-Quiet : (request : ℕ) → Quiet (serve_request inputs request)
  unfolding serve_request
  serve_request-Quiet request =
      Quiet-if (request == rotate_cw) _ _ (turn_for-Quiet rotate_motor_cw)
        (Quiet-if (request == rotate_ccw) _ _ (turn_for-Quiet rotate_motor_ccw) (Quiet-pure tt))

  serve_buttons-Quiet : Quiet (serve_buttons inputs)
  unfolding serve_buttons
  serve_buttons-Quiet = record {
    at = λ m.
        let request = press inputs.presses m.request in
        Quietly-trans ((request-Quiet (press inputs.presses)).at m)
          ((serve_request-Quiet request).at (record m { request = request }));
  }

  reset_on_error-Quiet : (status : PacketStatus) → Quiet (reset_on_error status)
  unfolding reset_on_error
  reset_on_error-Quiet nothing = Quiet-pure tt
  reset_on_error-Quiet processed = Quiet-pure tt
  reset_on_error-Quiet receive_failed = Quiet-lift (halted soft_reset)
  reset_on_error-Quiet not_found = Quiet-lift (halted soft_reset)

  after_packet-Quiet : (status : PacketStatus) → Quiet (after_packet inputs status)
  unfolding after_packet
  after_packet-Quiet status =
      Quiet-bind (reset_on_error status) _ (reset_on_error-Quiet status) (λ _. serve_buttons-Quiet)

module _ (bg : BgLib) where
  deliver-Quiet : (ws : List Window) (hdr payload : List ℕ) → Quiet (deliver bg ws hdr payload)
  unfolding deliver
  deliver-Quiet ws hdr payload = by_header (bg.get_msg_hdr hdr) refl
    where
      by_header :
          (o : Option (List ℕ → Message))
          → bg.get_msg_hdr hdr ≡ o
          → Quiet (deliver bg ws hdr payload)
      by_header none e = rw (deliver, e) (Quiet-pure not_found)
      by_header (some message) e =
          rw (deliver, e)
            (Quiet-bind (handle bg ws (message payload)) _ (handle-Quiet bg ws (message payload))
              (λ _. Quiet-pure processed))

  module _ (inputs : LoopInputs) where
    after_payload-Quiet :
        (hdr : List ℕ) (r : RxStatus × List ℕ) → Quiet (after_payload bg inputs hdr r)
    unfolding after_payload
    after_payload-Quiet hdr (received, payload) =
        deliver-Quiet inputs.handler_windows hdr (payload ++ drop (length payload) inputs.stack)
    after_payload-Quiet hdr (no_data, payload) = Quiet-pure receive_failed
    after_payload-Quiet hdr (incomplete, payload) = Quiet-pure receive_failed

    receive_payload-Quiet : (hdr : List ℕ) (lolen : ℕ) → Quiet (receive_payload bg inputs hdr lolen)
    unfolding receive_payload
    receive_payload-Quiet hdr lolen =
        Quiet-if (lolen == 0) _ _ (deliver-Quiet inputs.handler_windows hdr inputs.stack) (
          Quiet-bind (receive_into lolen max_payload inputs.body_slots) _
            (receive_into-Quiet lolen max_payload inputs.body_slots) (after_payload-Quiet hdr))

    after_header-Quiet : (r : RxStatus × List ℕ) → Quiet (after_header bg inputs r)
    unfolding after_header
    after_header-Quiet (no_data, hdr) = Quiet-pure nothing
    after_header-Quiet (incomplete, hdr) = Quiet-pure receive_failed
    after_header-Quiet (received, hdr) =
        Quiet-bind (lift (in_bounds (get_elem? hdr 1))) _ (Quiet-lift (in_bounds (get_elem? hdr 1)))
          (receive_payload-Quiet hdr)

    ble_process_packet-Quiet : Quiet (ble_process_packet bg inputs)
    unfolding ble_process_packet
    ble_process_packet-Quiet =
        Quiet-bind (receive_into 4 4 inputs.header_slots) _
          (receive_into-Quiet 4 4 inputs.header_slots) after_header-Quiet

    pub after_fsm-Quiet : Quiet (ble_process_packet bg inputs >>= after_packet inputs)
    after_fsm-Quiet =
        Quiet-bind (ble_process_packet bg inputs) _ ble_process_packet-Quiet
          (after_packet-Quiet inputs)
