-- ===== src/Lock/Loop/Steady.antt =====
-- Every turn of the main loop, whether it comes to its end or stops, keeps the sizes of the globals
-- and the master key, and never sets the last master nonce back.
use esloq.Base.{
  ℕ, ◌≡◌, refl, List, [], ◌∷◌, ◌++◌, drop, length, Outcome, ok, halted, soft_reset, Option, none,
  some, get_elem?, ◌==◌,
}
use esloq.Crypto.{SecretBox, IsSecretBox}
use esloq.Mcu.{Mcu}
use esloq.Motor.{Rotation, rotate_motor_cw, rotate_motor_ccw}
use esloq.Uart.{Uart, Window, Slot, RxStatus, received, no_data, incomplete, uart_rx}
use esloq.Lock.State.{Machine, BgLib, Message, no_request, rotate_cw, rotate_ccw}
use esloq.Lock.Monad.{◌>>=◌, modify}
use esloq.Lock.Send.{uart_timeout}
use esloq.Lock.Request.{rotating}
use esloq.Lock.Request.Steady.{rotating-Steady}
use esloq.Lock.Handlers.{handle}
use esloq.Lock.Handlers.Steady.{HoldsBytes, handle-Steady}
use esloq.Lock.Fsm.{fsm_process}
use esloq.Lock.Fsm.Steady.{fsm_process-Steady}
use esloq.Lock.Loop.{
  LoopInputs, PacketStatus, max_payload, receive_into, deliver, after_payload, receive_payload,
  after_header, ble_process_packet, press, reset_on_error, turn_for, serve_request, serve_buttons,
  after_packet, main_step, main_loop, nothing, processed, receive_failed, not_found,
}
use esloq.Lock.Steady.{
  Advances, Advances-refl, Advances-trans, Steady, Steady-bind, Steady-pure, Steady-lift, Steady-if,
  Steady-modify, Steady-in_bounds, free_change,
}
use esloq.Lock.WellFormed.{IsWellFormed}

-- The fields of the messages of BGLib that are arrays hold `uint8_t`.
abbrev pub GivesBytes : BgLib → Type 0
GivesBytes bg =
    (hdr payload : List ℕ) (message : List ℕ → Message)
    → bg.get_msg_hdr hdr ≡ some message
    → HoldsBytes (message payload)

receive_into-Steady : (len room : ℕ) (slots : List Slot) → Steady (receive_into len room slots)
unfolding receive_into
receive_into-Steady len room slots = record {
  at = λ m wf. by_outcome m wf (uart_rx len room uart_timeout slots m.uart) refl;
}
  where
    by_outcome :
        (m : Machine)
        → IsWellFormed m
        → (o : Outcome (RxStatus × List ℕ × Uart)) → uart_rx len room uart_timeout slots m.uart ≡ o
        → Advances m (receive_into len room slots m).0
    by_outcome m wf (ok r) e =
        rw (e, receive_into)
          (free_change m m.state m.request m.system_address r.2 m.commands
            m.att_write_buffer.section_sent wf)
    by_outcome m wf (halted s) e = rw (e, receive_into) (Advances-refl wf)

request-Steady : (f : ℕ → ℕ) → Steady (modify (λ m. record m { request = f m.request }))
request-Steady f = Steady-modify _ (λ m wf.
    free_change m m.state (f m.request) m.system_address m.uart m.commands
      m.att_write_buffer.section_sent wf)

module _ (inputs : LoopInputs) where
  turn_for-Steady : (rotate : Rotation → Mcu → Outcome (Mcu × ℕ)) → Steady (turn_for inputs rotate)
  unfolding turn_for
  turn_for-Steady rotate =
      Steady-bind (rotating rotate inputs.rotation) _ (rotating-Steady rotate inputs.rotation)
        (λ code.
          Steady-bind (modify (λ s. record s { request = press inputs.presses_turning s.request }))
            _ (request-Steady (press inputs.presses_turning))
            (λ _. request-Steady (λ r. no_request)))

  serve_request-Steady : (request : ℕ) → Steady (serve_request inputs request)
  unfolding serve_request
  serve_request-Steady request =
      Steady-if (request == rotate_cw) _ _ (turn_for-Steady rotate_motor_cw)
        (Steady-if (request == rotate_ccw) _ _ (turn_for-Steady rotate_motor_ccw) (Steady-pure tt))

  serve_buttons-Steady : Steady (serve_buttons inputs)
  unfolding serve_buttons
  serve_buttons-Steady = record {
    at = λ m wf.
        let request = press inputs.presses m.request in
        let pressed = (request-Steady (press inputs.presses)).at m wf in
        Advances-trans pressed
          ((serve_request-Steady request).at (record m { request = request }) pressed.well_formed);
  }

  reset_on_error-Steady : (status : PacketStatus) → Steady (reset_on_error status)
  unfolding reset_on_error
  reset_on_error-Steady nothing = Steady-pure tt
  reset_on_error-Steady processed = Steady-pure tt
  reset_on_error-Steady receive_failed = Steady-lift (halted soft_reset)
  reset_on_error-Steady not_found = Steady-lift (halted soft_reset)

  after_packet-Steady : (status : PacketStatus) → Steady (after_packet inputs status)
  unfolding after_packet
  after_packet-Steady status =
      Steady-bind (reset_on_error status) _ (reset_on_error-Steady status)
        (λ _. serve_buttons-Steady)

module _ (bg : BgLib) (bytes : GivesBytes bg) where
  deliver-Steady : (ws : List Window) (hdr payload : List ℕ) → Steady (deliver bg ws hdr payload)
  unfolding deliver
  deliver-Steady ws hdr payload = by_header (bg.get_msg_hdr hdr) refl
    where
      by_header :
          (o : Option (List ℕ → Message))
          → bg.get_msg_hdr hdr ≡ o
          → Steady (deliver bg ws hdr payload)
      by_header none e = rw (deliver, e) (Steady-pure not_found)
      by_header (some message) e =
          rw (deliver, e)
            (Steady-bind (handle bg ws (message payload)) _
              (handle-Steady bg ws (message payload) (bytes hdr payload message e))
              (λ _. Steady-pure processed))

  module _ (inputs : LoopInputs) where
    after_payload-Steady :
        (hdr : List ℕ) (r : RxStatus × List ℕ) → Steady (after_payload bg inputs hdr r)
    unfolding after_payload
    after_payload-Steady hdr (received, payload) =
        deliver-Steady inputs.handler_windows hdr (payload ++ drop (length payload) inputs.stack)
    after_payload-Steady hdr (no_data, payload) = Steady-pure receive_failed
    after_payload-Steady hdr (incomplete, payload) = Steady-pure receive_failed

    receive_payload-Steady :
        (hdr : List ℕ) (lolen : ℕ) → Steady (receive_payload bg inputs hdr lolen)
    unfolding receive_payload
    receive_payload-Steady hdr lolen =
        Steady-if (lolen == 0) _ _ (deliver-Steady inputs.handler_windows hdr inputs.stack) (
          Steady-bind (receive_into lolen max_payload inputs.body_slots) _
            (receive_into-Steady lolen max_payload inputs.body_slots) (after_payload-Steady hdr))

    after_header-Steady : (r : RxStatus × List ℕ) → Steady (after_header bg inputs r)
    unfolding after_header
    after_header-Steady (no_data, hdr) = Steady-pure nothing
    after_header-Steady (incomplete, hdr) = Steady-pure receive_failed
    after_header-Steady (received, hdr) =
        Steady-in_bounds (get_elem? hdr 1) _ (λ lolen e. receive_payload-Steady hdr lolen)

    ble_process_packet-Steady : Steady (ble_process_packet bg inputs)
    unfolding ble_process_packet
    ble_process_packet-Steady =
        Steady-bind (receive_into 4 4 inputs.header_slots) _
          (receive_into-Steady 4 4 inputs.header_slots) after_header-Steady

    -- What follows `fsm_process` in a turn.
    pub after_fsm-Steady : Steady (ble_process_packet bg inputs >>= after_packet inputs)
    after_fsm-Steady =
        Steady-bind (ble_process_packet bg inputs) _ ble_process_packet-Steady
          (after_packet-Steady inputs)

  module _ (box : SecretBox) (doc : IsSecretBox box) where
    pub main_step-Steady : (inputs : LoopInputs) → Steady (main_step box bg inputs)
    unfolding main_step
    main_step-Steady inputs =
        Steady-bind (fsm_process box bg inputs.fsm) _ (fsm_process-Steady box doc bg inputs.fsm)
          (λ _. after_fsm-Steady inputs)

    pub main_loop-Steady : (turns : List LoopInputs) → Steady (main_loop box bg turns)
    unfolding main_loop
    main_loop-Steady [] = Steady-pure tt
    main_loop-Steady (inputs ∷ turns) =
        Steady-bind (main_step box bg inputs) _ (main_step-Steady inputs)
          (λ _. main_loop-Steady turns)
