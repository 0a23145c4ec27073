-- ===== src/Lock/Loop/Session.antt =====
-- The main loop runs as the step relation of `Fsm.Graph` says.
use esloq.Base.{
  soft_reset, ℕ, ◌≡◌, refl, sym, ◌∙◌, ap, List, [], ◌∷◌, ◌++◌, true, Outcome, ok, halted, in_bounds,
  ◌==◌, Bool-cases, Option-cases, inl, inr, get_elem?, drop, length,
}
use esloq.Crypto.{SecretBox}
use esloq.Mcu.{Mcu}
use esloq.Motor.{Rotation, rotate_motor_cw, rotate_motor_ccw}
use esloq.Uart.{Uart, Window, Slot, RxStatus, received, no_data, incomplete, uart_rx}
use esloq.Lock.State.{State, Machine, BgLib, no_request, rotate_cw, rotate_ccw}
use esloq.Lock.Monad.{◌>>=◌, ◌>>◌, pure, lift, modify, >>=-eq-ok}
use esloq.Lock.Send.{uart_timeout}
use esloq.Lock.Request.{rotating}
use esloq.Lock.Handlers.{handle}
use esloq.Lock.Handlers.Session.{in_session}
use esloq.Lock.Fsm.{FsmInputs, fsm_process}
use esloq.Lock.Fsm.Graph.{Run, Accepts, session-Accepts}
use esloq.Lock.Loop.{
  LoopInputs, PacketStatus, nothing, processed, receive_failed, not_found, receive_into, deliver,
  after_payload, after_header, serve_request, turn_for, after_packet, main_init, receive_payload,
  ble_process_packet, reset_on_error, serve_buttons, main_step, main_loop, max_payload, press,
}

receive_into-state :
    (len room : ℕ) (slots : List Slot) (m : Machine)
    → (receive_into len room slots m).0.state ≡ m.state
unfolding receive_into
receive_into-state len room slots m = by_outcome (uart_rx len room uart_timeout slots m.uart) refl
  where
    by_outcome :
        (o : Outcome (RxStatus × List ℕ × Uart))
        → uart_rx len room uart_timeout slots m.uart ≡ o
        → (receive_into len room slots m).0.state ≡ m.state
    by_outcome (ok r) e = rw (e, receive_into)
    by_outcome (halted stop) e = rw (e, receive_into)

rotating-state :
    (rotate : Rotation → Mcu → Outcome (Mcu × ℕ)) (rotation : Rotation) (m : Machine)
    → (rotating rotate rotation m).0.state ≡ m.state
unfolding rotating
rotating-state rotate rotation m = by_outcome (rotate rotation m.uart.mcu) refl
  where
    by_outcome :
        (o : Outcome (Mcu × ℕ))
        → rotate rotation m.uart.mcu ≡ o
        → (rotating rotate rotation m).0.state ≡ m.state
    by_outcome (ok r) e = rw (e, rotating)
    by_outcome (halted stop) e = rw (e, rotating)

module _ (box : SecretBox) (bg : BgLib) (m0 : Machine) where
  -- A return without a step.
  returned :
      {A : Type 0} (a b : A) (m m' : Machine)
      → Run box bg m0 m
      → ◌≡◌ {A = Machine × Outcome A} (m, ok a) (m', ok b)
      → Run box bg m0 m'
  returned {A} a b m m' run h = Run.other run (ap (λ (r : Machine × Outcome A). r.0.state) (sym h))

  deliver-Run :
      (ws : List Window) (hdr payload : List ℕ) (m m' : Machine) (status : PacketStatus)
      → Run box bg m0 m
      → deliver bg ws hdr payload m ≡ (m', ok status)
      → Run box bg m0 m'
  unfolding deliver
  deliver-Run ws hdr payload m m' status run h = elim (Option-cases (bg.get_msg_hdr hdr)) [
    | inl unknown ↦ returned not_found status m m' run (rw (unknown, deliver) at h)
    | inr (message, known) ↦
        let (_, e, rest) =
          >>=-eq-ok (handle bg ws (message payload)) (λ _. pure processed) m m' status
            (rw (known, deliver) at h) in
        returned processed status (handle bg ws (message payload) m).0 m'
          (Run.receives run ws (message payload) (λ i. ((handle bg ws (message payload) m).0, e i)))
          rest
  ]

  after_payload-Run :
      (inputs : LoopInputs) (hdr : List ℕ) (r : RxStatus × List ℕ) (m m' : Machine)
      (status : PacketStatus)
      → Run box bg m0 m
      → after_payload bg inputs hdr r m ≡ (m', ok status)
      → Run box bg m0 m'
  unfolding after_payload
  after_payload-Run inputs hdr (received, bytes) m m' status run h =
      deliver-Run inputs.handler_windows hdr (bytes ++ drop (length bytes) inputs.stack) m m' status
        run h
  after_payload-Run inputs hdr (no_data, bytes) m m' status run h =
      returned receive_failed status m m' run h
  after_payload-Run inputs hdr (incomplete, bytes) m m' status run h =
      returned receive_failed status m m' run h

  payload-Run :
      (inputs : LoopInputs) (hdr : List ℕ) (lolen : ℕ) (m m' : Machine) (status : PacketStatus)
      → Run box bg m0 m
      → receive_payload bg inputs hdr lolen m ≡ (m', ok status)
      → Run box bg m0 m'
  unfolding receive_payload
  payload-Run inputs hdr lolen m m' status run h = elim (Bool-cases (lolen == 0)) [
    | inl none_left ↦
        deliver-Run inputs.handler_windows hdr inputs.stack m m' status run
          (rw (none_left, receive_payload) at h)
    | inr some_left ↦
        let x = receive_into lolen max_payload inputs.body_slots in
        let (r, _, rest) =
          >>=-eq-ok x (after_payload bg inputs hdr) m m' status
            (rw (some_left, receive_payload) at h) in
        after_payload-Run inputs hdr r (x m).0 m' status
          (Run.other run (receive_into-state lolen max_payload inputs.body_slots m)) rest
  ]

  after_header-Run :
      (inputs : LoopInputs) (r : RxStatus × List ℕ) (m m' : Machine) (status : PacketStatus)
      → Run box bg m0 m
      → after_header bg inputs r m ≡ (m', ok status)
      → Run box bg m0 m'
  unfolding after_header
  after_header-Run inputs (received, hdr) m m' status run h =
      let (lolen, _, rest) =
        >>=-eq-ok (lift (in_bounds (get_elem? hdr 1))) (receive_payload bg inputs hdr) m m' status
          h in
      payload-Run inputs hdr lolen m m' status run rest
  after_header-Run inputs (no_data, hdr) m m' status run h = returned nothing status m m' run h
  after_header-Run inputs (incomplete, hdr) m m' status run h =
      returned receive_failed status m m' run h

  packet-Run :
      (inputs : LoopInputs) (m m' : Machine) (status : PacketStatus)
      → Run box bg m0 m
      → ble_process_packet bg inputs m ≡ (m', ok status)
      → Run box bg m0 m'
  unfolding ble_process_packet
  packet-Run inputs m m' status run h =
      let x = receive_into 4 4 inputs.header_slots in
      let (r, _, rest) = >>=-eq-ok x (after_header bg inputs) m m' status h in
      after_header-Run inputs r (x m).0 m' status
        (Run.other run (receive_into-state 4 4 inputs.header_slots m)) rest

  turn-Run :
      (inputs : LoopInputs) (rotate : Rotation → Mcu → Outcome (Mcu × ℕ)) (m m' : Machine)
      → Run box bg m0 m
      → turn_for inputs rotate m ≡ (m', ok tt)
      → Run box bg m0 m'
  unfolding turn_for
  turn-Run inputs rotate m m' run h =
      let x = rotating rotate inputs.rotation in
      let (code, _, rest) =
        >>=-eq-ok x
          (λ _.
            modify (λ s. record s { request = press inputs.presses_turning s.request })
            >> modify (λ s. record s { request = no_request }))
          m m' tt h in
      Run.other run (
        ap (λ (r : Machine × Outcome (Unit {0})). r.0.state) (sym rest)
        ∙ rotating-state rotate inputs.rotation m)

  buttons-Run :
      (inputs : LoopInputs) (request : ℕ) (m m' : Machine)
      → Run box bg m0 m
      → serve_request inputs request m ≡ (m', ok tt)
      → Run box bg m0 m'
  unfolding serve_request
  buttons-Run inputs request m m' run h = elim (Bool-cases (request == rotate_cw)) [
    | inl cw ↦ turn-Run inputs rotate_motor_cw m m' run (rw (cw, serve_request) at h)
    | inr not_cw ↦ elim (Bool-cases (request == rotate_ccw)) [
      | inl ccw ↦ turn-Run inputs rotate_motor_ccw m m' run (rw (not_cw, ccw, serve_request) at h)
      | inr none_pressed ↦ returned tt tt m m' run (rw (not_cw, none_pressed, serve_request) at h)
    ]
  ]

  reset_on_error-Run :
      (status : PacketStatus) (m m' : Machine)
      → Run box bg m0 m
      → reset_on_error status m ≡ (m', ok tt)
      → Run box bg m0 m'
  unfolding reset_on_error
  reset_on_error-Run nothing m m' run h = returned tt tt m m' run h
  reset_on_error-Run processed m m' run h = returned tt tt m m' run h
  reset_on_error-Run receive_failed m m' run h =
      let stopped : halted soft_reset ≡ ok tt = ap (λ (r : Machine × Outcome (Unit {0})). r.1) h in
      cc
  reset_on_error-Run not_found m m' run h =
      let stopped : halted soft_reset ≡ ok tt = ap (λ (r : Machine × Outcome (Unit {0})). r.1) h in
      cc

  step-Run :
      (inputs : LoopInputs) (m m' : Machine)
      → Run box bg m0 m
      → main_step box bg inputs m ≡ (m', ok tt)
      → Run box bg m0 m'
  unfolding main_step after_packet serve_buttons
  step-Run inputs m m' run h =
      let fsm = fsm_process box bg inputs.fsm in
      let packet = ble_process_packet bg inputs in
      let (_, e1, rest1) = >>=-eq-ok fsm (λ _. packet >>= after_packet inputs) m m' tt h in
      let m1 = (fsm m).0 in
      let (status, e2, rest2) = >>=-eq-ok packet (after_packet inputs) m1 m' tt rest1 in
      let m2 = (packet m1).0 in
      let (_, e3, rest3) =
        >>=-eq-ok (reset_on_error status) (λ _. serve_buttons inputs) m2 m' tt rest2 in
      let m3 = (reset_on_error status m2).0 in
      let run1 = Run.processes run inputs.fsm (λ i. (m1, e1 i)) in
      let run2 = packet-Run inputs m1 m2 status run1 (λ i. (m2, e2 i)) in
      let run3 = reset_on_error-Run status m2 m3 run2 (λ i. (m3, e3 i)) in
      let request = press inputs.presses m3.request in
      buttons-Run inputs request (record m3 { request = request }) m' (Run.other run3 refl) rest3

  loop-Run :
      (inputs : List LoopInputs) (m m' : Machine)
      → Run box bg m0 m
      → main_loop box bg inputs m ≡ (m', ok tt)
      → Run box bg m0 m'
  unfolding main_loop
  loop-Run [] m m' run h = returned tt tt m m' run h
  loop-Run (i ∷ is) m m' run h =
      let (_, e, rest) = >>=-eq-ok (main_step box bg i) (λ _. main_loop box bg is) m m' tt h in
      loop-Run is (main_step box bg i m).0 m'
        (step-Run i m (main_step box bg i m).0 run (λ j. ((main_step box bg i m).0, e j))) rest

-- From the start of `main`, whatever is received and however long it runs, the main loop is in
-- `REQUEST_W` or `REQUEST` only after a ticket was accepted: at some point of the run the state was
-- `TICKET` and `process_ticket_msg` returned 0.
pub main_loop-session :
    (box : SecretBox) (bg : BgLib) (inputs : List LoopInputs) (m m' : Machine)
    → main_loop box bg inputs (main_init m) ≡ (m', ok tt)
    → in_session m'.state ≡ true
    → (mt : Machine) × (fsm : FsmInputs) × Run box bg (main_init m) mt
      × (mt.state ≡ State.ticket)
      × Accepts box bg fsm mt
unfolding main_init
main_loop-session box bg inputs m m' h inside =
    session-Accepts box bg (main_init m) m'
      (loop-Run box bg (main_init m) inputs (main_init m) m' Run.start h) refl inside
