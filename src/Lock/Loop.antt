-- ===== src/Lock/Loop.antt =====
-- `ble_process_packet` and `main` of firmware/avr/src/main.c.
pub mod Overflow
pub mod Session
pub mod Steady
pub mod Quiet
use esloq.Base.{
  ℕ, List, [], ◌∷◌, ◌++◌, Bool, Outcome, ok, halted, Option, none, some, in_bounds, ◌==◌,
  if◌then◌else◌, get_elem?, drop, length, leb,
}
use esloq.Crypto.{SecretBox}
use esloq.Mcu.{Mcu}
use esloq.Motor.{Rotation, rotate_motor_cw, rotate_motor_ccw, motor_ctrl_init}
use esloq.Uart.{
  Uart, Window, Slot, RxStatus, received, no_data, incomplete, uart_rx, uart_init, uart_enable,
  uart_ready_to_receive,
}
use esloq.Lock.State.{State, Machine, BgLib, Message, no_request, rotate_cw, rotate_ccw}
use esloq.Lock.Monad.{M, ◌>>=◌, ◌>>◌, pure, lift, get, modify}
use esloq.Lock.Board.{
  wdt_init, ble_hard_reset_init, battery_monitor_init, ble_wakeup, button_init, ble_hard_reset,
  pcint1,
}
use esloq.Lock.Send.{uart_timeout, reset_mcu}
use esloq.Lock.Request.{rotating}
use esloq.Lock.Handlers.{handle}
use esloq.Lock.Fsm.{FsmInputs, fsm_process}

-- What one turn of the main loop meets beside its call of `fsm_process`: the turns of the two
-- `uart_rx` loops, what the 60 bytes of `data` hold before, the windows of a packet that a handler
-- sends, PINC at each pin change interrupt before the buttons are looked at and while the motor
-- turns for them, and that rotation.
pub record LoopInputs : Type 0 where
  pub fsm : FsmInputs
  pub header_slots : List Slot
  pub body_slots : List Slot
  pub stack : List ℕ
  pub handler_windows : List Window
  pub presses : List ℕ
  pub presses_turning : List ℕ
  pub rotation : Rotation

-- -1, 0, 1 and 2
pub data PacketStatus : Type 0 where
  nothing processed receive_failed not_found : PacketStatus

-- `MAX_PAYLOAD` of apitypes.h
abbrev pub max_payload : ℕ
max_payload = 60

unfoldable pub receive_into : ℕ → ℕ → List Slot → M (RxStatus × List ℕ)
receive_into len room slots m = elim (uart_rx len room uart_timeout slots m.uart) [
  | ok r ↦ (record m { uart = r.2 }, ok (r.0, r.1))
  | halted stop ↦ (m, halted stop)
]

-- `msg->handler(data)`, where BGLib knows the header.
unfoldable pub deliver : BgLib → List Window → List ℕ → List ℕ → M PacketStatus
deliver bg ws hdr payload = elim (bg.get_msg_hdr hdr) [
  | none ↦ pure not_found
  | some message ↦ handle bg ws (message payload) >> pure processed
]

unfoldable pub after_payload : BgLib → LoopInputs → List ℕ → RxStatus × List ℕ → M PacketStatus
unfolding deliver
after_payload bg inputs hdr (received, bytes) =
    deliver bg inputs.handler_windows hdr (bytes ++ drop (length bytes) inputs.stack)
after_payload bg inputs hdr (no_data, bytes) = pure receive_failed
after_payload bg inputs hdr (incomplete, bytes) = pure receive_failed

-- The second call of `uart_rx`, if the header announces a payload.
unfoldable pub receive_payload : BgLib → LoopInputs → List ℕ → ℕ → M PacketStatus
unfolding receive_into deliver after_payload
receive_payload bg inputs hdr lolen =
    if lolen == 0
    then deliver bg inputs.handler_windows hdr inputs.stack
    else (receive_into lolen max_payload inputs.body_slots >>= after_payload bg inputs hdr)

-- `lolen` is the second byte of the header.
unfoldable pub after_header : BgLib → LoopInputs → RxStatus × List ℕ → M PacketStatus
unfolding receive_payload
after_header bg inputs (no_data, hdr) = pure nothing
after_header bg inputs (incomplete, hdr) = pure receive_failed
after_header bg inputs (received, hdr) =
    lift (in_bounds (get_elem? hdr 1)) >>= receive_payload bg inputs hdr

-- `sizeof(hdr)` is 4.
unfoldable pub ble_process_packet : BgLib → LoopInputs → M PacketStatus
unfolding receive_into after_header
ble_process_packet bg inputs = receive_into 4 4 inputs.header_slots >>= after_header bg inputs

unfoldable pub press : List ℕ → ℕ → ℕ
press [] request = request
press (pinc ∷ pincs) request = press pincs (pcint1 pinc request)

-- `if(ble_process_packet() > 0) soft_reset();`
unfoldable pub reset_on_error : PacketStatus → M (Unit {0})
reset_on_error nothing = pure tt
reset_on_error processed = pure tt
reset_on_error receive_failed = reset_mcu
reset_on_error not_found = reset_mcu

-- `rotate_motor_…(); request = -1;`: a press while the motor turns is overwritten.
unfoldable turn_for : LoopInputs → (Rotation → Mcu → Outcome (Mcu × ℕ)) → M (Unit {0})
unfolding press
turn_for inputs rotate = do
  code ← rotating rotate inputs.rotation
  modify (λ s. record s { request = press inputs.presses_turning s.request })
  modify (λ s. record s { request = no_request })

unfoldable pub serve_request : LoopInputs → ℕ → M (Unit {0})
unfolding turn_for
serve_request inputs request =
    if request == rotate_cw
    then turn_for inputs rotate_motor_cw
    else if request == rotate_ccw
    then turn_for inputs rotate_motor_ccw
    else pure tt

-- The presses before `request` is read, and the two tests on it.
unfoldable pub serve_buttons : LoopInputs → M (Unit {0})
unfolding press serve_request
serve_buttons inputs m =
    let request = press inputs.presses m.request in
    serve_request inputs request (record m { request = request })

unfoldable pub after_packet : LoopInputs → PacketStatus → M (Unit {0})
unfolding reset_on_error serve_buttons
after_packet inputs status = reset_on_error status >> serve_buttons inputs

-- One turn of `while (1)` in `main`.
unfoldable pub main_step : SecretBox → BgLib → LoopInputs → M (Unit {0})
unfolding after_packet
main_step box bg inputs =
    fsm_process box bg inputs.fsm >> (ble_process_packet bg inputs >>= after_packet inputs)

-- Turns, one after the other.
unfoldable pub main_loop : SecretBox → BgLib → List LoopInputs → M (Unit {0})
main_loop box bg [] = pure tt
main_loop box bg (i ∷ is) = main_step box bg i >> main_loop box bg is

-- The part of `main` before the loop.
unfoldable pub main_init : Machine → Machine
main_init m =
    let mcu1 = motor_ctrl_init (ble_hard_reset_init (wdt_init m.uart.mcu)) in
    let mcu2 = ble_wakeup (battery_monitor_init (button_init mcu1)) in
    let (mcu3, rx') = uart_enable (uart_init 9600 mcu2) m.uart.rx in
    let mcu4 = (ble_hard_reset (uart_ready_to_receive mcu3)).1 in
    record m { state = State.ble_boot_w; uart = record m.uart { mcu = mcu4; rx = rx' } }
