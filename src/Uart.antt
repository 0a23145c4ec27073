-- ===== src/Uart.antt =====
-- firmware/avr/src/uart.c: the circular receive buffer that the interrupt fills, the two loops that
-- receive and send, and the flow control pins.
pub mod Overflow
pub mod Progress
pub mod Delivery
pub mod Queue
pub mod Receive
pub mod Transmit
use esloq.Base.{
  ℕ, zero, suc, ◌+◌, ◌-◌, ◌*◌, ◌/◌, ◌%◌, ◌^◌, List, [], ◌∷◌, ◌++◌, Bool, true, false, Outcome, ok,
  halted, out_of_bounds, waiting, ◌>>=◌, in_bounds, ltb, leb, ◌==◌, if◌then◌else◌, get_or,
  get_elem?, set, replicate, bit_is_set, set_bits, clear_bits, not,
}
use esloq.Mcu.{Mcu, f_cpu}
use esloq.Timer.{timer_16bit_start, timer_16bit_stop, timer_16bit_reset, timer_16bit_value}

abbrev rx_max_buffer_size : ℕ
rx_max_buffer_size = 256

-- The four globals of the receive buffer. The indices and the size are `uint8_t`.
pub record RxBuffer : Type 0 where
  pub rxbuffer : List ℕ
  pub rxbuffer_start : ℕ
  pub rxbuffer_next : ℕ
  pub rxbuffer_size : ℕ

-- `ISR(USART_RX_vect)`: the byte is read from UDR0.
unfoldable pub usart_rx : ℕ → RxBuffer → RxBuffer
usart_rx udr0 rx = record rx {
  rxbuffer = set rx.rxbuffer rx.rxbuffer_next udr0;
  rxbuffer_next = (rx.rxbuffer_next + 1) % 256 % rx_max_buffer_size;
  rxbuffer_size = (rx.rxbuffer_size + 1) % 256;
}

-- The interrupts for some bytes, one after the other.
unfoldable pub arrive : List ℕ → RxBuffer → RxBuffer
arrive [] rx = rx
arrive (b ∷ bs) rx = arrive bs (usart_rx b rx)

-- The byte that `uart_rx` takes, and the buffer after its first three statements.
unfoldable pub take_byte : RxBuffer → ℕ × RxBuffer
take_byte rx = (
  get_or rx.rxbuffer rx.rxbuffer_start 0,
  record rx {
    rxbuffer_start = (rx.rxbuffer_start + 1) % 256 % rx_max_buffer_size;
    rxbuffer_size = (rx.rxbuffer_size + 255) % 256;
  },
)

-- The same where a byte arrives inside `rxbuffer_size--`, after the volatile read of the size and
-- before the write.
pub take_byte_interrupted : ℕ → RxBuffer → ℕ × RxBuffer
unfolding usart_rx
take_byte_interrupted udr0 rx =
    let start' = (rx.rxbuffer_start + 1) % 256 % rx_max_buffer_size in
    let size_read = rx.rxbuffer_size in
    let rx' = usart_rx udr0 (record rx { rxbuffer_start = start' }) in
    (get_or rx.rxbuffer rx.rxbuffer_start 0, record rx' { rxbuffer_size = (size_read + 255) % 256 })

-- `F_CPU/prescaler*timeout_ms/1000 - 1` with prescaler 256, cut to a `uint16_t`.
unfoldable pub cnt_threshold : ℕ → ℕ
cnt_threshold timeout_ms = (f_cpu / 256 * timeout_ms / 1000 + (2 ^ 16 - 1)) % 2 ^ 16

-- The registers, the receive buffer, and the bytes that UDR0 has put on the wire.
pub record Uart : Type 0 where
  pub mcu : Mcu
  pub rx : RxBuffer
  pub wire : List ℕ

-- One turn of the loop of `uart_rx`: the bytes that the interrupt has stored since the last turn,
-- and the count that the 16-bit timer has reached.
pub record Slot : Type 0 where
  pub arrivals : List ℕ
  pub timer : ℕ

-- 0, -1 and 1
pub data RxStatus : Type 0 where
  received no_data incomplete : RxStatus

-- What the turn finds.
abbrev pub turn : Slot → Uart → Uart
turn s u = record u { mcu = record u.mcu { tcnt1 = s.timer }; rx = arrive s.arrivals u.rx }

abbrev pub stop_timer : Uart → Uart
stop_timer u = record u { mcu = timer_16bit_stop u.mcu }

-- The loop of `uart_rx`, with the bytes written to `data` so far; `room` is the size of the object
-- that `data` points to.
unfoldable pub receive :
    ℕ → ℕ → ℕ → List Slot → ℕ → List ℕ → Uart → Outcome (RxStatus × List ℕ × Uart)
unfolding take_byte
receive len room threshold [] i bytes u =
    if ltb i len then halted waiting else ok (received, bytes, stop_timer u)
receive len room threshold (s ∷ ss) i bytes u =
    let u' = turn s u in
    let (b, rx') = take_byte u'.rx in
    let taken = record u' { rx = rx'; mcu = timer_16bit_reset u'.mcu } in
    let more = receive len room threshold ss ((i + 1) % 256) (bytes ++ (b ∷ [])) taken in
    let again = receive len room threshold ss i bytes u' in
    if ltb i len
    then (if u'.rx.rxbuffer_size == 0
        then (if leb threshold (timer_16bit_value u'.mcu)
            then ok ((if i == 0 then no_data else incomplete), bytes, stop_timer u')
            else again)
        else (if ltb i room then more else halted out_of_bounds))
    else ok (received, bytes, stop_timer u)

unfoldable pub uart_rx : ℕ → ℕ → ℕ → List Slot → Uart → Outcome (RxStatus × List ℕ × Uart)
unfolding receive cnt_threshold
uart_rx len room timeout_ms slots u =
    let started = record u { mcu = timer_16bit_start 256 u.mcu } in
    receive len room (cnt_threshold timeout_ms) slots 0 [] started

-- What a call of `send_byte` meets: the bytes that arrive meanwhile, at each poll whether the other
-- side is clear to send and the count of the timer, then whether the transmit register is empty.
pub record SendPoll : Type 0 where
  pub clear : Bool
  pub timer : ℕ

pub record Window : Type 0 where
  pub arrivals : List ℕ
  pub polls : List SendPoll
  pub empty : List Bool

-- 0 and -1
pub data TxStatus : Type 0 where
  sent timed_out : TxStatus

unfoldable pub wait_clear : ℕ → List SendPoll → Mcu → Outcome (TxStatus × Mcu)
wait_clear threshold [] mcu = halted waiting
wait_clear threshold (p ∷ ps) mcu =
    let mcu' = record mcu { tcnt1 = p.timer } in
    let rest = wait_clear threshold ps mcu' in
    if p.clear
    then ok (sent, mcu')
    else if leb threshold (timer_16bit_value mcu')
    then ok (timed_out, mcu')
    else rest

unfoldable pub wait_empty : List Bool → Outcome TxStatus
wait_empty [] = halted waiting
wait_empty (e ∷ es) = let rest = wait_empty es in if e then ok sent else rest

unfoldable pub send_byte : ℕ → ℕ → Window → Uart → Outcome (TxStatus × Uart)
unfolding wait_clear wait_empty cnt_threshold
send_byte byte timeout_ms w u = do
  cleared ← wait_clear (cnt_threshold timeout_ms) w.polls (timer_16bit_start 256 u.mcu)
  let u' = record u { mcu = timer_16bit_stop cleared.1; rx = arrive w.arrivals u.rx }
  elim (cleared.0) [
    | timed_out ↦ ok (timed_out, u')
    | sent ↦ wait_empty w.empty >>= λ _. ok (sent, record u' { wire = u'.wire ++ (byte ∷ []) })
  ]

-- A `for` loop of `uart_tx`, from index `i` with `left` bytes to go; one window for each byte.
unfoldable pub send_bytes :
    ℕ → ℕ → List ℕ → ℕ → List Window → Uart → Outcome (TxStatus × List Window × Uart)
send_bytes zero i array timeout_ms ws u = ok (sent, ws, u)
send_bytes (suc left) i array timeout_ms [] u = halted waiting
send_bytes (suc left) i array timeout_ms (w ∷ ws) u = do
  byte ← in_bounds (get_elem? array i)
  r ← send_byte byte timeout_ms w u
  elim (r.0) [
    | timed_out ↦ ok (timed_out, ws, r.1)
    | sent ↦ send_bytes left (i + 1) array timeout_ms ws r.1
  ]

-- The status that `send_byte` returns for the total length is not looked at.
unfoldable pub uart_tx :
    ℕ → List ℕ → ℕ → List ℕ → ℕ → List Window → Uart → Outcome (TxStatus × List Window × Uart)
unfolding send_bytes
uart_tx len1 data1 len2 data2 timeout_ms [] u = halted waiting
uart_tx len1 data1 len2 data2 timeout_ms (w ∷ ws) u = do
  r ← send_byte ((len1 + len2) % 256) timeout_ms w u
  r1 ← send_bytes len1 0 data1 timeout_ms ws r.1
  elim (r1.0) [
    | timed_out ↦ ok (timed_out, r1.1, r1.2)
    | sent ↦ send_bytes len2 0 data2 timeout_ms r1.1 r1.2
  ]

-- CTS is PINC5, low when clear; the argument is PINC.
pub uart_clear_to_send : ℕ → Bool
uart_clear_to_send pinc = not (bit_is_set pinc 5)

-- RTS is PINC4.
pub uart_ready_to_receive : Mcu → Mcu
uart_ready_to_receive mcu = record mcu { portc = clear_bits (2 ^ 4) mcu.portc }

pub uart_not_ready_to_receive : Mcu → Mcu
uart_not_ready_to_receive mcu = record mcu { portc = set_bits (2 ^ 4) mcu.portc }

-- TXEN0 = 3, RXEN0 = 4, RXCIE0 = 7
unfoldable pub uart_enable : Mcu → RxBuffer → Mcu × RxBuffer
uart_enable mcu rx = (
  record mcu {
    ucsr0b = set_bits (2 ^ 3 + 2 ^ 4 + 2 ^ 7) mcu.ucsr0b;
    ddrc = clear_bits (2 ^ 5) (set_bits (2 ^ 4) mcu.ddrc);
    portc = set_bits (0 * 2 ^ 5) (set_bits (2 ^ 4) mcu.portc);
  },
  record rx { rxbuffer_start = 0; rxbuffer_next = 0; rxbuffer_size = 0 },
)

pub uart_disable : Mcu → Mcu
uart_disable mcu = record mcu { ucsr0b = 0 }

-- `F_CPU/16/baud-1`, cut to a `uint16_t` and written in two halves.
pub uart_init : ℕ → Mcu → Mcu
uart_init baud mcu =
    let ubrr = (f_cpu / 16 / baud + (2 ^ 16 - 1)) % 2 ^ 16 in
    record mcu { ubrr0h = ubrr / 2 ^ 8; ubrr0l = ubrr % 2 ^ 8 }
