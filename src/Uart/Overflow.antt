-- ===== src/Uart/Overflow.antt =====
-- `uart_rx` that is asked for more bytes than the object has room for.
use esloq.Base.{
  ℕ, ◌+◌, ◌%◌, ◌≤◌, ◌<◌, ◌≡◌, ap, List, [], ◌∷◌, ◌++◌, length, arith, length-append, true, false,
  Bool-cases, inl, inr, halted, out_of_bounds, ltb, ◌==◌,
}
use esloq.Timer.{timer_16bit_reset, timer_16bit_start}
use esloq.Uart.{Uart, Slot, turn, arrive, take_byte, receive, uart_rx, cnt_threshold}
use esloq.Uart.Queue.{contents, length-contents, IsValid, arrive_refines, take_byte_refines}
use esloq.Uart.Receive.{arrived}

module _ (len room threshold : ℕ) (over : room < len) (byte_len : len < 256) where
  receive-overflow :
      (ss : List Slot) (i : ℕ) (bytes : List ℕ) (u : Uart)
      → i ≤ room
      → room < i + u.rx.rxbuffer_size
      → room < i + length ss
      → IsValid u.rx
      → u.rx.rxbuffer_size + length (arrived ss) < 256
      → receive len room threshold ss i bytes u ≡ halted out_of_bounds
  unfolding receive
  receive-overflow [] i bytes u le waits turns v lt = absurd (omega arith)
  receive-overflow (s ∷ ss) i bytes u le waits turns v lt =
      let rx' = arrive s.arrivals u.rx in
      let split = length-append s.arrivals (arrived ss) in
      let (q', v') = arrive_refines s.arrivals u.rx v (omega arith) in
      let size' : rx'.rxbuffer_size ≡ u.rx.rxbuffer_size + length s.arrivals = omega (
        arith,
        ap length q',
        length-append (contents u.rx) s.arrivals,
        length-contents rx',
        length-contents u.rx,
      ) in
      let some_left : (rx'.rxbuffer_size == 0) ≡ false = ground arith in
      let more : ltb i len ≡ true = ground arith in
      let (b, taken) = take_byte rx' in
      let (oldest, v'') = take_byte_refines rx' v' (omega arith) in
      let one_less : rx'.rxbuffer_size ≡ 1 + taken.rxbuffer_size =
        omega (arith, ap length oldest, length-contents rx', length-contents taken) in
      elim (Bool-cases (ltb i room)) [
        | inl fits ↦
            rw (more, some_left, fits)
              (receive-overflow ss ((i + 1) % 256) (bytes ++ (b ∷ []))
                (record (turn s u) { rx = taken; mcu = timer_16bit_reset (turn s u).mcu })
                (ground arith) (ground arith) (ground arith) v'' (omega arith))
        | inr full ↦ rw (more, some_left, full)
      ]

-- More bytes wait than there is room for, and fewer than are asked for at most.
pub uart_rx-overflow :
    (len room timeout_ms : ℕ) (slots : List Slot) (u : Uart)
    → room < len
    → len < 256
    → IsValid u.rx
    → room < u.rx.rxbuffer_size
    → room < length slots
    → u.rx.rxbuffer_size + length (arrived slots) < 256
    → uart_rx len room timeout_ms slots u ≡ halted out_of_bounds
unfolding uart_rx
uart_rx-overflow len room timeout_ms slots u over byte_len v waits turns few =
    receive-overflow len room (cnt_threshold timeout_ms) over byte_len slots 0 []
      (record u { mcu = timer_16bit_start 256 u.mcu }) (omega arith) (omega arith) (omega arith) v
      few
