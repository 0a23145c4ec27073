-- ===== src/Lock/Loop/Overflow.antt =====
-- A payload that does not fit the buffer of `ble_process_packet`.
use esloq.Base.{
  ℕ, zero, suc, take, ◌+◌, ◌≤◌, ◌<◌, ◌≡◌, refl, subst, ◌∙◌, ap, List, [], ◌∷◌, ◌++◌, length, arith,
  length-append, ok, halted, out_of_bounds, get_elem?, some, ◌==◌, false,
}
use esloq.Uart.{Uart, Slot, RxStatus, received, no_data, incomplete, cnt_threshold, uart_rx}
use esloq.Uart.Overflow.{uart_rx-overflow}
use esloq.Uart.Queue.{contents, length-contents, IsValid}
use esloq.Uart.Receive.{Receives, arrived, late_turns, uart_rx-Receives}
use esloq.Lock.Loop.{
  LoopInputs, after_payload, max_payload, receive_into, receive_payload, after_header,
  ble_process_packet,
}
use esloq.Lock.Monad.{>>=-ok, >>=-halted}
use esloq.Lock.Send.{uart_timeout}
use esloq.Lock.State.{Machine, BgLib}

length-arrived-take :
    (n : ℕ) (slots : List Slot) → length (arrived (take n slots)) ≤ length (arrived slots)
length-arrived-take zero slots = omega arith
length-arrived-take (suc n) [] = omega arith
length-arrived-take (suc n) (s ∷ ss) = omega (
  arith,
  length-arrived-take n ss,
  length-append s.arrivals (arrived (take n ss)),
  length-append s.arrivals (arrived ss),
)

second_lem :
    (xs ys zs : List ℕ) (a b : ℕ) → 2 ≤ length xs → xs ++ ys ≡ a ∷ b ∷ zs → get_elem? xs 1 ≡ some b
second_lem [] ys zs a b many e = absurd (omega arith)
second_lem (x ∷ []) ys zs a b many e = absurd (omega arith)
second_lem (x ∷ y ∷ xs) ys zs a b many e = ap (λ l. get_elem? l 1) e

-- A header that is taken from a queue with more than enough bytes.
abbrev Leaves : List ℕ → ℕ → List Slot → RxStatus × List ℕ × Uart → Type 0
Leaves rest lolen slots result =
    (result.0 ≡ received)
    × (get_elem? result.1 1 ≡ some lolen)
    × (max_payload < result.2.rx.rxbuffer_size)
    × (result.2.rx.rxbuffer_size + 2 ≤ length rest + length (arrived slots))

balance :
    (n0 lolen : ℕ) (rest : List ℕ) (slots : List Slot) (result : RxStatus × List ℕ × Uart)
    → (r : Receives 4 slots [] (n0 ∷ lolen ∷ rest) result)
    → length result.1 + length (contents result.2.rx)
      ≡ 2 + length rest + length (arrived (take r.turns slots))
balance n0 lolen rest slots result r = omega (
  arith,
  ap length r.conserved,
  length-append result.1 (contents result.2.rx),
  length-append rest (arrived (take r.turns slots)),
)

header_lem :
    (n0 lolen : ℕ) (rest : List ℕ) (slots : List Slot) (result : RxStatus × List ℕ × Uart)
    → max_payload + 2 < length rest
    → Receives 4 slots [] (n0 ∷ lolen ∷ rest) result
    → Leaves rest lolen slots result
header_lem n0 lolen rest slots (received, bytes, u) many r =
    let size = length-contents u.rx in
    let counts = balance n0 lolen rest slots (received, bytes, u) r in
    (
      refl,
      second_lem bytes (contents u.rx) (rest ++ arrived (take r.turns slots)) n0 lolen
          (omega (arith, r.ends)) r.conserved,
      omega (arith, r.ends),
      omega (arith, r.ends, length-arrived-take r.turns slots),
    )
header_lem n0 lolen rest slots (no_data, bytes, u) many r = absurd (
    omega (
      arith,
      balance n0 lolen rest slots (no_data, bytes, u) r,
      ap length r.ends.0,
      ap length r.ends.1,
    ))
header_lem n0 lolen rest slots (incomplete, bytes, u) many r = absurd (
    omega
      (arith, balance n0 lolen rest slots (incomplete, bytes, u) r, r.ends.1, ap length r.ends.2))

receive_into-ok :
    (len room : ℕ) (slots : List Slot) (m : Machine) {status : RxStatus} {bytes : List ℕ} {u : Uart}
    → uart_rx len room uart_timeout slots m.uart ≡ ok (status, bytes, u)
    → receive_into len room slots m ≡ (record m { uart = u }, ok (status, bytes))
unfolding receive_into
receive_into-ok len room slots m e = rw (e, receive_into)

receive_into-overflow :
    (len room : ℕ) (slots : List Slot) (m : Machine)
    → uart_rx len room uart_timeout slots m.uart ≡ halted out_of_bounds
    → receive_into len room slots m ≡ (m, halted out_of_bounds)
unfolding receive_into
receive_into-overflow len room slots m e = rw (e, receive_into)

-- From a header on.
after_header-overflow :
    (bg : BgLib) (inputs : LoopInputs) (status : RxStatus) (hdr : List ℕ) (lolen : ℕ) (m : Machine)
    → status ≡ received
    → get_elem? hdr 1 ≡ some lolen
    → (lolen == 0) ≡ false
    → uart_rx lolen max_payload uart_timeout inputs.body_slots m.uart ≡ halted out_of_bounds
    → after_header bg inputs (status, hdr) m ≡ (m, halted out_of_bounds)
unfolding after_header receive_payload
after_header-overflow bg inputs status hdr lolen m has_come announces nonzero overflows =
    rw (has_come, announces, nonzero)
      (>>=-halted (receive_into lolen max_payload inputs.body_slots) (after_payload bg inputs hdr)
        (receive_into-overflow lolen max_payload inputs.body_slots m overflows))

-- A header whose second byte announces more than `MAX_PAYLOAD` bytes, up to 255, makes
-- `ble_process_packet` write past the end of `data`, where the buffer of the UART is consistent and
-- holds more bytes already than the header and `data` do, fewer than 256 are to wait at once, the
-- timer is late on four turns of the first `uart_rx`, and the second has more than 60 turns.
pub ble_process_packet-overflow :
    (bg : BgLib) (inputs : LoopInputs) (n0 lolen : ℕ) (rest : List ℕ) (m : Machine)
    → IsValid m.uart.rx
    → contents m.uart.rx ≡ n0 ∷ lolen ∷ rest
    → max_payload < lolen
    → lolen < 256
    → max_payload + 2 < length rest
    → m.uart.rx.rxbuffer_size
        + length (arrived inputs.header_slots)
        + length (arrived inputs.body_slots)
      < 256
    → 4 ≤ late_turns (cnt_threshold uart_timeout) inputs.header_slots
    → max_payload < length inputs.body_slots
    → (u : Uart) × (ble_process_packet bg inputs m ≡ (record m { uart = u }, halted out_of_bounds))
unfolding ble_process_packet
ble_process_packet-overflow bg inputs n0 lolen rest m v waiting over byte_len many few late turns =
    let ((status, hdr, u), returns, receives) =
      uart_rx-Receives 4 4 uart_timeout inputs.header_slots m.uart (omega arith) (omega arith) v
        (omega arith) late in
    let (ok_status, announces, enough, most) =
      header_lem n0 lolen rest inputs.header_slots (status, hdr, u) many
        (subst (λ q. Receives 4 inputs.header_slots [] q (status, hdr, u)) waiting receives) in
    let total : m.uart.rx.rxbuffer_size ≡ 2 + length rest =
      omega (arith, ap length waiting, length-contents m.uart.rx) in
    let overflows =
      uart_rx-overflow lolen max_payload uart_timeout inputs.body_slots u over byte_len
        receives.valid enough turns (omega arith) in
    let nonzero : (lolen == 0) ≡ false = ground arith in
    (
      u,
      >>=-ok (receive_into 4 4 inputs.header_slots) (after_header bg inputs)
            (receive_into-ok 4 4 inputs.header_slots m returns)
          ∙ after_header-overflow bg inputs status hdr lolen (record m { uart = u }) ok_status
              announces nonzero overflows,
    )
