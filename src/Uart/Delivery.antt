-- ===== src/Uart/Delivery.antt =====
-- `uart_tx` succeeds where the other side takes every byte in time.
use esloq.Base.{
  ℕ, zero, suc, ◌+◌, ◌%◌, ◌≤◌, ◌≡◌, refl, List, [], ◌∷◌, ◌++◌, Bool, true, false, ◌||◌, ◌&&◌, not,
  leb, ok, length, arith, Bool-cases, inl, inr, get_elem?-in,
}
use esloq.Mcu.{Mcu, SamePorts, SamePorts-trans}
use esloq.Timer.{timer_16bit_start, timer_16bit_stop}
use esloq.Uart.{
  Uart, Window, SendPoll, sent, wait_clear, send_byte, send_bytes, uart_tx, cnt_threshold, arrive,
}
use esloq.Uart.Progress.{emptied, wait_empty-returns}

-- A poll finds the other side clear to send, and none before it the timer at the threshold.
abbrev pub clears : ℕ → List SendPoll → Bool
clears threshold [] = false
clears threshold (p ∷ ps) = p.clear || (not (leb threshold p.timer) && clears threshold ps)

-- Every byte is taken in time, and the transmit register becomes empty.
abbrev pub all_clear : ℕ → List Window → Bool
all_clear threshold [] = true
all_clear threshold (w ∷ ws) =
    clears threshold w.polls && (emptied w.empty && all_clear threshold ws)

wait_clear-sent :
    (threshold : ℕ) (ps : List SendPoll) (mcu : Mcu)
    → clears threshold ps ≡ true
    → (mcu' : Mcu) × (wait_clear threshold ps mcu ≡ ok (sent, mcu')) × SamePorts mcu mcu'
unfolding wait_clear
wait_clear-sent threshold [] mcu h = cc
wait_clear-sent threshold (p ∷ ps) mcu h = elim (Bool-cases p.clear) [
  | inl clear ↦ (record mcu { tcnt1 = p.timer }, rw clear, (refl, refl, refl))
  | inr busy ↦ elim (Bool-cases (leb threshold p.timer)) [
    | inl late ↦ let impossible : false ≡ true = rw (busy, late) at h in cc
    | inr early ↦
        let (mcu', e, same) =
          wait_clear-sent threshold ps (record mcu { tcnt1 = p.timer }) (rw (busy, early) at h) in
        (mcu', rw (busy, early) e, same)
  ]
]

send_byte-sent :
    (byte timeout_ms : ℕ) (w : Window) (u : Uart)
    → clears (cnt_threshold timeout_ms) w.polls ≡ true
    → emptied w.empty ≡ true
    → (u' : Uart) × (send_byte byte timeout_ms w u ≡ ok (sent, u')) × SamePorts u.mcu u'.mcu
unfolding send_byte timer_16bit_start timer_16bit_stop
send_byte-sent byte timeout_ms w u clear empty =
    let (mcu', e, same) =
      wait_clear-sent (cnt_threshold timeout_ms) w.polls (timer_16bit_start 256 u.mcu) clear in
    (
      record u {
        mcu = timer_16bit_stop mcu';
        rx = arrive w.arrivals u.rx;
        wire = u.wire ++ (byte ∷ []);
      },
      rw (e, wait_empty-returns w.empty empty, send_byte),
      same,
    )

module _ (timeout_ms : ℕ) (array : List ℕ) where
  send_bytes-sent :
      (left i : ℕ) (ws : List Window) (u : Uart)
      → left ≤ length ws
      → i + left ≤ length array
      → all_clear (cnt_threshold timeout_ms) ws ≡ true
      → (rest : List Window) × (u' : Uart) × (send_bytes left i array timeout_ms ws u
          ≡ ok (sent, rest, u'))
        × SamePorts u.mcu u'.mcu
        × (all_clear (cnt_threshold timeout_ms) rest ≡ true)
        × (length ws ≡ length rest + left)
  unfolding send_bytes
  send_bytes-sent zero i ws u enough room h = (ws, u, refl, (refl, refl, refl), h, omega arith)
  send_bytes-sent (suc left) i [] u enough room h = absurd (omega arith)
  send_bytes-sent (suc left) i (w ∷ ws) u enough room h =
      let (byte, at) = get_elem?-in array i (omega arith) in
      let (u1, e, same1) = send_byte-sent byte timeout_ms w u (ground arith) (ground arith) in
      let (rest, u', e', same', h', used) =
        send_bytes-sent left (i + 1) ws u1 (omega arith) (omega arith) (ground arith) in
      (
        rest,
        u',
        rw (at, e, send_bytes) e',
        SamePorts-trans u.mcu u1.mcu u'.mcu same1 same',
        h',
        omega arith,
      )

-- `uart_tx` succeeds if for each byte the other side becomes clear to send before the timer reaches
-- the threshold, and the transmit register becomes empty; the ports of the motor stay.
pub uart_tx-sent :
    (len1 : ℕ) (data1 : List ℕ) (len2 : ℕ) (data2 : List ℕ) (timeout_ms : ℕ) (w : Window)
    (ws : List Window) (u : Uart)
    → len1 ≤ length data1
    → len2 ≤ length data2
    → len1 + len2 ≤ length ws
    → all_clear (cnt_threshold timeout_ms) (w ∷ ws) ≡ true
    → (rest : List Window) × (u' : Uart) × (uart_tx len1 data1 len2 data2 timeout_ms (w ∷ ws) u
        ≡ ok (sent, rest, u'))
      × SamePorts u.mcu u'.mcu
unfolding uart_tx
uart_tx-sent len1 data1 len2 data2 timeout_ms w ws u room1 room2 enough h =
    let (u0, e0, same0) =
      send_byte-sent ((len1 + len2) % 256) timeout_ms w u (ground arith) (ground arith) in
    let (rest, u1, e1, same1, h1, used) =
      send_bytes-sent timeout_ms data1 len1 0 ws u0 (omega arith) (omega arith) (ground arith) in
    let (rest', u2, e2, same2, _, _) =
      send_bytes-sent timeout_ms data2 len2 0 rest u1 (omega arith) (omega arith) h1 in
    (
      rest',
      u2,
      rw (e0, e1, uart_tx) e2,
      SamePorts-trans u.mcu u0.mcu u2.mcu same0 (SamePorts-trans u0.mcu u1.mcu u2.mcu same1 same2),
    )
