-- ===== src/Uart/Progress.antt =====
-- `uart_tx` returns.
use esloq.Base.{
  ℕ, zero, suc, ◌+◌, ◌%◌, ◌≤◌, ◌≡◌, refl, List, [], ◌∷◌, ◌++◌, Bool, true, false, ◌||◌, ◌&&◌, leb,
  ok, get_elem?, get_elem?-in, length, some, arith, Bool-cases, inl, inr,
}
use esloq.Mcu.{Mcu}
use esloq.Timer.{timer_16bit_start, timer_16bit_stop}
use esloq.Uart.{
  Uart, Window, SendPoll, TxStatus, sent, timed_out, wait_clear, wait_empty, send_byte, send_bytes,
  uart_tx, cnt_threshold, arrive,
}

-- A poll that finds the other side clear to send, or the timer at the threshold.
abbrev pub answered : ℕ → List SendPoll → Bool
answered threshold [] = false
answered threshold (p ∷ ps) = p.clear || (leb threshold p.timer || answered threshold ps)

abbrev pub emptied : List Bool → Bool
emptied [] = false
emptied (e ∷ es) = e || emptied es

-- Each byte meets such a poll, and an empty transmit register.
abbrev pub all_answered : ℕ → List Window → Bool
all_answered threshold [] = true
all_answered threshold (w ∷ ws) =
    answered threshold w.polls && (emptied w.empty && all_answered threshold ws)

wait_clear-returns :
    (threshold : ℕ) (ps : List SendPoll) (mcu : Mcu)
    → answered threshold ps ≡ true
    → (r : TxStatus × Mcu) × (wait_clear threshold ps mcu ≡ ok r)
unfolding wait_clear
wait_clear-returns threshold [] mcu h = cc
wait_clear-returns threshold (p ∷ ps) mcu h = elim (Bool-cases p.clear) [
  | inl clear ↦ ((sent, record mcu { tcnt1 = p.timer }), rw clear)
  | inr busy ↦ elim (Bool-cases (leb threshold p.timer)) [
    | inl late ↦ ((timed_out, record mcu { tcnt1 = p.timer }), rw (busy, late))
    | inr early ↦
        let (r, e) =
          wait_clear-returns threshold ps (record mcu { tcnt1 = p.timer })
            (rw (busy, early) at h) in
        (r, rw (busy, early) e)
  ]
]

pub wait_empty-returns : (es : List Bool) → emptied es ≡ true → wait_empty es ≡ ok sent
unfolding wait_empty
wait_empty-returns [] h = cc
wait_empty-returns (true ∷ es) h = refl
wait_empty-returns (false ∷ es) h = wait_empty-returns es h

send_byte-returns :
    (byte timeout_ms : ℕ) (w : Window) (u : Uart)
    → answered (cnt_threshold timeout_ms) w.polls ≡ true
    → emptied w.empty ≡ true
    → (r : TxStatus × Uart) × (send_byte byte timeout_ms w u ≡ ok r)
unfolding send_byte
send_byte-returns byte timeout_ms w u clear empty =
    let (cleared, e) =
      wait_clear-returns (cnt_threshold timeout_ms) w.polls (timer_16bit_start 256 u.mcu) clear in
    by_status cleared.0 cleared.1 e
  where
    by_status :
        (status : TxStatus) (mcu' : Mcu)
        → wait_clear (cnt_threshold timeout_ms) w.polls (timer_16bit_start 256 u.mcu)
          ≡ ok (status, mcu')
        → (r : TxStatus × Uart) × (send_byte byte timeout_ms w u ≡ ok r)
    by_status timed_out mcu' e = (
      (timed_out, record u { mcu = timer_16bit_stop mcu'; rx = arrive w.arrivals u.rx }),
      rw (e, send_byte),
    )
    by_status sent mcu' e = (
      (
        sent,
        record u {
          mcu = timer_16bit_stop mcu';
          rx = arrive w.arrivals u.rx;
          wire = u.wire ++ (byte ∷ []);
        },
      ),
      rw (e, wait_empty-returns w.empty empty, send_byte),
    )

module _ (timeout_ms : ℕ) (array : List ℕ) where
  abbrev threshold : ℕ
  threshold = cnt_threshold timeout_ms

  send_bytes-returns :
      (left i : ℕ) (ws : List Window) (u : Uart)
      → left ≤ length ws
      → i + left ≤ length array
      → all_answered threshold ws ≡ true
      → (r : TxStatus × List Window × Uart) × (send_bytes left i array timeout_ms ws u ≡ ok r)
        × (all_answered threshold r.1 ≡ true)
        × (length ws ≤ length r.1 + left)
  unfolding send_bytes
  send_bytes-returns zero i ws u enough room h = ((sent, ws, u), refl, h, omega arith)
  send_bytes-returns (suc left) i [] u enough room h = absurd (omega arith)
  send_bytes-returns (suc left) i (w ∷ ws) u enough room h =
      let (byte, at) = get_elem?-in array i (omega arith) in
      let (q, e) = send_byte-returns byte timeout_ms w u (ground arith) (ground arith) in
      let later =
        send_bytes-returns left (i + 1) ws q.1 (omega arith) (omega arith) (ground arith) in
      by_status byte at q.0 q.1 e later
    where
      by_status :
          (byte : ℕ) (at : get_elem? array i ≡ some byte) (status : TxStatus) (u' : Uart)
          → send_byte byte timeout_ms w u ≡ ok (status, u')
          → (r : TxStatus × List Window × Uart) × (send_bytes left (i + 1) array timeout_ms ws u'
              ≡ ok r)
            × (all_answered threshold r.1 ≡ true)
            × (length ws ≤ length r.1 + left)
          → (r : TxStatus × List Window × Uart) × (send_bytes
                (suc left)
                i
                array
                timeout_ms
                (w ∷ ws)
                u
              ≡ ok r)
            × (all_answered threshold r.1 ≡ true)
            × (length (w ∷ ws) ≤ length r.1 + suc left)
      by_status byte at timed_out u' e later =
          ((timed_out, ws, u'), rw (at, e, send_bytes), ground arith, omega arith)
      by_status byte at sent u' e later =
          let (r, e', h', enough') = later in (r, rw (at, e, send_bytes) e', h', omega arith)

-- `uart_tx` returns, on success and on a timeout alike, if there is a poll for each byte at which the
-- other side is clear to send or the timer has reached its threshold, and the transmit register
-- becomes empty.
pub uart_tx-returns :
    (len1 : ℕ) (data1 : List ℕ) (len2 : ℕ) (data2 : List ℕ) (timeout_ms : ℕ) (w : Window)
    (ws : List Window) (u : Uart)
    → len1 ≤ length data1
    → len2 ≤ length data2
    → len1 + len2 ≤ length ws
    → all_answered (cnt_threshold timeout_ms) (w ∷ ws) ≡ true
    → (r : TxStatus × List Window × Uart) × (uart_tx len1 data1 len2 data2 timeout_ms (w ∷ ws) u
        ≡ ok r)
unfolding uart_tx
uart_tx-returns len1 data1 len2 data2 timeout_ms w ws u room1 room2 enough h =
    let (q, e) =
      send_byte-returns ((len1 + len2) % 256) timeout_ms w u (ground arith) (ground arith) in
    let (r1, e1, h1, left_over) =
      send_bytes-returns timeout_ms data1 len1 0 ws q.1 (omega arith) (omega arith)
        (ground arith) in
    by_status q.0 q.1 e r1.0 r1.1 r1.2 e1 h1 left_over
  where
    by_status :
        (head : TxStatus) (u0 : Uart)
        → send_byte ((len1 + len2) % 256) timeout_ms w u ≡ ok (head, u0)
        → (status : TxStatus) (rest : List Window) (u1 : Uart)
        → send_bytes len1 0 data1 timeout_ms ws u0 ≡ ok (status, rest, u1)
        → all_answered (cnt_threshold timeout_ms) rest ≡ true
        → length ws ≤ length rest + len1
        → (r : TxStatus × List Window × Uart) × (uart_tx len1 data1 len2 data2 timeout_ms (w ∷ ws) u
            ≡ ok r)
    by_status head u0 e timed_out rest u1 e1 h1 left_over =
        ((timed_out, rest, u1), rw (e, e1, uart_tx))
    by_status head u0 e sent rest u1 e1 h1 left_over =
        let (r, e2, _, _) =
          send_bytes-returns timeout_ms data2 len2 0 rest u1 (omega arith) (omega arith) h1 in
        (r, rw (e, e1, uart_tx) e2)
