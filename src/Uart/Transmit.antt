-- ===== src/Uart/Transmit.antt =====
-- `uart_tx`: what is on the wire when it returns.
use esloq.Base.{
  ℕ, zero, suc, ◌+◌, ◌%◌, ◌≤◌, ◌<◌, ◌≡◌, refl, sym, ◌∙◌, ap, ap₂, List, [], ◌∷◌, ◌++◌, length,
  arith, append_assoc, append-nil, take, drop, get_elem?, ok, ok-injective, returned,
  in_bounds-eq-ok, drop-get_elem?, subst, in_bounds,
}
use esloq.Uart.{Uart, Window, TxStatus, sent, timed_out, send_byte, send_bytes, uart_tx}

-- The byte as far as it was sent.
abbrev pub put : TxStatus → ℕ → List ℕ
put sent byte = byte ∷ []
put timed_out byte = []

send_byte-wire :
    (byte timeout_ms : ℕ) (w : Window) (u : Uart) (r : TxStatus × Uart)
    → send_byte byte timeout_ms w u ≡ ok r
    → r.1.wire ≡ u.wire ++ put r.0 byte
unfolding send_byte
send_byte-wire byte timeout_ms w u r e = ground (arith, append-nil u.wire)

-- What a loop puts on the wire: all of its part of the array, or a proper prefix of it.
abbrev pub Puts : ℕ → List ℕ → List ℕ → TxStatus → List ℕ → Type 0
Puts left part before sent after = (after ≡ before ++ take left part) × (left ≤ length part)
Puts left part before timed_out after =
    (k : ℕ) × (k < left) × (after ≡ before ++ take k part) × (k < length part)

Puts-cons :
    (left byte : ℕ) (tail before : List ℕ) (status : TxStatus) (after : List ℕ)
    → Puts left tail (before ++ (byte ∷ [])) status after
    → Puts (suc left) (byte ∷ tail) before status after
Puts-cons left byte tail before sent after (e, le) =
    (e ∙ append_assoc before (byte ∷ []) (take left tail), omega arith)
Puts-cons left byte tail before timed_out after (k, lt, e, le) =
    (suc k, omega arith, e ∙ append_assoc before (byte ∷ []) (take k tail), omega arith)

-- One byte in front of a loop.
Puts-step :
    (left i byte : ℕ) (array : List ℕ) (timeout_ms : ℕ) (ws : List Window) (u u1 : Uart)
    (status : TxStatus) (r : TxStatus × List Window × Uart)
    → u1.wire ≡ u.wire ++ put status byte
    → (elim status [
      | timed_out ↦ ok (timed_out, ws, u1)
      | sent ↦ send_bytes left (i + 1) array timeout_ms ws u1
    ])
      ≡ ok r
    → (send_bytes left (i + 1) array timeout_ms ws u1 ≡ ok r
        → Puts left (drop (i + 1) array) u1.wire r.0 r.2.wire)
    → Puts (suc left) (byte ∷ drop (i + 1) array) u.wire r.0 r.2.wire
Puts-step left i byte array timeout_ms ws u u1 sent r w e rest =
    Puts-cons left byte (drop (i + 1) array) u.wire r.0 r.2.wire
      (subst (λ b. Puts left (drop (i + 1) array) b r.0 r.2.wire) w (rest e))
Puts-step left i byte array timeout_ms ws u u1 timed_out r w e rest =
    subst
      (λ (q : TxStatus × List Window × Uart).
        Puts (suc left) (byte ∷ drop (i + 1) array) u.wire q.0 q.2.wire)
      (ok-injective e) (0, omega arith, w, omega arith)

send_bytes-Puts :
    (left i : ℕ) (array : List ℕ) (timeout_ms : ℕ) (ws : List Window) (u : Uart)
    (r : TxStatus × List Window × Uart)
    → send_bytes left i array timeout_ms ws u ≡ ok r
    → Puts left (drop i array) u.wire r.0 r.2.wire
unfolding send_bytes
send_bytes-Puts zero i array timeout_ms ws u r e =
    subst (λ (q : TxStatus × List Window × Uart). Puts 0 (drop i array) u.wire q.0 q.2.wire)
      (ok-injective e) (sym (append-nil u.wire), omega arith)
send_bytes-Puts (suc left) i array timeout_ms [] u r e = cc
send_bytes-Puts (suc left) i array timeout_ms (w ∷ ws) u r e =
    let (byte, at, e1) = returned (in_bounds (get_elem? array i)) _ (sym e) in
    let (q, sends, e2) = returned (send_byte byte timeout_ms w u) _ (sym e1) in
    rw (drop-get_elem? array i (in_bounds-eq-ok _ (sym at))) (
      Puts-step left i byte array timeout_ms ws u q.1 q.0 r
        (send_byte-wire byte timeout_ms w u q (sym sends)) e2
        (send_bytes-Puts left (i + 1) array timeout_ms ws q.1 r))

-- What a call of `uart_tx` has put on the wire: the total length if it was sent, then all the data,
-- or a proper prefix of it on a timeout.
abbrev pub Frames : ℕ → List ℕ → ℕ → List ℕ → TxStatus → TxStatus → List ℕ → List ℕ → Type 0
Frames len1 data1 len2 data2 head sent before after =
    after ≡ before ++ (put head ((len1 + len2) % 256) ++ (take len1 data1 ++ take len2 data2))
Frames len1 data1 len2 data2 head timed_out before after =
    (k : ℕ) × (k < len1 + len2)
    × (after
        ≡ before ++ (put head ((len1 + len2) % 256) ++ take k (take len1 data1 ++ take len2 data2)))

take-take_append :
    (k n : ℕ) (xs ys : List ℕ) → k ≤ n → k ≤ length xs → take k (take n xs ++ ys) ≡ take k xs
take-take_append zero n xs ys le lx = refl
take-take_append (suc k) zero xs ys le lx = absurd (omega arith)
take-take_append (suc k) (suc n) [] ys le lx = absurd (omega arith)
take-take_append (suc k) (suc n) (x ∷ xs) ys le lx =
    ap (λ l. x ∷ l) (take-take_append k n xs ys (omega arith) (omega arith))

take-add_append :
    (n k : ℕ) (xs ys : List ℕ)
    → n ≤ length xs
    → take (n + k) (take n xs ++ ys) ≡ take n xs ++ take k ys
take-add_append zero k xs ys le = ap (λ m. take m ys) (omega arith)
take-add_append (suc n) k [] ys le = absurd (omega arith)
take-add_append (suc n) k (x ∷ xs) ys le =
    ap (λ m. take m (x ∷ (take n xs ++ ys))) {y = suc (n + k)} (omega arith)
    ∙ ap (λ l. x ∷ l) (take-add_append n k xs ys (omega arith))

-- The second loop after a first that is done.
Frames-second :
    (len1 : ℕ) (data1 : List ℕ) (len2 : ℕ) (data2 : List ℕ) (head status : TxStatus)
    (before wire0 wire1 after : List ℕ)
    → wire0 ≡ before ++ put head ((len1 + len2) % 256)
    → Puts len1 data1 wire0 sent wire1
    → Puts len2 data2 wire1 status after
    → Frames len1 data1 len2 data2 head status before after
Frames-second len1 data1 len2 data2 head sent before wire0 wire1 after e0 (e1, l1) (e2, l2) =
    e2 ∙ ap (λ l. l ++ take len2 data2) (e1 ∙ ap (λ l. l ++ take len1 data1) e0) ∙ simp append_assoc
Frames-second len1 data1 len2 data2 head timed_out before wire0 wire1 after e0 (e1, l1)
      (k, lt, e2, l2) =
    (
      len1 + k,
      omega arith,
      e2
          ∙ ap₂ ◌++◌ (e1 ∙ ap (λ l. l ++ take len1 data1) e0) (
              sym (take-take_append k len2 data2 [] (omega arith) (omega arith))
              ∙ ap (take k) (append-nil (take len2 data2)))
          ∙ simp append_assoc (
              ap (λ l. before ++ (put head ((len1 + len2) % 256) ++ l))
                (sym (take-add_append len1 k data1 (take len2 data2) l1))),
    )

Frames-step :
    (len1 : ℕ) (data1 : List ℕ) (len2 : ℕ) (data2 : List ℕ) (timeout_ms : ℕ) (ws1 : List Window)
    (u1 : Uart) (head status : TxStatus) (before wire0 : List ℕ) (r : TxStatus × List Window × Uart)
    → wire0 ≡ before ++ put head ((len1 + len2) % 256)
    → Puts len1 data1 wire0 status u1.wire
    → (elim status [
      | timed_out ↦ ok (timed_out, ws1, u1)
      | sent ↦ send_bytes len2 0 data2 timeout_ms ws1 u1
    ])
      ≡ ok r
    → Frames len1 data1 len2 data2 head r.0 before r.2.wire
Frames-step len1 data1 len2 data2 timeout_ms ws1 u1 head sent before wire0 r e0 p e =
    Frames-second len1 data1 len2 data2 head r.0 before wire0 u1.wire r.2.wire e0 p
      (send_bytes-Puts len2 0 data2 timeout_ms ws1 u1 r e)
Frames-step len1 data1 len2 data2 timeout_ms ws1 u1 head timed_out before wire0 r e0 (k, lt, e1, l1)
      e =
    subst
      (λ (q : TxStatus × List Window × Uart). Frames len1 data1 len2 data2 head q.0 before q.2.wire)
      (ok-injective e)
      (
        k,
        omega arith,
        e1
            ∙ ap₂ ◌++◌ e0
                (sym (take-take_append k len1 data1 (take len2 data2) (omega arith) (omega arith)))
            ∙ append_assoc before (put head ((len1 + len2) % 256)) _,
      )

-- When `uart_tx` returns, the wire has the total length (cut to a byte), `data1` and `data2` after
-- what it had, all of the data on 0 and a proper prefix of it on -1. The length byte is missing if
-- its own `send_byte` timed out: the status of that call is not looked at, so 0 may be returned for
-- a packet without its length.
pub uart_tx-Frames :
    (len1 : ℕ) (data1 : List ℕ) (len2 : ℕ) (data2 : List ℕ) (timeout_ms : ℕ) (w : Window)
    (ws : List Window) (u : Uart) (r : TxStatus × List Window × Uart)
    → uart_tx len1 data1 len2 data2 timeout_ms (w ∷ ws) u ≡ ok r
    → (head : TxStatus) × (u0 : Uart) × (send_byte ((len1 + len2) % 256) timeout_ms w u
        ≡ ok (head, u0))
      × Frames len1 data1 len2 data2 head r.0 u.wire r.2.wire
unfolding uart_tx
uart_tx-Frames len1 data1 len2 data2 timeout_ms w ws u r e =
    let (q, sends, e1) = returned (send_byte ((len1 + len2) % 256) timeout_ms w u) _ (sym e) in
    let (r1, first, e2) = returned (send_bytes len1 0 data1 timeout_ms ws q.1) _ (sym e1) in
    (
      q.0,
      q.1,
      sym sends,
      Frames-step len1 data1 len2 data2 timeout_ms r1.1 r1.2 q.0 r1.0 u.wire q.1.wire r
          (send_byte-wire ((len1 + len2) % 256) timeout_ms w u q (sym sends))
          (send_bytes-Puts len1 0 data1 timeout_ms ws q.1 r1 (sym first)) e2,
    )
