-- ===== src/Uart/Receive.antt =====
-- `uart_rx`: what it returns, byte for byte.
use esloq.Base.{
  ℕ, suc, ◌+◌, ◌%◌, ◌≤◌, ◌<◌, ◌≡◌, refl, sym, ◌∙◌, ap, List, [], ◌∷◌, ◌++◌, length, arith,
  append_assoc, append-nil, length-append, take, true, false, Bool-cases, inl, inr, Outcome, ok,
  halted, waiting, out_of_bounds, soft_reset, ltb, leb, ◌==◌, if◌then◌else◌, subst,
}
use esloq.Timer.{timer_16bit_reset, timer_16bit_start}
use esloq.Uart.{
  RxBuffer, Uart, Slot, RxStatus, received, no_data, incomplete, turn, stop_timer, arrive,
  take_byte, receive, uart_rx, cnt_threshold,
}
use esloq.Uart.Queue.{contents, length-contents, IsValid, arrive_refines, take_byte_refines}

-- All that arrives during some turns.
abbrev pub arrived : List Slot → List ℕ
arrived [] = []
arrived (s ∷ ss) = s.arrivals ++ arrived ss

-- How a return code, the bytes returned and the bytes still waiting belong together.
abbrev pub Ends : ℕ → RxStatus → List ℕ → List ℕ → Type 0
Ends len received out rest = length out ≡ len
Ends len no_data out rest = (out ≡ []) × (rest ≡ []) × (0 < len)
Ends len incomplete out rest = (0 < length out) × (length out < len) × (rest ≡ [])

-- What a return says, for a call that had `bytes` already and found `queue` waiting.
pub record Receives (len : ℕ) (ss : List Slot) (bytes queue : List ℕ)
    (result : RxStatus × List ℕ × Uart) : Type 0 where
  pub turns : ℕ
  pub conserved : result.1 ++ contents result.2.rx ≡ bytes ++ (queue ++ arrived (take turns ss))
  pub ends : Ends len result.0 result.1 (contents result.2.rx)
  pub valid : IsValid result.2.rx

-- The call returns so, or waits for more turns; it does not leave its buffers.
abbrev pub Returns : ℕ → List Slot → List ℕ → List ℕ → Outcome (RxStatus × List ℕ × Uart) → Type 0
Returns len ss bytes queue (ok result) = Receives len ss bytes queue result
Returns len ss bytes queue (halted waiting) = Unit {0}
Returns len ss bytes queue (halted out_of_bounds) = ⊥
Returns len ss bytes queue (halted soft_reset) = ⊥

nothing_waits : (rx : RxBuffer) → (rx.rxbuffer_size == 0) ≡ true → contents rx ≡ []
nothing_waits rx e = ap (λ n. contents (record rx { rxbuffer_size = n })) {y = 0} (ground arith)

suc_==_zero : (n : ℕ) → (suc n == 0) ≡ false
suc_==_zero n = ground arith

-- One turn more in front of a call.
Returns-step :
    (len : ℕ) (s : Slot) (ss : List Slot) (bytes bytes' queue queue' : List ℕ)
    (o : Outcome (RxStatus × List ℕ × Uart))
    → bytes' ++ queue' ≡ bytes ++ (queue ++ s.arrivals)
    → Returns len ss bytes' queue' o
    → Returns len (s ∷ ss) bytes queue o
Returns-step len s ss bytes bytes' queue queue' (ok result) e r = record {
  turns = suc r.turns;
  conserved =
      r.conserved
      ∙ sym (append_assoc bytes' queue' (arrived (take r.turns ss)))
      ∙ ap (λ l. l ++ arrived (take r.turns ss)) e
      ∙ simp append_assoc;
  ends = r.ends;
  valid = r.valid;
}
Returns-step len s ss bytes bytes' queue queue' (halted waiting) e r = r
Returns-step len s ss bytes bytes' queue queue' (halted out_of_bounds) e r = r
Returns-step len s ss bytes bytes' queue queue' (halted soft_reset) e r = r

-- A return before any further turn.
Receives-full :
    (len : ℕ) (ss : List Slot) (bytes : List ℕ) (u : Uart)
    → length bytes ≡ len
    → IsValid u.rx
    → Receives len ss bytes (contents u.rx) (received, bytes, stop_timer u)
Receives-full len ss bytes u full v = record {
  turns = 0;
  conserved = ap (λ l. bytes ++ l) (sym (append-nil (contents u.rx)));
  ends = full;
  valid = v;
}

Receives-timeout :
    (len : ℕ) (s : Slot) (ss : List Slot) (bytes queue : List ℕ) (u : Uart)
    → length bytes < len
    → IsValid u.rx
    → contents u.rx ≡ []
    → contents u.rx ≡ queue ++ s.arrivals
    → Receives len
        (s ∷ ss)
        bytes
        queue
        ((if length bytes == 0 then no_data else incomplete), bytes, stop_timer u)
Receives-timeout len s ss [] queue u lt v empty e = record {
  turns = 1;
  conserved = e ∙ simp append-nil;
  ends = (refl, empty, lt);
  valid = v;
}
Receives-timeout len s ss (b ∷ bs) queue u lt v empty e = record {
  turns = 1;
  conserved = ap (λ l. (b ∷ bs) ++ l) (e ∙ simp append-nil);
  ends = rw (suc_==_zero (length bs)) (omega arith, lt, empty);
  valid = v;
}

module _ (len room threshold : ℕ) (fits : len ≤ room) (byte_len : len < 256) where
  receive-Returns :
      (ss : List Slot) (i : ℕ) (bytes : List ℕ) (u : Uart)
      → i ≡ length bytes
      → length bytes ≤ len
      → IsValid u.rx
      → u.rx.rxbuffer_size + length (arrived ss) < 256
      → Returns len ss bytes (contents u.rx) (receive len room threshold ss i bytes u)
  unfolding receive
  receive-Returns [] i bytes u ei le v lt = elim (Bool-cases (ltb i len)) [
    | inl more ↦ rw more tt
    | inr full ↦ rw full (Receives-full len [] bytes u (ground arith) v)
  ]
  receive-Returns (s ∷ ss) i bytes u ei le v lt =
      let rx' = arrive s.arrivals u.rx in
      let split = length-append s.arrivals (arrived ss) in
      let (q', v') = arrive_refines s.arrivals u.rx v (omega arith) in
      let room_left : rx'.rxbuffer_size + length (arrived ss) < 256 = omega (
        arith,
        ap length q',
        length-append (contents u.rx) s.arrivals,
        length-contents rx',
        length-contents u.rx,
      ) in
      let (b, taken) = take_byte rx' in
      let one_more = length-append bytes (b ∷ []) in
      let oldest : (rx'.rxbuffer_size == 0) ≡ false
          → (contents rx' ≡ b ∷ contents taken) × IsValid taken =
        λ h. take_byte_refines rx' v' (ground arith) in
      let room_for_it : ltb i len ≡ true → ltb i room ≡ true = λ h. ground arith in
      elim (Bool-cases (ltb i len)) [
        | inl more ↦ rw more (elim (Bool-cases (rx'.rxbuffer_size == 0)) [
          | inl none_left ↦ rw none_left (elim (Bool-cases (leb threshold s.timer)) [
            | inl late ↦
                rw (late, ei)
                  (Receives-timeout len s ss bytes (contents u.rx) (turn s u) (ground arith) v'
                    (nothing_waits rx' none_left) q')
            | inr early ↦ rw early (
                Returns-step len s ss bytes bytes (contents u.rx) (contents rx') _
                  (ap (λ l. bytes ++ l) q')
                  (receive-Returns ss i bytes (turn s u) ei le v' room_left))
          ])
          | inr some_left ↦
              rw (some_left, room_for_it more)
                (Returns-step len s ss bytes (bytes ++ (b ∷ [])) (contents u.rx) (contents taken) _
                  (append_assoc bytes (b ∷ []) (contents taken)
                    ∙ ap (λ l. bytes ++ l) (sym (oldest some_left).0 ∙ q'))
                  (receive-Returns ss ((i + 1) % 256) (bytes ++ (b ∷ []))
                    (record (turn s u) { rx = taken; mcu = timer_16bit_reset (turn s u).mcu })
                    (ground (arith, one_more)) (ground (arith, one_more)) (oldest some_left).1
                    (omega (
                      arith,
                      ap length (oldest some_left).0,
                      length-contents rx',
                      length-contents taken,
                    ))))
        ])
        | inr full ↦ rw full (Receives-full len (s ∷ ss) bytes u (ground arith) v)
      ]

-- The turns at which the timer has reached the threshold.
abbrev pub late_turns : ℕ → List Slot → ℕ
late_turns threshold [] = 0
late_turns threshold (s ∷ ss) =
    if leb threshold s.timer then suc (late_turns threshold ss) else late_turns threshold ss

module _ (len room threshold : ℕ) (fits : len ≤ room) (byte_len : len < 256) where
  -- Such a turn takes a byte or returns.
  receive-ends :
      (ss : List Slot) (i : ℕ) (bytes : List ℕ) (u : Uart)
      → i ≤ len
      → len ≤ i + late_turns threshold ss
      → (result : RxStatus × List ℕ × Uart) × (receive len room threshold ss i bytes u ≡ ok result)
  unfolding receive
  receive-ends [] i bytes u le enough = ((received, bytes, stop_timer u), ground arith)
  receive-ends (s ∷ ss) i bytes u le enough =
      let rx' = arrive s.arrivals u.rx in
      let (b, taken) = take_byte rx' in
      let u' = record (turn s u) { rx = taken; mcu = timer_16bit_reset (turn s u).mcu } in
      let room_for_it : ltb i len ≡ true → ltb i room ≡ true = λ h. ground arith in
      elim (Bool-cases (ltb i len)) [
        | inl more ↦ elim (Bool-cases (rx'.rxbuffer_size == 0)) [
          | inl none_left ↦ elim (Bool-cases (leb threshold s.timer)) [
            | inl late ↦ (
              ((if i == 0 then no_data else incomplete), bytes, stop_timer (turn s u)),
              rw (more, none_left, late),
            )
            | inr early ↦
                let (r, e) = receive-ends ss i bytes (turn s u) le (ground arith) in
                (r, rw (more, none_left, early) e)
          ]
          | inr some_left ↦
              let (r, e) =
                receive-ends ss ((i + 1) % 256) (bytes ++ (b ∷ [])) u' (ground arith)
                  (ground arith) in
              (r, rw (more, some_left, room_for_it more) e)
        ]
        | inr full ↦ ((received, bytes, stop_timer u), rw full)
      ]

-- `uart_rx` of `len` bytes, into an object with room for them, returns if the timer is late on `len`
-- turns at least; it is then true of the bytes returned and those still waiting that together they
-- are the bytes that waited before and those that arrived meanwhile, in order and with none lost; on
-- 0 all `len` bytes are returned, on -1 none has come, and on 1 some but not all, with no more
-- waiting. (Fewer than 256 bytes are to wait at once.)
pub uart_rx-Receives :
    (len room timeout_ms : ℕ) (slots : List Slot) (u : Uart)
    → len ≤ room
    → len < 256
    → IsValid u.rx
    → u.rx.rxbuffer_size + length (arrived slots) < 256
    → len ≤ late_turns (cnt_threshold timeout_ms) slots
    → (result : RxStatus × List ℕ × Uart) × (uart_rx len room timeout_ms slots u ≡ ok result)
      × Receives len slots [] (contents u.rx) result
unfolding uart_rx
uart_rx-Receives len room timeout_ms slots u fits byte_len v few enough =
    let started = record u { mcu = timer_16bit_start 256 u.mcu } in
    let (result, e) =
      receive-ends len room (cnt_threshold timeout_ms) fits byte_len slots 0 [] started
        (omega arith) (omega arith) in
    let sound =
      receive-Returns len room (cnt_threshold timeout_ms) fits byte_len slots 0 [] started refl
        (omega arith) v few in
    (result, e, subst (Returns len slots [] (contents u.rx)) e sound)
