-- ===== src/Uart/Queue.antt =====
-- The circular buffer refines a queue of bytes as long as fewer than 256 wait in it.
use esloq.Base.{
  ℕ, zero, suc, ◌+◌, ◌-◌, ◌%◌, ◌<◌, ◌≡◌, refl, sym, ◌∙◌, ap, ap₂, subst, List, [], ◌∷◌, ◌++◌,
  length, get_or, set, arith, length-set, get_or-set_self, get_or-set_ne, append_assoc, append-nil,
  length-append,
}
use esloq.Uart.{RxBuffer, usart_rx, arrive, take_byte, take_byte_interrupted}

-- The `n` bytes from index `h` on, round the 256 of the buffer.
abbrev stored : List ℕ → ℕ → ℕ → List ℕ
stored buffer h zero = []
stored buffer h (suc n) = get_or buffer (h % 256) 0 ∷ stored buffer (suc h) n

-- The bytes that wait, oldest first.
abbrev pub contents : RxBuffer → List ℕ
contents rx = stored rx.rxbuffer rx.rxbuffer_start rx.rxbuffer_size

pub record IsValid (rx : RxBuffer) : Type 0 where
  pub full_length : length rx.rxbuffer ≡ 256
  pub start_in : rx.rxbuffer_start < 256
  pub size_in : rx.rxbuffer_size < 256
  pub next_follows : rx.rxbuffer_next ≡ (rx.rxbuffer_start + rx.rxbuffer_size) % 256

length-stored : (buffer : List ℕ) (h n : ℕ) → length (stored buffer h n) ≡ n
length-stored buffer h zero = refl
length-stored buffer h (suc n) = ap suc (length-stored buffer (suc h) n)

pub length-contents : (rx : RxBuffer) → length (contents rx) ≡ rx.rxbuffer_size
length-contents rx = length-stored rx.rxbuffer rx.rxbuffer_start rx.rxbuffer_size

stored-mod :
    (buffer : List ℕ) (h h' n : ℕ) → h % 256 ≡ h' % 256 → stored buffer h n ≡ stored buffer h' n
stored-mod buffer h h' zero e = refl
stored-mod buffer h h' (suc n) e =
    ap₂ (λ i r. get_or buffer i 0 ∷ r) e (stored-mod buffer (suc h) (suc h') n (omega arith))

stored-set :
    (buffer : List ℕ) (b h n i : ℕ)
    → length buffer ≡ 256
    → n < 256
    → i ≡ (h + n) % 256
    → stored (set buffer i b) h (suc n) ≡ stored buffer h n ++ (b ∷ [])
stored-set buffer b h zero i full lt e =
    ap (λ v. v ∷ [])
      (ap (λ j. get_or (set buffer i b) j 0) {y = i} (omega arith)
        ∙ get_or-set_self buffer i b 0 (omega arith))
stored-set buffer b h (suc n) i full lt e =
    ap₂ ◌∷◌ (get_or-set_ne buffer i (h % 256) b 0 (omega arith))
      (stored-set buffer b (suc h) n i full (omega arith) (omega arith))

-- The interrupt appends its byte, as long as the size does not reach 256.
usart_rx_refines :
    (b : ℕ) (rx : RxBuffer)
    → IsValid rx
    → rx.rxbuffer_size < 255
    → (contents (usart_rx b rx) ≡ contents rx ++ (b ∷ [])) × IsValid (usart_rx b rx)
unfolding usart_rx
usart_rx_refines b rx v lt = (
  ap (stored (set rx.rxbuffer rx.rxbuffer_next b) rx.rxbuffer_start) {y = suc rx.rxbuffer_size}
        (omega arith)
      ∙ stored-set rx.rxbuffer b rx.rxbuffer_start rx.rxbuffer_size rx.rxbuffer_next v.full_length
          v.size_in v.next_follows,
  record {
    full_length = length-set rx.rxbuffer rx.rxbuffer_next b ∙ v.full_length;
    start_in = v.start_in;
    size_in = omega arith;
    next_follows = omega arith;
  },
)

-- The size is a `uint8_t`: the byte that fills the buffer brings it to 0, and all 256 bytes that
-- wait are lost to the reader.
pub usart_rx-overflow :
    (b : ℕ) (rx : RxBuffer) → IsValid rx → rx.rxbuffer_size ≡ 255 → contents (usart_rx b rx) ≡ []
unfolding usart_rx
usart_rx-overflow b rx v full =
    ap (stored (set rx.rxbuffer rx.rxbuffer_next b) rx.rxbuffer_start) {y = 0} (omega arith)

take_stored :
    (buffer : List ℕ) (h n : ℕ)
    → 0 < n
    → stored buffer h n ≡ get_or buffer (h % 256) 0 ∷ stored buffer (suc h) (n - 1)
take_stored buffer h zero p = absurd (omega arith)
take_stored buffer h (suc n) p =
    ap (λ k. get_or buffer (h % 256) 0 ∷ stored buffer (suc h) k) {y = suc n - 1} (omega arith)

-- Taking a byte takes the oldest, and leaves the others.
pub take_byte_refines :
    (rx : RxBuffer)
    → IsValid rx
    → 0 < rx.rxbuffer_size
    → (contents rx ≡ (take_byte rx).0 ∷ contents (take_byte rx).1) × IsValid (take_byte rx).1
unfolding take_byte
take_byte_refines rx v pos = (
  take_stored rx.rxbuffer rx.rxbuffer_start rx.rxbuffer_size pos
      ∙ ap₂ ◌∷◌ (ap (λ i. get_or rx.rxbuffer i 0) {y = rx.rxbuffer_start} (omega arith)) (
          stored-mod rx.rxbuffer (suc rx.rxbuffer_start) ((rx.rxbuffer_start + 1) % 256 % 256)
            (rx.rxbuffer_size - 1) (omega arith)
          ∙ ap (stored rx.rxbuffer ((rx.rxbuffer_start + 1) % 256 % 256))
              {y = (rx.rxbuffer_size + 255) % 256} (omega arith)),
  record {
    full_length = v.full_length;
    start_in = omega arith;
    size_in = omega arith;
    next_follows = omega arith;
  },
)

-- Bytes that arrive one after the other are appended in order.
pub arrive_refines :
    (bs : List ℕ) (rx : RxBuffer)
    → IsValid rx
    → rx.rxbuffer_size + length bs < 256
    → (contents (arrive bs rx) ≡ contents rx ++ bs) × IsValid (arrive bs rx)
unfolding arrive
arrive_refines [] rx v lt = (sym (append-nil (contents rx)), v)
arrive_refines (b ∷ bs) rx v lt =
    let (one, v1) = usart_rx_refines b rx v (omega arith) in
    let counted = length-append (contents rx) (b ∷ []) in
    let (all, v') = arrive_refines bs (usart_rx b rx) v1 (
      omega (arith, ap length one, counted, length-contents rx, length-contents (usart_rx b rx))) in
    (all ∙ ap (λ l. l ++ bs) one ∙ append_assoc (contents rx) (b ∷ []) bs, v')

stored-snoc :
    (buffer : List ℕ) (h n : ℕ)
    → stored buffer h (suc n) ≡ stored buffer h n ++ (get_or buffer ((h + n) % 256) 0 ∷ [])
stored-snoc buffer h zero =
    ap (λ i. get_or buffer i 0 ∷ []) {x = h % 256} {y = (h + zero) % 256} (omega arith)
stored-snoc buffer h (suc n) =
    ap (λ l. get_or buffer (h % 256) 0 ∷ l)
      (stored-snoc buffer (suc h) n
        ∙ ap (λ i. stored buffer (suc h) n ++ (get_or buffer i 0 ∷ [])) {x = (suc h + n) % 256}
            {y = (h + suc n) % 256} (omega arith))

-- The same buffer, with a size that is one short.
abbrev short_of : RxBuffer → RxBuffer
short_of rx = record rx { rxbuffer_size = rx.rxbuffer_size - 1 }

-- The reader does not see the last byte.
contents-short :
    (rx : RxBuffer)
    → 0 < rx.rxbuffer_size
    → (last : ℕ) × (contents (short_of rx) ++ (last ∷ []) ≡ contents rx)
contents-short rx pos =
    let n = rx.rxbuffer_size - 1 in
    (
      get_or rx.rxbuffer ((rx.rxbuffer_start + n) % 256) 0,
      sym (stored-snoc rx.rxbuffer rx.rxbuffer_start n)
          ∙ ap (stored rx.rxbuffer rx.rxbuffer_start) {x = suc n} (omega arith),
    )

-- It stays one short, as long as the size does not reach 256.
short_stays :
    (bs : List ℕ) (rx : RxBuffer)
    → 0 < rx.rxbuffer_size
    → rx.rxbuffer_size + length bs < 256
    → (arrive bs (short_of rx) ≡ short_of (arrive bs rx)) × (0 < (arrive bs rx).rxbuffer_size)
unfolding arrive usart_rx
short_stays [] rx pos lt = (refl, pos)
short_stays (b ∷ bs) rx pos lt =
    let (later, some_left) = short_stays bs (usart_rx b rx) (omega arith) (omega arith) in
    (
      ap
            (λ n. arrive bs (record {
              rxbuffer = set rx.rxbuffer rx.rxbuffer_next b;
              rxbuffer_start = rx.rxbuffer_start;
              rxbuffer_next = (usart_rx b rx).rxbuffer_next;
              rxbuffer_size = n;
            }))
            {x = (usart_rx b (short_of rx)).rxbuffer_size} {y = (usart_rx b rx).rxbuffer_size - 1}
            (omega arith)
          ∙ later,
      some_left,
    )

interrupted_lem :
    (b : ℕ) (rx : RxBuffer)
    → IsValid rx
    → 0 < rx.rxbuffer_size
    → (take_byte_interrupted b rx).1 ≡ short_of (usart_rx b (take_byte rx).1)
unfolding take_byte_interrupted take_byte usart_rx
interrupted_lem b rx v pos =
    ap (λ n. record (take_byte_interrupted b rx).1 { rxbuffer_size = n })
      {x = (rx.rxbuffer_size + 255) % 256} {y = ((rx.rxbuffer_size + 255) % 256 + 1) % 256 - 1}
      (omega arith)

-- A byte that arrives inside `rxbuffer_size--` is not counted: whatever bytes arrive after it, as
-- long as fewer than 256 wait, the reader sees what would wait without the interruption less the last
-- byte, and the buffer is not valid: the byte comes to light only when another one arrives, which is
-- then the one that is not seen.
pub take_byte_interrupted-lags :
    (b : ℕ) (bs : List ℕ) (rx : RxBuffer)
    → IsValid rx
    → 0 < rx.rxbuffer_size
    → rx.rxbuffer_size + length bs < 256
    → ((last : ℕ) × (contents (arrive bs (take_byte_interrupted b rx).1) ++ (last ∷ [])
          ≡ contents (take_byte rx).1 ++ (b ∷ bs)))
      × ¬ IsValid (arrive bs (take_byte_interrupted b rx).1)
unfolding take_byte
take_byte_interrupted-lags b bs rx v pos lt =
    let taken : IsValid (take_byte rx).1 = (take_byte_refines rx v pos).1 in
    let rx1 = usart_rx b (take_byte rx).1 in
    let (one, v1) = usart_rx_refines b (take_byte rx).1 taken (omega arith) in
    let counted : rx1.rxbuffer_size ≡ rx.rxbuffer_size = omega (
      arith,
      ap length one,
      length-append (contents (take_byte rx).1) (b ∷ []),
      length-contents rx1,
      length-contents (take_byte rx).1,
    ) in
    let (all, v') = arrive_refines bs rx1 v1 (omega (arith, counted)) in
    let (stays, some_left) = short_stays bs rx1 (omega (arith, counted)) (omega (arith, counted)) in
    let short : arrive bs (take_byte_interrupted b rx).1 ≡ short_of (arrive bs rx1) =
      ap (arrive bs) (interrupted_lem b rx v pos) ∙ stays in
    let (last, seen) = contents-short (arrive bs rx1) some_left in
    (
      (
        last,
        ap (λ q. contents q ++ (last ∷ [])) short
            ∙ seen
            ∙ all
            ∙ ap (λ l. l ++ bs) one
            ∙ append_assoc (contents (take_byte rx).1) (b ∷ []) bs,
      ),
      λ w.
          let w' = subst IsValid short w in
          omega (arith, w'.next_follows, v'.next_follows, v'.size_in, some_left),
    )
