-- ===== src/Exchange/Step.antt =====
-- A phone and a lock in step, and the nonces of their next order and its answer.
use esloq.Base.{
  ℕ, ◌+◌, ◌%◌, ◌<◌, ◌≡◌, ◌≢◌, sym, ◌∙◌, ap, subst, List, [], ◌∷◌, ◌++◌, length, replicate, arith,
  some, length-append,
}
use esloq.Nonce.Order.{AllBytes, value, value_from-injective}
use esloq.Phone.{Phone, gave, increment_byte_array}
use esloq.Phone.Increment.{
  AllLow, AllLow-snoc, count, count-snoc, Incremented, increment_byte_array-Incremented, value-snoc,
}
use esloq.Phone.Opening.{AllLow-AllBytes}
use esloq.Lock.State.{State, Machine}
use esloq.Lock.WellFormed.{IsWellFormed, AllBytes-append}

-- The phone and a lock that awaits requests have the same key and the same nonce, of bytes under 128
-- and odd, and no part of a response is waiting.
pub record InStep (phone : Phone) (m : Machine) : Type 0 where
  pub well_formed : IsWellFormed m
  pub awaits : m.state ≡ State.request_w
  pub empty : m.msg_buf.len ≡ 0
  pub same_key : phone.session_key ≡ some m.session_key
  pub same_nonce : phone.session_nonce ≡ m.session_nonce
  pub front : List ℕ
  pub last : ℕ
  pub nonce_is : m.session_nonce ≡ front ++ (last ∷ [])
  pub front_low : AllLow front
  pub last_low : last < 128
  pub odd : last % 2 ≡ 1
  pub at_start : phone.incoming.position ≡ 0
  pub room : length phone.incoming.bytes ≡ 41

-- The nonce of the next order, and the one of its answer.
module _ (phone : Phone) (m : Machine) (step : InStep phone m)
    (top : m.session_nonce ≢ replicate 24 127) where
  length-front : length step.front ≡ 23
  length-front = omega (
    arith,
    length-append step.front (step.last ∷ []),
    ap length step.nonce_is,
    step.well_formed.nonce_room,
  )

  pub incremented :
      Incremented step.front step.last [] (increment_byte_array (step.front ++ (step.last ∷ [])))
  incremented =
      increment_byte_array-Incremented step.front step.last step.front_low step.last_low (λ full.
        top (
          step.nonce_is
          ∙ full
          ∙ ap (λ n. replicate n 127) {x = length step.front + 1} {y = 24}
              (omega (arith, length-front))))

  abbrev pub next : List ℕ
  next = incremented.front ++ (incremented.last ∷ [])

  pub steps : increment_byte_array phone.session_nonce ≡ gave next
  steps = ap increment_byte_array (step.same_nonce ∙ step.nonce_is) ∙ incremented.result_is

  pub next-AllLow : AllLow next
  next-AllLow = AllLow-snoc incremented.front incremented.last incremented.low incremented.last_low

  pub length-next : length next ≡ 24
  length-next = omega (
    arith,
    length-append incremented.front (incremented.last ∷ []),
    incremented.same_length,
    length-front,
  )

  pub fresh : value m.session_nonce < value next
  fresh = subst (λ n. value n < value next) (sym step.nonce_is) incremented.greater

  pub not_full : next ≢ replicate 24 255
  not_full full = absurd (omega (arith, (subst AllLow full next-AllLow).0))

  -- The lock's next nonce is the phone's with its last byte one more.
  pub answer_nonce :
      (nonce : List ℕ)
      → AllBytes nonce
      → length nonce ≡ 24
      → value nonce ≡ value next + 1
      → nonce ≡ incremented.front ++ ((incremented.last + 1) ∷ [])
  answer_nonce nonce small nonce24 up =
      value_from-injective 0 nonce (incremented.front ++ ((incremented.last + 1) ∷ [])) small
        (AllBytes-append incremented.front ((incremented.last + 1) ∷ [])
          (AllLow-AllBytes incremented.front incremented.low)
          (omega (arith, incremented.last_low), tt))
        (omega (
          arith,
          length-append incremented.front ((incremented.last + 1) ∷ []),
          incremented.same_length,
          length-front,
        ))
        (omega (
          arith,
          up,
          value-snoc incremented.front incremented.last,
          value-snoc incremented.front (incremented.last + 1),
        ))

  pub count-answer_nonce :
      count (incremented.front ++ ((incremented.last + 1) ∷ [])) ≡ count m.session_nonce + 2
  count-answer_nonce = omega (
    arith,
    ap count step.nonce_is,
    incremented.counts,
    count-snoc incremented.front incremented.last,
    count-snoc incremented.front (incremented.last + 1),
  )

  pub last_stays : (incremented.last + 1 < 128) × ((incremented.last + 1) % 2 ≡ 1)
  last_stays =
      let even = incremented.turns_even step.odd in
      (omega (arith, even, incremented.last_low), omega (arith, even))
