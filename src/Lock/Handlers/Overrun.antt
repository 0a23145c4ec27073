-- ===== src/Lock/Handlers/Overrun.antt =====
-- A message in parts that goes past the buffer of `ble_evt_attributes_value`.
use esloq.Base.{
  ℕ, ◌+◌, ◌≤◌, ◌<◌, ◌≡◌, ◌≢◌, refl, sym, ◌∙◌, ap, subst, List, [], ◌∷◌, ◌++◌, Bool, true, false,
  halted, out_of_bounds, length, arith, if◌then◌else◌, ne→==, length-append,
}
use esloq.Lock.State.{State, Machine, lock_receive}
use esloq.Lock.Monad.{>>=-ok, >>=-halted}
use esloq.Lock.Handlers.{ble_evt_attributes_value, after_value}
use esloq.Lock.Handlers.Buffer.{
  attributes_value-fits, attributes_value-overflow, receive_parts, joined, holding, appended,
  length-appended,
}

-- No value of `parts`, after `len` bytes, brings the message to `n` bytes exactly.
abbrev pub Misses : ℕ → ℕ → List (List ℕ) → Type 0
Misses n len [] = Unit {0}
Misses n len (p ∷ ps) = (len + length p ≢ n) × Misses n (len + length p) ps

module _ (awaits : State) (n : ℕ) (stays : (k : ℕ) → k ≢ n → after_value awaits k ≡ awaits) where
  overruns :
      (parts : List (List ℕ)) (last : List ℕ) (m : Machine)
      → m.state ≡ awaits
      → length m.msg_buf.bytes ≡ 72
      → Misses n m.msg_buf.len parts
      → m.msg_buf.len + length (joined parts) ≤ 72
      → 72 < m.msg_buf.len + length (joined parts) + length last
      → (bytes : List ℕ) × (receive_parts (parts ++ (last ∷ [])) m
          ≡ (holding m (m.msg_buf.len + length (joined parts)) bytes awaits, halted out_of_bounds))
  overruns [] last m s room misses fits long = (
    m.msg_buf.bytes,
    >>=-halted (ble_evt_attributes_value lock_receive (length last) last) (λ _. receive_parts [])
          (attributes_value-overflow m last (omega arith))
        ∙ (λ i. (holding m (same_len i) m.msg_buf.bytes (s i), halted out_of_bounds)),
  )
    where
      same_len : m.msg_buf.len ≡ m.msg_buf.len + 0
      same_len = omega arith
  overruns (p ∷ parts) last m s room misses fits long =
      let fit : m.msg_buf.len + length p ≤ length m.msg_buf.bytes =
        omega (arith, length-append p (joined parts)) in
      let m' = holding m (m.msg_buf.len + length p) (appended m.msg_buf p) awaits in
      let (bytes, e) =
        overruns parts last m' refl (length-appended m.msg_buf p fit ∙ room) misses.1
          (omega (arith, length-append p (joined parts)))
          (omega (arith, length-append p (joined parts))) in
      (
        bytes,
        >>=-ok (ble_evt_attributes_value lock_receive (length p) p)
              (λ _. receive_parts (parts ++ (last ∷ []))) (attributes_value-fits m p fit room)
            ∙ ap
                (λ st.
                  receive_parts (parts ++ (last ∷ []))
                    (holding m (m.msg_buf.len + length p) (appended m.msg_buf p) st))
                (ap (λ st. after_value st (m.msg_buf.len + length p)) s
                  ∙ stays (m.msg_buf.len + length p) misses.0)
            ∙ e
            ∙ ap (λ k. (holding m k bytes awaits, halted out_of_bounds))
                {x = m.msg_buf.len + length p + length (joined parts)}
                {y = m.msg_buf.len + length (p ++ joined parts)}
                (omega (arith, length-append p (joined parts))),
      )

-- What the lock waits for: a request, or a ticket.
abbrev pub awaited : Bool → State
awaited requests = if requests then State.request_w else State.connected

abbrev pub awaited_len : Bool → ℕ
awaited_len requests = if requests then 41 else 72

awaited-stays :
    (requests : Bool) (k : ℕ)
    → k ≢ awaited_len requests
    → after_value (awaited requests) k ≡ awaited requests
unfolding after_value
awaited-stays true k other = rw (ne→== k 41 other)
awaited-stays false k other = rw (ne→== k 72 other)

-- A message that misses its length is never dropped: values that a connected lock, or one that awaits
-- requests, puts together in an empty buffer, and that never come to the 72 bytes of a ticket, or the
-- 41 of a request, exactly, leave it waiting as it was; and the first value that goes past the 72
-- bytes of the buffer is copied past its end.
pub attributes_value-overruns :
    (requests : Bool) (parts : List (List ℕ)) (last : List ℕ) (m : Machine)
    → m.state ≡ awaited requests
    → m.msg_buf.len ≡ 0
    → length m.msg_buf.bytes ≡ 72
    → Misses (awaited_len requests) 0 parts
    → length (joined parts) ≤ 72
    → 72 < length (joined parts) + length last
    → (bytes : List ℕ) × (receive_parts (parts ++ (last ∷ [])) m
        ≡ (holding m (length (joined parts)) bytes (awaited requests), halted out_of_bounds))
attributes_value-overruns requests parts last m s empty room misses fits long =
    let (bytes, e) =
      overruns (awaited requests) (awaited_len requests) (awaited-stays requests) parts last m s
        room (subst (λ len. Misses (awaited_len requests) len parts) (sym empty) misses)
        (omega (arith, empty)) (omega (arith, empty)) in
    (
      bytes,
      e
          ∙ ap (λ k. (holding m k bytes (awaited requests), halted out_of_bounds))
              {x = m.msg_buf.len + length (joined parts)} {y = length (joined parts)}
              (omega (arith, empty)),
    )
