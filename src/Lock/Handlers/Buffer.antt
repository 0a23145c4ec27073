-- ===== src/Lock/Handlers/Buffer.antt =====
-- What `ble_evt_attributes_value` does with the bytes it is given.
use esloq.Base.{
  ℕ, ◌+◌, ◌%◌, ◌≤◌, ◌<◌, ◌≡◌, refl, ap, List, [], ◌++◌, false, ok, halted, out_of_bounds, length,
  take, drop, slice-all, copy_into, copy_into_lem, arith, leb, take-append, length-append,
  append_assoc, length-take, length-drop, sym, ◌∙◌, ap₂, ◌∷◌, ne→==,
}
use esloq.Lock.State.{State, Machine, MsgBuffer, lock_receive}
use esloq.Lock.Monad.{M, ◌>>◌, >>=-ok}
use esloq.Lock.Handlers.{ble_evt_attributes_value, after_value}

-- The buffer once `value` has been copied to its end.
abbrev pub appended : MsgBuffer → List ℕ → List ℕ
appended b value = take b.len b.bytes ++ (value ++ drop (b.len + length value) b.bytes)

module _ (m : Machine) (value : List ℕ) where
  -- A value that fits is appended to the message, byte for byte, and nothing but the message and the
  -- state changes.
  pub attributes_value-fits :
      m.msg_buf.len + length value ≤ length m.msg_buf.bytes
      → length m.msg_buf.bytes ≡ 72
      → ble_evt_attributes_value lock_receive (length value) value m ≡ (
        record m {
          msg_buf = record { len = m.msg_buf.len + length value; bytes = appended m.msg_buf value };
          state = after_value m.state (m.msg_buf.len + length value);
        },
        ok tt,
      )
  unfolding ble_evt_attributes_value
  attributes_value-fits fits room =
      let small : (m.msg_buf.len + length value) % 256 ≡ m.msg_buf.len + length value =
        omega arith in
      rw (
        slice-all value (length value) refl,
        copy_into_lem m.msg_buf.bytes value m.msg_buf.len fits,
        small,
      )

  -- A value that does not fit is copied past the end of the buffer all the same.
  pub attributes_value-overflow :
      length m.msg_buf.bytes < m.msg_buf.len + length value
      → ble_evt_attributes_value lock_receive (length value) value m ≡ (m, halted out_of_bounds)
  unfolding ble_evt_attributes_value copy_into
  attributes_value-overflow long = rw (
    slice-all value (length value) refl,
    leb-false (m.msg_buf.len + length value) (length m.msg_buf.bytes) long,
  )
    where
      leb-false : (a b : ℕ) → b < a → leb a b ≡ false
      leb-false a b h = ground arith

-- The events of a message that comes in parts.
abbrev pub receive_parts : List (List ℕ) → M (Unit {0})
receive_parts [] m = (m, ok tt)
receive_parts (p ∷ ps) m =
    (ble_evt_attributes_value lock_receive (length p) p >> receive_parts ps) m

-- The bytes of the parts, one after the other.
abbrev pub joined : List (List ℕ) → List ℕ
joined [] = []
joined (p ∷ ps) = p ++ joined ps

pub take-appended :
    (b : MsgBuffer) (value : List ℕ)
    → b.len + length value ≤ length b.bytes
    → take (b.len + length value) (appended b value) ≡ take b.len b.bytes ++ value
take-appended b value fits =
    let front = take b.len b.bytes ++ value in
    let n : length front ≡ b.len + length value =
      omega (arith, length-append (take b.len b.bytes) value, length-take b.len b.bytes) in
    ap (take (b.len + length value))
      (sym (append_assoc (take b.len b.bytes) value (drop (b.len + length value) b.bytes)))
    ∙ ap (λ k. take k (front ++ drop (b.len + length value) b.bytes)) (sym n)
    ∙ take-append front (drop (b.len + length value) b.bytes)

pub length-appended :
    (b : MsgBuffer) (value : List ℕ)
    → b.len + length value ≤ length b.bytes
    → length (appended b value) ≡ length b.bytes
length-appended b value fits =
    let rest = drop (b.len + length value) b.bytes in
    omega (
      arith,
      length-append (take b.len b.bytes) (value ++ rest),
      length-append value rest,
      length-take b.len b.bytes,
      length-drop (b.len + length value) b.bytes,
    )

-- `m` with a message of `n` bytes in it, in state `state'`.
abbrev pub holding : Machine → ℕ → List ℕ → State → Machine
holding m n bytes state' = record m { msg_buf = record { len = n; bytes = bytes }; state = state' }

module _ (before after : State) (n : ℕ) (fits : n ≤ 72)
    (stays : (k : ℕ) → k < n → after_value before k ≡ before)
    (ends : after_value before n ≡ after) where
  collects :
      (parts : List (List ℕ)) (last : List ℕ) (m : Machine)
      → m.state ≡ before
      → length m.msg_buf.bytes ≡ 72
      → m.msg_buf.len + length (joined parts) + length last ≡ n
      → 1 ≤ length last
      → (bytes : List ℕ) × (receive_parts (parts ++ (last ∷ [])) m
          ≡ (holding m n bytes after, ok tt))
        × (take n bytes ≡ take m.msg_buf.len m.msg_buf.bytes ++ (joined parts ++ last))
        × (length bytes ≡ 72)
  collects [] last m s room total some_last =
      let fit : m.msg_buf.len + length last ≤ length m.msg_buf.bytes = omega arith in
      let at_end : m.msg_buf.len + length last ≡ n = omega arith in
      (
        appended m.msg_buf last,
        >>=-ok (ble_evt_attributes_value lock_receive (length last) last) (λ _. receive_parts [])
              (attributes_value-fits m last fit room)
            ∙ (λ i. (
              holding m (at_end i) (appended m.msg_buf last) ((ap₂ after_value s at_end ∙ ends) i),
              ok tt,
            )),
        ap (λ k. take k (appended m.msg_buf last)) (sym at_end) ∙ take-appended m.msg_buf last fit,
        length-appended m.msg_buf last fit ∙ room,
      )
  collects (p ∷ parts) last m s room total some_last =
      let fit : m.msg_buf.len + length p ≤ length m.msg_buf.bytes =
        omega (arith, length-append p (joined parts)) in
      let m' = holding m (m.msg_buf.len + length p) (appended m.msg_buf p) before in
      let (bytes, e, prefix, full) =
        collects parts last m' refl (length-appended m.msg_buf p fit ∙ room)
          (omega (arith, length-append p (joined parts))) some_last in
      (
        bytes,
        >>=-ok (ble_evt_attributes_value lock_receive (length p) p)
              (λ _. receive_parts (parts ++ (last ∷ []))) (attributes_value-fits m p fit room)
            ∙ ap
                (λ st.
                  receive_parts (parts ++ (last ∷ []))
                    (holding m (m.msg_buf.len + length p) (appended m.msg_buf p) st))
                (ap (λ st. after_value st (m.msg_buf.len + length p)) s
                  ∙ stays (m.msg_buf.len + length p)
                      (omega (arith, length-append p (joined parts))))
            ∙ e,
        prefix
            ∙ ap (λ l. l ++ (joined parts ++ last)) (take-appended m.msg_buf p fit)
            ∙ append_assoc (take m.msg_buf.len m.msg_buf.bytes) p (joined parts ++ last)
            ∙ ap (λ l. take m.msg_buf.len m.msg_buf.bytes ++ l)
                (sym (append_assoc p (joined parts) last)),
        full,
      )

from_empty :
    (m : Machine) (xs : List ℕ) → m.msg_buf.len ≡ 0 → take m.msg_buf.len m.msg_buf.bytes ++ xs ≡ xs
from_empty m xs empty = ap (λ k. take k m.msg_buf.bytes ++ xs) empty

-- A ticket of 72 bytes that comes in parts while a phone is connected is put together byte for byte
-- in an empty buffer: with its last part, if that is not empty, the state becomes `TICKET`, and
-- nothing else has changed.
pub attributes_value-ticket :
    (parts : List (List ℕ)) (last : List ℕ) (m : Machine)
    → m.state ≡ State.connected
    → m.msg_buf.len ≡ 0
    → length m.msg_buf.bytes ≡ 72
    → 1 ≤ length last
    → length (joined parts) + length last ≡ 72
    → (bytes : List ℕ) × (receive_parts (parts ++ (last ∷ [])) m
        ≡ (holding m 72 bytes State.ticket, ok tt))
      × (take 72 bytes ≡ joined parts ++ last)
      × (length bytes ≡ 72)
unfolding after_value
attributes_value-ticket parts last m s empty room some_last total =
    let (bytes, e, prefix, full) =
      collects State.connected State.ticket 72 (omega arith)
        (λ k lt. rw (ne→== k 72 (λ e. absurd (omega arith)))) refl parts last m s room (omega arith)
        some_last in
    (bytes, e, prefix ∙ from_empty m (joined parts ++ last) empty, full)

-- A request of 41 bytes that comes in parts while requests are awaited is put together likewise, and
-- the state becomes `REQUEST`.
pub attributes_value-request :
    (parts : List (List ℕ)) (last : List ℕ) (m : Machine)
    → m.state ≡ State.request_w
    → m.msg_buf.len ≡ 0
    → length m.msg_buf.bytes ≡ 72
    → 1 ≤ length last
    → length (joined parts) + length last ≡ 41
    → (bytes : List ℕ) × (receive_parts (parts ++ (last ∷ [])) m
        ≡ (holding m 41 bytes State.request, ok tt))
      × (take 41 bytes ≡ joined parts ++ last)
      × (length bytes ≡ 72)
unfolding after_value
attributes_value-request parts last m s empty room some_last total =
    let (bytes, e, prefix, full) =
      collects State.request_w State.request 41 (omega arith)
        (λ k lt. rw (ne→== k 41 (λ e. absurd (omega arith)))) refl parts last m s room (omega arith)
        some_last in
    (bytes, e, prefix ∙ from_empty m (joined parts ++ last) empty, full)
