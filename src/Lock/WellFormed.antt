-- ===== src/Lock/WellFormed.antt =====
-- The sizes of the globals, and that their elements are bytes.
use esloq.Base.{
  zero, suc, ℕ, ◌≤◌, ◌<◌, ◌≡◌, replicate, List, [], ◌∷◌, ◌++◌, length, take, drop, arith,
  length-take, length-drop, ltb, if◌then◌else◌, ok, some, slice, slice_lem,
}
use esloq.Nonce.{is_valid_ticket_nonce, is_valid_session_nonce}
use esloq.Nonce.Order.{AllBytes, value, is_valid_nonce-eq-value}
use esloq.Lock.State.{Machine}

pub record IsWellFormed (m : Machine) : Type 0 where
  pub msg_fits : m.msg_buf.len ≤ 72
  pub msg_room : length m.msg_buf.bytes ≡ 72
  pub msg_bytes : AllBytes m.msg_buf.bytes
  pub nonce_room : length m.session_nonce ≡ 24
  pub nonce_bytes : AllBytes m.session_nonce
  pub key_room : length m.session_key ≡ 32
  pub master_nonce_room : length m.master_nonce_eeprom ≡ 24
  pub master_nonce_bytes : AllBytes m.master_nonce_eeprom
  pub master_key_room : length m.master_key_eeprom ≡ 32
  pub att_room : length m.att_write_buffer.bytes ≡ 41

-- The parts of a message: nonce, then box.
abbrev pub nonce_of : Machine → List ℕ
nonce_of m = take 24 m.msg_buf.bytes

abbrev pub box_of : ℕ → Machine → List ℕ
box_of n m = take n (drop 24 m.msg_buf.bytes)

pub AllBytes-take : (n : ℕ) (xs : List ℕ) → AllBytes xs → AllBytes (take n xs)
AllBytes-take zero xs h = tt
AllBytes-take (suc n) [] h = tt
AllBytes-take (suc n) (x ∷ xs) h = (h.0, AllBytes-take n xs h.1)

pub AllBytes-drop : (n : ℕ) (xs : List ℕ) → AllBytes xs → AllBytes (drop n xs)
AllBytes-drop zero xs h = h
AllBytes-drop (suc n) [] h = tt
AllBytes-drop (suc n) (x ∷ xs) h = AllBytes-drop n xs h.1

pub AllBytes-append : (xs ys : List ℕ) → AllBytes xs → AllBytes ys → AllBytes (xs ++ ys)
AllBytes-append [] ys hx hy = hy
AllBytes-append (x ∷ xs) ys hx hy = (hx.0, AllBytes-append xs ys hx.1 hy)

pub AllBytes-replicate : (n b : ℕ) → b < 256 → AllBytes (replicate n b)
AllBytes-replicate zero b h = tt
AllBytes-replicate (suc n) b h = (h, AllBytes-replicate n b h)

module _ {m : Machine} (wf : IsWellFormed m) where
  pub length-nonce_of : length (nonce_of m) ≡ 24
  length-nonce_of = omega (arith, length-take 24 m.msg_buf.bytes, wf.msg_room)

  pub AllBytes-nonce_of : AllBytes (nonce_of m)
  AllBytes-nonce_of = AllBytes-take 24 m.msg_buf.bytes wf.msg_bytes

  pub length-box_of : (n : ℕ) → n ≤ 48 → length (box_of n m) ≡ n
  length-box_of n h =
      omega (
        arith,
        length-take n (drop 24 m.msg_buf.bytes),
        length-drop 24 m.msg_buf.bytes,
        wf.msg_room,
      )

  pub slice-nonce : slice m.msg_buf.bytes 0 24 ≡ some (nonce_of m)
  slice-nonce = slice_lem m.msg_buf.bytes 0 24 (omega (arith, wf.msg_room))

  pub slice-box : (n : ℕ) → n ≤ 48 → slice m.msg_buf.bytes 24 n ≡ some (box_of n m)
  slice-box n h = slice_lem m.msg_buf.bytes 24 n (omega (arith, wf.msg_room))

  -- Both validity tests compare the numbers that the nonces spell.
  pub ticket_nonce_value :
      is_valid_ticket_nonce (nonce_of m) m.master_nonce_eeprom
      ≡ ok (if ltb (value m.master_nonce_eeprom) (value (nonce_of m)) then 1 else 0)
  ticket_nonce_value =
      (is_valid_nonce-eq-value (nonce_of m) m.master_nonce_eeprom AllBytes-nonce_of
        wf.master_nonce_bytes length-nonce_of wf.master_nonce_room).0

  pub session_nonce_value :
      is_valid_session_nonce (nonce_of m) m.session_nonce
      ≡ ok (if ltb (value m.session_nonce) (value (nonce_of m)) then 1 else 0)
  session_nonce_value =
      (is_valid_nonce-eq-value (nonce_of m) m.session_nonce AllBytes-nonce_of wf.nonce_bytes
        length-nonce_of wf.nonce_room).1
