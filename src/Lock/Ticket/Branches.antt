-- ===== src/Lock/Ticket/Branches.antt =====
-- What `process_ticket_msg` does on each of its branches.
use esloq.Base.{
  ℕ, suc, ◌≤◌, ◌<◌, ◌≡◌, ◌≢◌, refl, sym, ◌∙◌, ap, List, [], ◌∷◌, ◌++◌, Bool, ok, some, length, drop,
  replicate, arith, lt→ltb, le→ltb, ne→==, if◌then◌else◌, slice, slice_lem, slice-all, set,
  length-drop,
}
use esloq.Crypto.{SecretBox, IsSecretBox, crypto_auth_decrypt, crypto_auth_encrypt}
use esloq.Crypto.RoundTrip.{
  crypto_auth_decrypt_lem, crypto_auth_encrypt_lem, crypto_auth_encrypt-slice, length-decrypted,
}
use esloq.Lock.Respond.Sections.{response_lem}
use esloq.Nonce.{increment_array}
use esloq.Nonce.Order.{value}
use esloq.Uart.{Window}
use esloq.Lock.State.{State, Machine, BgLib, ticket_rcv_success, ticket_rcv_success_low_bat}
use esloq.Lock.Monad.{◌>>◌, pure}
use esloq.Lock.Respond.{reset_msg_buffer, response, send_response}
use esloq.Lock.Ticket.{process_ticket_msg, accept_ticket}
use esloq.Lock.WellFormed.{
  IsWellFormed, nonce_of, box_of, length-nonce_of, length-box_of, slice-nonce, slice-box,
  ticket_nonce_value,
}

-- What opening the box of the ticket under the master key gives.
abbrev pub opened_ticket : SecretBox → Machine → ℕ × List ℕ
opened_ticket box m =
    box.secretbox_open (replicate 16 0 ++ box_of 48 m) (nonce_of m) m.master_key_eeprom

module _ (box : SecretBox) (doc : IsSecretBox box) (bg : BgLib) (ws : List Window)
    (low_battery : Bool) (m : Machine) (wf : IsWellFormed m) where
  -- A ticket whose nonce is not greater than the last one is refused with 1, and changes nothing.
  pub process_ticket_msg-stale :
      value (nonce_of m) ≤ value m.master_nonce_eeprom
      → process_ticket_msg box bg ws low_battery m ≡ (m, ok 1)
  unfolding process_ticket_msg
  process_ticket_msg-stale le = rw (slice-nonce wf, ticket_nonce_value wf, le→ltb _ _ le)

  decrypts :
      crypto_auth_decrypt box (box_of 48 m) 48 (nonce_of m) m.master_key_eeprom
      ≡ ok ((opened_ticket box m).0, drop 32 (opened_ticket box m).1)
  decrypts =
      ap (λ n. crypto_auth_decrypt box (box_of 48 m) n (nonce_of m) m.master_key_eeprom)
        (sym (length-box_of wf 48 (omega arith)))
      ∙ crypto_auth_decrypt_lem box doc (box_of 48 m) (nonce_of m) m.master_key_eeprom
          (omega (arith, length-box_of wf 48 (omega arith)))
          (omega (arith, length-box_of wf 48 (omega arith))) (length-nonce_of wf) wf.master_key_room

  -- A ticket with a greater nonce that does not open under the master key is refused with 2, but the
  -- nonce it carries is stored in the EEPROM all the same.
  pub process_ticket_msg-forged :
      value m.master_nonce_eeprom < value (nonce_of m)
      → (opened_ticket box m).0 ≢ 0
      → process_ticket_msg box bg ws low_battery m
        ≡ (record m { master_nonce_eeprom = nonce_of m }, ok 2)
  unfolding process_ticket_msg
  process_ticket_msg-forged lt forged = rw (
    slice-nonce wf,
    ticket_nonce_value wf,
    lt→ltb _ _ lt,
    slice-box wf 48 (omega arith),
    decrypts,
    ne→== _ _ forged,
  )

-- The session nonce that answers a ticket: zero, once incremented.
abbrev pub first_nonce : List ℕ
first_nonce = replicate 23 0 ++ (1 ∷ [])

abbrev pub ticket_code : Bool → ℕ
ticket_code low_battery = if low_battery then ticket_rcv_success_low_bat else ticket_rcv_success

-- The answer of the firmware to a byte: the nonce, then the box of the byte without its zeros.
abbrev pub sealed_byte : SecretBox → ℕ → List ℕ → List ℕ → List ℕ
sealed_byte box code nonce key =
    nonce ++ drop 16 (box.secretbox (replicate 32 0 ++ (code ∷ [])) nonce key).1

abbrev pub session_key_of : SecretBox → Machine → List ℕ
session_key_of box m = drop 32 (opened_ticket box m).1

increment-zero : increment_array (replicate 24 0) 24 ≡ ok first_nonce
unfolding increment_array
increment-zero = refl

set-head :
    (key : List ℕ) (code n : ℕ) → length key ≡ suc n → slice (set key 0 code) 0 1 ≡ some (code ∷ [])
set-head [] code n e = absurd (omega arith)
set-head (k ∷ key) code n e = slice_lem (code ∷ key) 0 1 (omega arith)

module _ (box : SecretBox) (doc : IsSecretBox box) (nonce key : List ℕ) (code : ℕ)
    (nonce24 : length nonce ≡ 24) (key32 : length key ≡ 32) where
  -- A buffer that begins with the code is sealed by code 0.
  pub seals :
      (m : List ℕ)
      → slice m 0 1 ≡ some (code ∷ [])
      → crypto_auth_encrypt box m 1 nonce key
        ≡ ok (0, drop 16 (box.secretbox (replicate 32 0 ++ (code ∷ [])) nonce key).1)
  seals m e =
      crypto_auth_encrypt-slice box m (code ∷ []) nonce key 1 e refl
      ∙ crypto_auth_encrypt_lem box doc (code ∷ []) nonce key (omega arith) nonce24 key32
      ∙ ap (λ c. ok (c, drop 16 (box.secretbox (replicate 32 0 ++ (code ∷ [])) nonce key).1))
          (doc.secretbox_code (replicate 32 0 ++ (code ∷ [])) nonce key (omega arith) refl)

  pub answers :
      response nonce (drop 16 (box.secretbox (replicate 32 0 ++ (code ∷ [])) nonce key).1)
      ≡ ok (sealed_byte box code nonce key)
  answers = response_lem nonce _ nonce24 (
      omega (
        arith,
        length-drop 16 (box.secretbox (replicate 32 0 ++ (code ∷ [])) nonce key).1,
        doc.length-secretbox (replicate 32 0 ++ (code ∷ [])) nonce key,
      ))

module _ (box : SecretBox) (doc : IsSecretBox box) (bg : BgLib) (ws : List Window)
    (low_battery : Bool) (m : Machine) (wf : IsWellFormed m) where
  pub length-session_key : length (session_key_of box m) ≡ 32
  length-session_key = omega (
    arith,
    length-decrypted box doc (box_of 48 m) (nonce_of m) m.master_key_eeprom
        (omega (arith, length-box_of wf 48 (omega arith)))
        (omega (arith, length-box_of wf 48 (omega arith))) (length-nonce_of wf) wf.master_key_room,
    length-box_of wf 48 (omega arith),
  )

  -- The machine that has taken a ticket, when it begins to answer.
  abbrev pub ticket_taken : Machine
  ticket_taken = record m {
    state = State.request_w;
    msg_buf = record { len = 0; bytes = m.msg_buf.bytes };
    session_nonce = first_nonce;
    session_key = session_key_of box m;
    master_nonce_eeprom = nonce_of m;
  }

  accept_ticket_lem :
      accept_ticket box bg ws low_battery
        (session_key_of box m)
        (record m { master_nonce_eeprom = nonce_of m })
      ≡ (send_response bg ws
              (sealed_byte box (ticket_code low_battery) first_nonce (session_key_of box m))
            >> pure 0)
          ticket_taken
  unfolding accept_ticket reset_msg_buffer
  accept_ticket_lem =
      let key = session_key_of box m in
      let code = ticket_code low_battery in
      rw (
        slice-all key 32 (sym length-session_key),
        increment-zero,
        seals box doc first_nonce key code refl length-session_key (set key 0 code)
            (set-head key code 31 length-session_key),
        answers box doc first_nonce key code refl length-session_key,
      )

  -- A ticket with a greater nonce that opens under the master key is taken: the key in it becomes the
  -- session key, its nonce the last master nonce, the session nonce is 1, requests are awaited with an
  -- empty buffer, and the battery's code is answered, sealed under the new key and nonce.
  pub process_ticket_msg-accepted :
      value m.master_nonce_eeprom < value (nonce_of m)
      → (opened_ticket box m).0 ≡ 0
      → process_ticket_msg box bg ws low_battery m
        ≡ (send_response bg ws
                (sealed_byte box (ticket_code low_battery) first_nonce (session_key_of box m))
              >> pure 0)
            ticket_taken
  unfolding process_ticket_msg
  process_ticket_msg-accepted lt opens =
      rw
        (
          slice-nonce wf,
          ticket_nonce_value wf,
          lt→ltb _ _ lt,
          slice-box wf 48 (omega arith),
          decrypts box doc bg ws low_battery m wf,
          opens,
        )
        accept_ticket_lem
