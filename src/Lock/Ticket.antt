-- ===== src/Lock/Ticket.antt =====
-- `process_ticket_msg` of firmware/avr/src/main.c.
pub mod Branches
pub mod Replay
pub mod Steady
use esloq.Base.{
  ℕ, ◌+◌, List, [], ◌∷◌, Bool, Outcome, ok, in_bounds, ◌==◌, if◌then◌else◌, replicate, slice, set,
}
use esloq.Crypto.{SecretBox, crypto_auth_encrypt, crypto_auth_decrypt, key_len}
use esloq.Nonce.{is_valid_ticket_nonce, increment_array, nonce_len}
use esloq.Uart.{Window}
use esloq.Lock.State.{
  State, Machine, BgLib, ticket_len, ticket_rcv_success, ticket_rcv_success_low_bat,
}
use esloq.Lock.Monad.{M, ◌>>=◌, ◌>>◌, pure, lift, get, modify}
use esloq.Lock.Respond.{reset_msg_buffer, response, send_response}

-- The part after the decryption of `m`: store the session key, begin a new session nonce, answer.
-- The flag is the battery alert as it is read.
unfoldable pub accept_ticket : SecretBox → BgLib → List Window → Bool → List ℕ → M ℕ
accept_ticket box bg ws low_battery m = do
  key ← lift (in_bounds (slice m 0 key_len))
  modify (λ s. record s { session_key = key; session_nonce = replicate nonce_len 0 })
  s ← get
  nonce ← lift (increment_array s.session_nonce nonce_len)
  modify (λ s'. record s' { session_nonce = nonce })
  let code = if low_battery then ticket_rcv_success_low_bat else ticket_rcv_success
  sealed ← lift (crypto_auth_encrypt box (set m 0 code) 1 nonce key)
  if sealed.0 == 0
      then (do
        rsp ← lift (response nonce sealed.1)
        modify (λ s'. record (reset_msg_buffer s') { state = State.request_w })
        send_response bg ws rsp
        pure 0)
      else pure 3

-- 0 processed, 1 invalid nonce, 2 decryption failed, 3 encryption failed.
unfoldable pub process_ticket_msg : SecretBox → BgLib → List Window → Bool → M ℕ
process_ticket_msg box bg ws low_battery = do
  s ← get
  nonce ← lift (in_bounds (slice s.msg_buf.bytes 0 nonce_len))
  valid ← lift (is_valid_ticket_nonce nonce s.master_nonce_eeprom)
  if valid == 0 then pure 1 else (do
    modify (λ s'. record s' { master_nonce_eeprom = nonce })
    c ← lift (in_bounds (slice s.msg_buf.bytes nonce_len 48))
    opened ← lift (crypto_auth_decrypt box c 48 nonce s.master_key_eeprom)
    if opened.0 == 0 then accept_ticket box bg ws low_battery opened.1 else pure 2)
