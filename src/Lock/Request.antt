-- ===== src/Lock/Request.antt =====
-- `process_request_msg` of firmware/avr/src/main.c.
pub mod Branches
pub mod Safety
pub mod Steady
use esloq.Base.{
  ℕ, ◌+◌, List, [], ◌∷◌, Bool, Outcome, ok, halted, in_bounds, ◌==◌, if◌then◌else◌, replicate,
  slice, get_elem?,
}
use esloq.Crypto.{SecretBox, crypto_auth_encrypt, crypto_auth_decrypt}
use esloq.Mcu.{Mcu}
use esloq.Motor.{Rotation, rotate_motor_cw, rotate_motor_ccw}
use esloq.Nonce.{is_valid_session_nonce, increment_array, nonce_len}
use esloq.Uart.{Window, arrive}
use esloq.Lock.State.{State, Machine, BgLib, invalid_request, rotate_ccw, rotate_cw}
use esloq.Lock.Monad.{M, ◌>>=◌, ◌>>◌, pure, lift, get, modify}
use esloq.Lock.Respond.{reset_msg_buffer, response, send_response}

-- A motor call on the registers, with the bytes that arrive while it runs.
unfoldable pub rotating : (Rotation → Mcu → Outcome (Mcu × ℕ)) → Rotation → M ℕ
rotating rotate rotation s = elim (rotate rotation s.uart.mcu) [
  | ok r ↦ (
    record s { uart = record s.uart { mcu = r.0; rx = arrive rotation.arrivals s.uart.rx } },
    ok r.1,
  )
  | halted stop ↦ (s, halted stop)
]

-- The `switch` on the decrypted byte.
unfoldable pub serve : Rotation → ℕ → M ℕ
unfolding rotating
serve rotation request =
    if request == rotate_cw
    then rotating rotate_motor_cw rotation
    else if request == rotate_ccw
    then rotating rotate_motor_ccw rotation
    else pure invalid_request

-- The part after the `switch`: answer under the next session nonce.
unfoldable pub answer : SecretBox → BgLib → List Window → ℕ → M ℕ
answer box bg ws rsp_code = do
  s ← get
  nonce ← lift (increment_array s.session_nonce nonce_len)
  modify (λ s'. record s' { session_nonce = nonce })
  sealed ← lift (crypto_auth_encrypt box (rsp_code ∷ []) 1 nonce s.session_key)
  if sealed.0 == 0
      then (do
        rsp ← lift (response nonce sealed.1)
        modify reset_msg_buffer
        send_response bg ws rsp
        pure 0)
      else pure 3

-- 0 processed, 1 invalid nonce, 2 decryption failed, 3 encryption failed.
unfoldable pub process_request_msg : SecretBox → BgLib → List Window → Rotation → M ℕ
unfolding serve answer
process_request_msg box bg ws rotation = do
  modify (λ s. record s { state = State.request_w })
  s ← get
  nonce ← lift (in_bounds (slice s.msg_buf.bytes 0 nonce_len))
  valid ← lift (is_valid_session_nonce nonce s.session_nonce)
  if valid == 0 then pure 1 else (do
    modify (λ s'. record s' { session_nonce = nonce })
    c ← lift (in_bounds (slice s.msg_buf.bytes nonce_len 17))
    opened ← lift (crypto_auth_decrypt box c 17 nonce s.session_key)
    if opened.0 == 0
        then (do
          request ← lift (in_bounds (get_elem? opened.1 0))
          rsp_code ← serve rotation request
          answer box bg ws rsp_code)
        else pure 2)
