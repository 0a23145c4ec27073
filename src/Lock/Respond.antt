-- ===== src/Lock/Respond.antt =====
-- The response to a ticket or a request in firmware/avr/src/main.c: its 41 bytes, and the first of
-- the three writes that carry it to the Bluetooth module.
pub mod Keeps
pub mod Sections
pub mod Steady
pub mod Delivery
use esloq.Base.{
  ℕ, List, [], ◌∷◌, Outcome, ok, in_bounds, replicate, slice, copy_into, ◌>>=◌ as bind,
}
use esloq.Nonce.{nonce_len}
use esloq.Uart.{Window}
use esloq.Lock.State.{Machine, BgLib, attributes_write, invalid_request, lock_transmit}
use esloq.Lock.Monad.{M, ◌>>=◌, ◌>>◌, pure, lift, get, modify}
use esloq.Lock.Send.{ble_cmd}

-- `uint8_t rsp[RESPONSE_LEN] = {INVALID_REQUEST}`
abbrev pub rsp_init : List ℕ
rsp_init = invalid_request ∷ replicate 40 0

unfoldable pub reset_msg_buffer : Machine → Machine
reset_msg_buffer m = record m { msg_buf = record { len = 0; bytes = m.msg_buf.bytes } }

-- `memcpy(rsp, session_nonce, NONCE_LEN)` and `memcpy(rsp+NONCE_LEN, c, AUTH_LEN + rsp_len)`
unfoldable pub response : List ℕ → List ℕ → Outcome (List ℕ)
response nonce c =
    bind (in_bounds (copy_into rsp_init 0 nonce)) (λ rsp. in_bounds (copy_into rsp nonce_len c))

-- The `len` bytes that the module reads from `att_write_buffer.data + off`.
unfoldable pub write_section : BgLib → List Window → ℕ → ℕ → M (Unit {0})
write_section bg ws off len = do
  m ← get
  section ← lift (in_bounds (slice m.att_write_buffer.bytes off len))
  ble_cmd bg ws (attributes_write lock_transmit 0 len section)

-- The last three statements of both functions.
unfoldable pub send_response : BgLib → List Window → List ℕ → M (Unit {0})
send_response bg ws rsp = do
  modify (λ m. record m {
    att_write_buffer = record { section_sent = m.att_write_buffer.section_sent; bytes = rsp };
  })
  write_section bg ws 0 20
  modify (λ m. record m {
    att_write_buffer = record { section_sent = 0; bytes = m.att_write_buffer.bytes };
  })
