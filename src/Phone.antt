-- ===== src/Phone.antt =====
-- The phone's side of the protocol, in android/EsloqApp/app/src/main/java/com/esloq/esloqapp:
-- Cryptography.java, incrementByteArray of util/Tools.java, the codes of lock/LockResponseCode.java,
-- and handleMessage and sendEncryptedMessage of lock/BluetoothService.java. A `byte` is its bit
-- pattern, from 0 to 255.
pub mod Increment
pub mod Opening
pub mod Reading
pub mod Notified
pub mod Faults
pub mod Controller
use esloq.Base.{
  ℕ, zero, suc, ◌+◌, ◌-◌, ◌*◌, ◌%◌, ◌^◌, List, [], ◌∷◌, ◌++◌, Bool, Option, none, some, ltb, ◌==◌,
  if◌then◌else◌, length, get_elem?, set, take, drop, replicate, copy_into,
}
use esloq.Crypto.{SecretBox, key_len}
use esloq.Nonce.{nonce_len}
use esloq.Nonce.Order.{value}
use esloq.Lock.State.{ticket_len}
use esloq.Wrappers.{jni_encrypt, jni_decrypt}

-- The exceptions that are thrown.
pub data Thrown : Type 0 where
  illegal_argument index_out_of_bounds buffer_overflow no_message null_pointer : Thrown

pub data Tried (A : Type 0) : Type 0 where
  gave : A → Tried A
  threw : Thrown → Tried A

infixl 5 ◌>>=◌
abbrev pub ◌>>=◌ : {A B : Type 0} → Tried A → (A → Tried B) → Tried B
gave a >>= f = f a
threw e >>= f = threw e

abbrev pub or_throw : {A : Type 0} → Thrown → Option A → Tried A
or_throw e none = threw e
or_throw e (some a) = gave a

-- A `ByteBuffer` of 41 bytes.
pub record IncomingMessageBuffer : Type 0 where
  pub position : ℕ
  pub bytes : List ℕ

-- The static fields; `none` is null.
pub record Phone : Type 0 where
  pub lock_ticket : Option (List ℕ)
  pub session_key : Option (List ℕ)
  pub session_nonce : List ℕ
  pub incoming : IncomingMessageBuffer

-- INCOMING_MESSAGE_LENGTH
abbrev pub incoming_message_length : ℕ
incoming_message_length = 41

-- Byte.MAX_VALUE is 127; `++` on a byte wraps.
unfoldable pub increment_at_index : List ℕ → ℕ → Tried (List ℕ)
increment_at_index array zero = elim (get_elem? array 0) [
  | none ↦ threw index_out_of_bounds
  | some b ↦ if b == 127 then gave (set array 0 0) else gave (set array 0 ((b + 1) % 256))
]
increment_at_index array (suc index) =
    let carried = increment_at_index (set array (suc index) 0) index in
    elim (get_elem? array (suc index)) [
      | none ↦ threw index_out_of_bounds
      | some b ↦ if b == 127 then carried else gave (set array (suc index) ((b + 1) % 256))
    ]

-- The index of the last byte of an empty array is -1.
unfoldable pub increment_byte_array : List ℕ → Tried (List ℕ)
increment_byte_array [] = threw index_out_of_bounds
increment_byte_array (b ∷ bs) = increment_at_index (b ∷ bs) (length bs)

-- A `BigInteger` of bytes is negative if the first of them is above 127. Numbers of as many bytes are
-- in the order of those with 128 added to the first byte.
unfoldable pub biased : List ℕ → List ℕ
biased [] = []
biased (b ∷ bs) = (b + 128) % 256 ∷ bs

unfoldable pub is_valid_session_nonce : List ℕ → List ℕ → Tried Bool
unfolding biased
is_valid_session_nonce session_nonce nonce =
    if length nonce == nonce_len
    then gave (ltb (value (biased session_nonce)) (value (biased nonce)))
    else threw illegal_argument

unfoldable pub set_session_nonce : List ℕ → Phone → Tried Phone
unfolding is_valid_session_nonce
set_session_nonce nonce phone = do
  valid ← is_valid_session_nonce phone.session_nonce nonce
  if valid then gave (record phone { session_nonce = nonce }) else threw illegal_argument

unfoldable pub set_session_key : List ℕ → Phone → Tried Phone
set_session_key key phone =
    if length key == key_len
    then gave (record phone {
      session_key = some key;
      session_nonce = replicate (length phone.session_nonce) 0;
    })
    else threw illegal_argument

unfoldable pub set_lock_ticket : List ℕ → Phone → Tried Phone
set_lock_ticket ticket phone =
    if length ticket == ticket_len
    then gave (record phone { lock_ticket = some ticket })
    else threw illegal_argument

-- The field keeps the nonce that it was incremented to.
unfoldable pub auth_encrypt : SecretBox → List ℕ → Phone → Tried (Phone × List ℕ)
auth_encrypt box plaintext phone = do
  nonce ← increment_byte_array phone.session_nonce
  key ← or_throw null_pointer phone.session_key
  gave (record phone { session_nonce = nonce }, jni_encrypt box plaintext nonce key)

unfoldable pub auth_decrypt : SecretBox → List ℕ → Phone → Tried (List ℕ)
auth_decrypt box ciphertext phone = do
  key ← or_throw null_pointer phone.session_key
  gave (jni_decrypt box ciphertext phone.session_nonce key)

-- The message that is written to the lock.
unfoldable pub send_encrypted_message : SecretBox → List ℕ → Phone → Tried (Phone × List ℕ)
unfolding auth_encrypt
send_encrypted_message box message phone = do
  nonce ← increment_byte_array phone.session_nonce
  r ← auth_encrypt box message phone
  gave (r.0, nonce ++ r.1)

pub data LockResponseCode : Type 0 where
  unlocked locked ticket_rcv_success ticket_rcv_failure : LockResponseCode
  ticket_rcv_success_low_bat invalid_request : LockResponseCode

-- The argument is the bit pattern of an `int`.
unfoldable pub from_integer : ℕ → Tried LockResponseCode
from_integer integer =
    if integer == 0
    then gave LockResponseCode.unlocked
    else if integer == 1
    then gave LockResponseCode.locked
    else if integer == 4
    then gave LockResponseCode.ticket_rcv_success
    else if integer == 5
    then gave LockResponseCode.ticket_rcv_failure
    else if integer == 6
    then gave LockResponseCode.ticket_rcv_success_low_bat
    else if integer == 255
    then gave LockResponseCode.invalid_request
    else threw illegal_argument

-- A byte where an `int` is expected.
unfoldable pub sign_extend : ℕ → ℕ
sign_extend b = if ltb b 128 then b else b + (2 ^ 32 - 256)

-- `ByteBuffer.put`
unfoldable pub put : List ℕ → IncomingMessageBuffer → Tried IncomingMessageBuffer
put message buffer = do
  bytes ← or_throw buffer_overflow (copy_into buffer.bytes buffer.position message)
  gave (record { position = buffer.position + length message; bytes = bytes })

unfoldable pub received : List ℕ → IncomingMessageBuffer → Tried IncomingMessageBuffer
unfolding put
received message buffer =
    if buffer.position == 40
    then (or_throw index_out_of_bounds (get_elem? message 0) >>= λ b. put (b ∷ []) buffer)
    else put message buffer

-- The part for a whole message; the fields keep what they were set to before an exception.
unfoldable pub process_message : SecretBox → List ℕ → Phone → Phone × Tried LockResponseCode
unfolding set_session_nonce auth_decrypt from_integer sign_extend
process_message box message phone = elim (set_session_nonce (take nonce_len message) phone) [
  | threw e ↦ (phone, threw e)
  | gave phone' ↦ (
    phone',
    auth_decrypt box (take 17 (drop nonce_len message)) phone' >>= λ plaintext.
        or_throw no_message (get_elem? plaintext 0) >>= λ code. from_integer (sign_extend code),
  )
]

-- The code that is broadcast; `none` where the message is not complete.
unfoldable pub handle_message : SecretBox → List ℕ → Phone → Phone × Tried (Option LockResponseCode)
unfolding received process_message
handle_message box message phone = elim (received message phone.incoming) [
  | threw e ↦ (phone, threw e)
  | gave buffer ↦
      let cleared = record phone { incoming = record { position = 0; bytes = buffer.bytes } } in
      let r = process_message box buffer.bytes cleared in
      if buffer.position == incoming_message_length
      then (r.0, r.1 >>= λ code. gave (some code))
      else (record phone { incoming = buffer }, gave none)
]
