-- ===== src/Crypto.antt =====
-- firmware/avr/src/crypto.c: the wrappers round the authenticated encryption of avrnacl, which is a
-- parameter (`SecretBox`), with what NaCl documents of it as named hypotheses (`IsSecretBox`).
pub mod RoundTrip
use esloq.Base.{
  ℕ, ◌+◌, ◌-◌, ◌%◌, ◌^◌, ◌≤◌, ◌≡◌, List, Outcome, ok, in_bounds, ◌>>=◌, take, length, replicate,
  slice, copy_into,
}

-- `crypto_secretbox` and `crypto_secretbox_open`: message (with its leading zeros), nonce and key to
-- the returned code and the buffer that is written, which is as long as the message.
pub record SecretBox : Type 0 where
  pub secretbox : List ℕ → List ℕ → List ℕ → ℕ × List ℕ
  pub secretbox_open : List ℕ → List ℕ → List ℕ → ℕ × List ℕ

abbrev pub zero_bytes : ℕ
zero_bytes = 32

abbrev pub box_zero_bytes : ℕ
box_zero_bytes = 16

abbrev pub auth_len : ℕ
auth_len = 16

abbrev pub key_len : ℕ
key_len = 32

-- What the documentation of NaCl says: a message that begins with 32 zeros is encrypted with code 0
-- to a box that begins with 16 zeros, and opening that box gives code 0 and the message again.
-- Outputs are as long as inputs.
pub record IsSecretBox (box : SecretBox) : Type 0 where
  pub length-secretbox : (m n k : List ℕ) → length (box.secretbox m n k).1 ≡ length m
  pub length-secretbox_open : (c n k : List ℕ) → length (box.secretbox_open c n k).1 ≡ length c
  pub secretbox_code :
      (m n k : List ℕ)
      → zero_bytes ≤ length m
      → take zero_bytes m ≡ replicate zero_bytes 0
      → (box.secretbox m n k).0 ≡ 0
  pub secretbox_zeros :
      (m n k : List ℕ)
      → zero_bytes ≤ length m
      → take zero_bytes m ≡ replicate zero_bytes 0
      → take box_zero_bytes (box.secretbox m n k).1 ≡ replicate box_zero_bytes 0
  pub secretbox_open-secretbox :
      (m n k : List ℕ)
      → zero_bytes ≤ length m
      → take zero_bytes m ≡ replicate zero_bytes 0
      → box.secretbox_open (box.secretbox m n k).1 n k ≡ (0, m)

abbrev pub crypto_max_mlen : ℕ
crypto_max_mlen = 40

abbrev crypto_max_clen : ℕ
crypto_max_clen = crypto_max_mlen + auth_len

-- The code returned, and the bytes written to `c`.
unfoldable pub crypto_auth_encrypt : SecretBox → List ℕ → ℕ → List ℕ → List ℕ → Outcome (ℕ × List ℕ)
crypto_auth_encrypt box m mlen n k = do
  message ← in_bounds (slice m 0 mlen)
  m_secretbox ←
      in_bounds (copy_into (replicate (crypto_max_mlen + zero_bytes) 0) zero_bytes message)
  padded ← in_bounds (slice m_secretbox 0 (mlen + zero_bytes))
  nonce ← in_bounds (slice n 0 24)
  key ← in_bounds (slice k 0 key_len)
  let return_value = box.secretbox padded nonce key
  c_secretbox ←
      in_bounds (copy_into (replicate (crypto_max_clen + box_zero_bytes) 0) 0 return_value.1)
  c ← in_bounds (slice c_secretbox box_zero_bytes (mlen + auth_len))
  ok (return_value.0, c)

-- The code returned, and the bytes written to `m`. `clen-AUTH_LEN` becomes a `size_t` of 16 bits.
unfoldable pub crypto_auth_decrypt : SecretBox → List ℕ → ℕ → List ℕ → List ℕ → Outcome (ℕ × List ℕ)
crypto_auth_decrypt box c clen n k = do
  ciphertext ← in_bounds (slice c 0 clen)
  c_secretbox ←
      in_bounds
        (copy_into (replicate (crypto_max_clen + box_zero_bytes) 0) box_zero_bytes ciphertext)
  padded ← in_bounds (slice c_secretbox 0 (clen + box_zero_bytes))
  nonce ← in_bounds (slice n 0 24)
  key ← in_bounds (slice k 0 key_len)
  let return_value = box.secretbox_open padded nonce key
  m_secretbox ← in_bounds (copy_into (replicate (crypto_max_mlen + zero_bytes) 0) 0 return_value.1)
  m ← in_bounds (slice m_secretbox zero_bytes ((clen + 2 ^ 16 - auth_len) % 2 ^ 16))
  ok (return_value.0, m)
