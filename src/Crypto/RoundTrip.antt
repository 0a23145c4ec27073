-- ===== src/Crypto/RoundTrip.antt =====
-- The wrappers add and strip the zeros that NaCl asks for: they stay inside their buffers, and what
-- was encrypted is decrypted again.
use esloq.Base.{
  some, slice, ℕ, ◌+◌, ◌-◌, ◌%◌, ◌^◌, ◌≤◌, ◌≡◌, refl, sym, ◌∙◌, ap, List, ◌++◌, ok, take, drop,
  length, replicate, arith, slice-all, slice-copied_prefix, copy_into_lem, length-append,
  length-drop, take-append-drop, slice-drop, take-append,
}
use esloq.Crypto.{
  SecretBox, IsSecretBox, crypto_max_mlen, zero_bytes, box_zero_bytes, auth_len, key_len,
  crypto_auth_encrypt, crypto_auth_decrypt,
}

abbrev pub zeros : ℕ → List ℕ
zeros n = replicate n 0

module _ (box : SecretBox) (doc : IsSecretBox box) (m n k : List ℕ) (short : length m ≤ 40)
    (nonce24 : length n ≡ 24) (key32 : length k ≡ 32) where
  abbrev pub padded : List ℕ
  padded = zeros 32 ++ m

  abbrev boxed : List ℕ
  boxed = (box.secretbox padded n k).1

  length-padded : length padded ≡ 32 + length m
  length-padded = omega (arith, length-append (zeros 32) m)

  padded-zeros : take 32 padded ≡ zeros 32
  padded-zeros = take-append (zeros 32) m

  length-boxed : length boxed ≡ 32 + length m
  length-boxed = doc.length-secretbox padded n k ∙ length-padded

  -- The box without its leading zeros is what the caller of the encryption gets.
  pub crypto_auth_encrypt_lem :
      crypto_auth_encrypt box m (length m) n k
      ≡ ok ((box.secretbox padded n k).0, drop box_zero_bytes boxed)
  unfolding crypto_auth_encrypt
  crypto_auth_encrypt_lem = rw (
    slice-all m (length m) refl,
    copy_into_lem (zeros 72) m 32 (omega arith),
    slice-copied_prefix (zeros 72) m 32 (length m + 32) (omega arith) (omega arith),
    slice-all n 24 (sym nonce24),
    slice-all k 32 (sym key32),
    copy_into_lem (zeros 72) boxed 0 (omega (arith, length-boxed)),
    slice-drop boxed (drop (0 + length boxed) (zeros 72)) 16 (length m + 16)
        (omega (arith, length-boxed)),
  )

module _ (box : SecretBox) (doc : IsSecretBox box) (c n k : List ℕ) (tagged : 16 ≤ length c)
    (short : length c ≤ 56) (nonce24 : length n ≡ 24) (key32 : length k ≡ 32) where
  abbrev pub opened : ℕ × List ℕ
  opened = box.secretbox_open (zeros 16 ++ c) n k

  length-opened : length opened.1 ≡ 16 + length c
  length-opened =
      omega (arith, doc.length-secretbox_open (zeros 16 ++ c) n k, length-append (zeros 16) c)

  -- The opened box without its leading zeros is what the caller of the decryption gets, together
  -- with the code of `crypto_secretbox_open`, whatever the code is.
  pub crypto_auth_decrypt_lem :
      crypto_auth_decrypt box c (length c) n k ≡ ok (opened.0, drop zero_bytes opened.1)
  unfolding crypto_auth_decrypt
  crypto_auth_decrypt_lem = rw (
    slice-all c (length c) refl,
    copy_into_lem (zeros 72) c 16 (omega arith),
    slice-copied_prefix (zeros 72) c 16 (length c + 16) (omega arith) (omega arith),
    slice-all n 24 (sym nonce24),
    slice-all k 32 (sym key32),
    copy_into_lem (zeros 72) opened.1 0 (omega (arith, length-opened)),
    slice-drop opened.1 (drop (0 + length opened.1) (zeros 72)) 32
        ((length c + 2 ^ 16 - 16) % 2 ^ 16) (omega (arith, length-opened)),
  )

  pub length-decrypted : length (drop zero_bytes opened.1) + 16 ≡ length c
  length-decrypted = omega (arith, length-opened, length-drop 32 opened.1)

-- Of the buffer `m` only the first `mlen` bytes are read.
pub crypto_auth_encrypt-slice :
    (box : SecretBox) (m part n k : List ℕ) (mlen : ℕ)
    → slice m 0 mlen ≡ some part
    → mlen ≡ length part
    → crypto_auth_encrypt box m mlen n k ≡ crypto_auth_encrypt box part (length part) n k
unfolding crypto_auth_encrypt
crypto_auth_encrypt-slice box m part n k mlen e el = rw (e, slice-all part (length part) refl, el)

-- A message of at most 40 bytes is encrypted, with a 24-byte nonce and a 32-byte key, by code 0
-- into 16 bytes more than it has, and decrypting those under the same nonce and key gives code 0
-- and the message; neither wrapper leaves its buffers.
pub crypto_auth_decrypt-encrypt :
    (box : SecretBox)
    → IsSecretBox box
    → (m n k : List ℕ) → length m ≤ crypto_max_mlen
    → length n ≡ 24
    → length k ≡ key_len
    → (c : List ℕ) × (crypto_auth_encrypt box m (length m) n k ≡ ok (0, c))
      × (length c ≡ length m + auth_len)
      × (crypto_auth_decrypt box c (length m + auth_len) n k ≡ ok (0, m))
crypto_auth_decrypt-encrypt box doc m n k short nonce24 key32 = (
  c,
  crypto_auth_encrypt_lem box doc m n k short nonce24 key32 ∙ ap (λ r. ok (r, c)) code,
  length_c,
  ap (λ l. crypto_auth_decrypt box c l n k) (sym length_c)
      ∙ crypto_auth_decrypt_lem box doc c n k (omega (arith, length_c)) (omega (arith, length_c))
          nonce24 key32
      ∙ ap (λ (r : ℕ × List ℕ). ok (r.0, drop 32 r.1)) open_c,
)
  where
    p : List ℕ
    p = padded box doc m n k short nonce24 key32

    b : List ℕ
    b = (box.secretbox p n k).1

    c : List ℕ
    c = drop 16 b

    long : 32 ≤ length p
    long = omega (arith, length-append (zeros 32) m)

    code : (box.secretbox p n k).0 ≡ 0
    code = doc.secretbox_code p n k long refl

    length_c : length c ≡ length m + 16
    length_c =
        omega (arith, length-drop 16 b, doc.length-secretbox p n k, length-append (zeros 32) m)

    rebuilt : zeros 16 ++ c ≡ b
    rebuilt = ap (λ z. z ++ c) (sym (doc.secretbox_zeros p n k long refl)) ∙ take-append-drop 16 b

    open_c : box.secretbox_open (zeros 16 ++ c) n k ≡ (0, p)
    open_c =
        ap (λ l. box.secretbox_open l n k) rebuilt ∙ doc.secretbox_open-secretbox p n k long refl
