-- ===== src/Wrappers/Agree.antt =====
-- The phone, the server and the lock encrypt alike, and each opens what another has sealed.
use esloq.Base.{
  false, ℕ, ◌+◌, ◌-◌, ◌%◌, ◌^◌, ◌≤◌, ◌<◌, ◌≡◌, sym, ◌∙◌, ap, List, ◌++◌, some, ok, ◌==◌, leb,
  length, take, drop, replicate, slice_lem, slice-all, take-all, length-drop, length-append,
  take-append-drop, take-append, arith, ne→==,
}
use esloq.Crypto.{SecretBox, IsSecretBox, crypto_auth_encrypt}
use esloq.Crypto.RoundTrip.{crypto_auth_encrypt_lem}
use esloq.Wrappers.{jni_encrypt, jni_decrypt, auth_encrypt, auth_decrypt}

module _ (box : SecretBox) (doc : IsSecretBox box) (m n k : List ℕ) (some_bytes : 1 ≤ length m)
    (nonce24 : length n ≡ 24) (key32 : length k ≡ 32) where
  abbrev pub padded : List ℕ
  padded = replicate 32 0 ++ m

  abbrev pub sealed : List ℕ
  sealed = (box.secretbox padded n k).1

  length-padded : length padded ≡ 32 + length m
  length-padded = length-append (replicate 32 0) m

  padded-zeros : take 32 padded ≡ replicate 32 0
  padded-zeros = take-append (replicate 32 0) m

  seals : (box.secretbox padded n k).0 ≡ 0
  seals = doc.secretbox_code padded n k (omega (arith, length-padded)) padded-zeros

  length-sealed : length sealed ≡ 32 + length m
  length-sealed = doc.length-secretbox padded n k ∙ length-padded

  not_empty : (length m == 0) ≡ false
  not_empty = ne→== _ _ (λ e. absurd (omega arith))

  pub phone_encrypt : jni_encrypt box m n k ≡ drop 16 sealed
  unfolding jni_encrypt
  phone_encrypt =
      rw (not_empty, nonce24, key32, seals)
        (take-all (length m + 16) (drop 16 sealed)
          (omega (arith, length-drop 16 sealed, length-sealed)))

  pub server_encrypt : auth_encrypt box m n k ≡ ok (some (drop 16 sealed))
  unfolding auth_encrypt
  server_encrypt = rw (
    slice-all n 24 (sym nonce24),
    slice-all k 32 (sym key32),
    slice_lem sealed 16 (length m + 16) (omega (arith, length-sealed)),
    seals,
    take-all (length m + 16) (drop 16 sealed) (omega (arith, length-drop 16 sealed, length-sealed)),
  )

  -- What is sealed begins with 16 zeros, so that putting them back gives the sealed buffer.
  zeros_back : replicate 16 0 ++ drop 16 sealed ≡ sealed
  zeros_back =
      ap (λ z. z ++ drop 16 sealed)
        (sym (doc.secretbox_zeros padded n k (omega (arith, length-padded)) padded-zeros))
      ∙ take-append-drop 16 sealed

  pub opens : box.secretbox_open (replicate 16 0 ++ drop 16 sealed) n k ≡ (0, padded)
  opens =
      ap (λ c. box.secretbox_open c n k) zeros_back
      ∙ doc.secretbox_open-secretbox padded n k (omega (arith, length-padded)) padded-zeros

  pub length-body : length (drop 16 sealed) ≡ length m + 16
  length-body = omega (arith, length-drop 16 sealed, length-sealed)

  pub phone_decrypt : jni_decrypt box (drop 16 sealed) n k ≡ m
  unfolding jni_decrypt
  phone_decrypt =
      rw (length-body, long_enough, nonce24, key32, opens)
        (take-all (length m + 16 - 16) m (omega arith))
    where
      long_enough : leb (length m + 16) 16 ≡ false
      long_enough = ground arith

  server_decrypt : length m + 16 < 2 ^ 32 → auth_decrypt box (drop 16 sealed) n k ≡ ok (some m)
  unfolding auth_decrypt
  server_decrypt fits = rw (
    slice-all n 24 (sym nonce24),
    slice-all k 32 (sym key32),
    opens,
    length-body,
    slice_lem padded 32 ((length m + 16 + 2 ^ 32 - 16) % 2 ^ 32) (omega (arith, length-padded)),
    take-all ((length m + 16 + 2 ^ 32 - 16) % 2 ^ 32) m (omega arith),
  )

-- A message of 1 to 40 bytes is sealed to the same bytes, without an error, by the lock, the phone
-- and the server, for a nonce of 24 bytes and a key of 32; and the phone and the server each open
-- them to the message again.
pub wrappers-agree :
    (box : SecretBox)
    → IsSecretBox box
    → (m n k : List ℕ) → 1 ≤ length m
    → length m ≤ 40
    → length n ≡ 24
    → length k ≡ 32
    → (c : List ℕ) × (crypto_auth_encrypt box m (length m) n k ≡ ok (0, c))
      × (jni_encrypt box m n k ≡ c)
      × (auth_encrypt box m n k ≡ ok (some c))
      × (jni_decrypt box c n k ≡ m)
      × (auth_decrypt box c n k ≡ ok (some m))
wrappers-agree box doc m n k some_bytes short nonce24 key32 = (
  drop 16 (sealed box doc m n k some_bytes nonce24 key32),
  crypto_auth_encrypt_lem box doc m n k short nonce24 key32
      ∙ ap (λ code. ok (code, drop 16 (sealed box doc m n k some_bytes nonce24 key32)))
          (seals box doc m n k some_bytes nonce24 key32),
  phone_encrypt box doc m n k some_bytes nonce24 key32,
  server_encrypt box doc m n k some_bytes nonce24 key32,
  phone_decrypt box doc m n k some_bytes nonce24 key32,
  server_decrypt box doc m n k some_bytes nonce24 key32 (omega arith),
)
