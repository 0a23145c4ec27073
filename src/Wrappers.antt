-- ===== src/Wrappers.antt =====
-- The same encryption on the two other sides: for the phone, encrypt and decrypt of
-- android/EsloqApp/app/src/main/jni/crypto_nacl_jni.c, and for the server, auth_encrypt and
-- auth_decrypt of webserver/esloq/lib/nacl_module/naclmodule.c. NaCl is the parameter `SecretBox`;
-- JNI and Python hand over byte arrays.
pub mod Agree
use esloq.Base.{
  ℕ, ◌+◌, ◌-◌, ◌%◌, ◌^◌, List, [], ◌++◌, ◌||◌, not, Option, none, some, Outcome, ok, in_bounds,
  ◌>>=◌, ◌==◌, leb, if◌then◌else◌, length, take, drop, replicate, slice,
}
use esloq.Crypto.{SecretBox, auth_len, key_len, zero_bytes, box_zero_bytes}
use esloq.Nonce.{nonce_len}

-- An empty array is returned on an error.
unfoldable pub jni_encrypt : SecretBox → List ℕ → List ℕ → List ℕ → List ℕ
jni_encrypt box message nonce key =
    let mlen = length message in
    let clen = mlen + auth_len in
    if mlen == 0 || (not (length nonce == nonce_len) || not (length key == key_len))
    then []
    else (let r = box.secretbox (replicate zero_bytes 0 ++ message) nonce key in
        if r.0 == 0 then take clen (drop box_zero_bytes r.1) else [])

-- `clen` is above 16 where `mlen` is used.
unfoldable pub jni_decrypt : SecretBox → List ℕ → List ℕ → List ℕ → List ℕ
jni_decrypt box ciphertext nonce key =
    let clen = length ciphertext in
    let mlen = clen - auth_len in
    if leb clen auth_len || (not (length nonce == nonce_len) || not (length key == key_len))
    then []
    else (let r = box.secretbox_open (replicate box_zero_bytes 0 ++ ciphertext) nonce key in
        if r.0 == 0 then take mlen (drop zero_bytes r.1) else [])

-- The lengths of nonce and key are not looked at; `none` is NULL.
unfoldable pub auth_encrypt : SecretBox → List ℕ → List ℕ → List ℕ → Outcome (Option (List ℕ))
auth_encrypt box m n k = do
  nonce ← in_bounds (slice n 0 nonce_len)
  key ← in_bounds (slice k 0 key_len)
  let r = box.secretbox (replicate zero_bytes 0 ++ m) nonce key
  c ← in_bounds (slice r.1 box_zero_bytes (length m + auth_len))
  if r.0 == 0 then ok (some c) else ok none

-- `mlen` is an `unsigned int` and wraps for a ciphertext shorter than 16.
pub auth_decrypt : SecretBox → List ℕ → List ℕ → List ℕ → Outcome (Option (List ℕ))
auth_decrypt box c n k = do
  nonce ← in_bounds (slice n 0 nonce_len)
  key ← in_bounds (slice k 0 key_len)
  let mlen = (length c + 2 ^ 32 - auth_len) % 2 ^ 32
  let r = box.secretbox_open (replicate box_zero_bytes 0 ++ c) nonce key
  let m = in_bounds (slice r.1 zero_bytes mlen)
  if r.0 == 0 then (m >>= λ plain. ok (some plain)) else ok none
