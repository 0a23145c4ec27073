-- ===== src/Phone/Opening.antt =====
-- How the phone takes over the nonce of a response and opens it: setSessionNonce of
-- Cryptography.java and the part of handleMessage for a whole message.
use esloq.Base.{
  ℕ, ◌+◌, ◌%◌, ◌<◌, ◌≡◌, ◌∙◌, ap, List, [], ◌∷◌, length, get_elem?, some, take, drop, arith,
  length-take, length-drop, take-all, lt→ltb,
}
use esloq.Crypto.{SecretBox}
use esloq.Nonce.Order.{AllBytes, value, value-first_byte}
use esloq.Wrappers.{jni_decrypt}
use esloq.Phone.{
  Phone, gave, ◌>>=◌, or_throw, no_message, biased, is_valid_session_nonce, set_session_nonce,
  auth_decrypt, from_integer, sign_extend, process_message,
}
use esloq.Phone.Increment.{AllLow}

pub AllLow-AllBytes : (xs : List ℕ) → AllLow xs → AllBytes xs
AllLow-AllBytes [] h = tt
AllLow-AllBytes (x ∷ xs) h = (omega (arith, h.0), AllLow-AllBytes xs h.1)

-- Nonces of bytes under 128 are in the same order with signs.
pub biased-lt :
    (a b : List ℕ)
    → AllLow a
    → AllLow b
    → length a ≡ length b
    → value a < value b
    → value (biased a) < value (biased b)
unfolding biased
biased-lt [] [] la lb e lt = absurd (omega (arith, lt))
biased-lt [] (y ∷ ys) la lb e lt = absurd (omega arith)
biased-lt (x ∷ xs) [] la lb e lt = absurd (omega arith)
biased-lt (x ∷ xs) (y ∷ ys) la lb e lt =
    let ex : (x + 128) % 256 ≡ x + 128 = omega (arith, la.0) in
    let ey : (y + 128) % 256 ≡ y + 128 = omega (arith, lb.0) in
    rw (ex, ey)
      (value-first_byte 128 x y xs ys (AllLow-AllBytes xs la.1) (AllLow-AllBytes ys lb.1)
        (omega arith) lt)

pub set_session_nonce-greater :
    (nonce : List ℕ) (phone : Phone)
    → AllLow phone.session_nonce
    → AllLow nonce
    → length phone.session_nonce ≡ 24
    → length nonce ≡ 24
    → value phone.session_nonce < value nonce
    → set_session_nonce nonce phone ≡ gave (record phone { session_nonce = nonce })
unfolding set_session_nonce is_valid_session_nonce
set_session_nonce-greater nonce phone low low' e24 n24 lt =
    rw (n24, lt→ltb _ _ (biased-lt phone.session_nonce nonce low low' (omega (arith, e24, n24)) lt))

-- A response under a greater nonce, of bytes under 128, is opened to its code.
pub process_message_lem :
    (box : SecretBox) (rsp key : List ℕ) (code : ℕ) (phone : Phone)
    → length rsp ≡ 41
    → phone.session_key ≡ some key
    → AllLow phone.session_nonce
    → AllLow (take 24 rsp)
    → length phone.session_nonce ≡ 24
    → value phone.session_nonce < value (take 24 rsp)
    → jni_decrypt box (drop 24 rsp) (take 24 rsp) key ≡ code ∷ []
    → process_message box rsp phone
      ≡ (record phone { session_nonce = take 24 rsp }, from_integer (sign_extend code))
unfolding process_message auth_decrypt
process_message_lem box rsp key code phone full has_key low low' e24 lt opens =
    let body : take 17 (drop 24 rsp) ≡ drop 24 rsp =
      take-all 17 (drop 24 rsp) (omega (arith, length-drop 24 rsp, full)) in
    let taken = record phone { session_nonce = take 24 rsp } in
    let set_nonce =
      set_session_nonce-greater (take 24 rsp) phone low low' e24
        (omega (arith, length-take 24 rsp, full)) lt in
    let opened : auth_decrypt box (take 17 (drop 24 rsp)) taken ≡ gave (code ∷ []) =
      rw (has_key, auth_decrypt)
        (ap gave (ap (λ c. jni_decrypt box c (take 24 rsp) key) body ∙ opens)) in
    let first : process_message box rsp phone ≡ (
      taken,
      auth_decrypt box (take 17 (drop 24 rsp)) taken >>= λ plaintext.
          or_throw no_message (get_elem? plaintext 0) >>= λ code. from_integer (sign_extend code),
    ) =
      rw (set_nonce, process_message) in
    first
    ∙ ap
        (λ t. (
          taken,
          t >>= λ plaintext. or_throw no_message (get_elem? plaintext 0) >>= λ code.
              from_integer (sign_extend code),
        ))
        opened
