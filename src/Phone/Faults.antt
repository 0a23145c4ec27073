-- ===== src/Phone/Faults.antt =====
-- Where the phone's code does not do what it means to.
use esloq.Base.{
  ℕ, zero, suc, ◌+◌, ◌<◌, ◌≤◌, ◌≡◌, refl, ◌∙◌, ap, List, [], ◌∷◌, ◌++◌, length, take, drop, some,
  arith, length-append, le→ltb, ne→==,
}
use esloq.Crypto.{SecretBox}
use esloq.Nonce.Order.{value}
use esloq.Wrappers.{jni_decrypt}
use esloq.Phone.{
  Phone, gave, threw, illegal_argument, increment_at_index, increment_byte_array, process_message,
  from_integer, sign_extend,
}
use esloq.Phone.Increment.{AllLow, value-snoc, read_at, write_at}
use esloq.Phone.Opening.{process_message_lem}

wraps_at :
    (p : List ℕ) (n : ℕ)
    → length p ≡ n
    → increment_at_index (p ++ (255 ∷ [])) n ≡ gave (p ++ (0 ∷ []))
unfolding increment_at_index
wraps_at p zero e = rw (read_at p 255 [] 0 e, write_at p 255 [] 0 e 0, increment_at_index)
wraps_at p (suc n) e =
    rw (read_at p 255 [] (suc n) e, write_at p 255 [] (suc n) e 0, increment_at_index)

-- The increment of a nonce whose last byte is 255 does not carry: the byte becomes 0, and the nonce
-- that the phone sends next is smaller by 255.
pub increment_byte_array-wraps :
    (p : List ℕ)
    → (increment_byte_array (p ++ (255 ∷ [])) ≡ gave (p ++ (0 ∷ [])))
      × (value (p ++ (0 ∷ [])) + 255 ≡ value (p ++ (255 ∷ [])))
unfolding increment_byte_array
increment_byte_array-wraps p = (by_front p, omega (arith, value-snoc p 0, value-snoc p 255))
  where
    by_front : (p : List ℕ) → increment_byte_array (p ++ (255 ∷ [])) ≡ gave (p ++ (0 ∷ []))
    by_front [] = wraps_at [] 0 refl
    by_front (x ∷ p) =
        ap (increment_at_index (x ∷ (p ++ (255 ∷ [])))) {y = suc (length p)}
          (omega (arith, length-append p (255 ∷ [])))
        ∙ wraps_at (x ∷ p) (suc (length p)) refl

from_integer-high :
    (code : ℕ) → 128 ≤ code → code < 256 → from_integer (sign_extend code) ≡ threw illegal_argument
unfolding from_integer sign_extend
from_integer-high code high small = rw (
  le→ltb code 128 high,
  ne→== (code + 4294967040) 0 (λ e. absurd (omega (arith, e))),
  ne→== (code + 4294967040) 1 (λ e. absurd (omega (arith, e))),
  ne→== (code + 4294967040) 4 (λ e. absurd (omega (arith, e))),
  ne→== (code + 4294967040) 5 (λ e. absurd (omega (arith, e))),
  ne→== (code + 4294967040) 6 (λ e. absurd (omega (arith, e))),
  ne→== (code + 4294967040) 255 (λ e. absurd (omega (arith, e))),
)

-- An authentic response under a greater nonce, of bytes under 128, to whose code the sign extends,
-- as it does to INVALID_REQUEST, is not recognised: its nonce is taken, and the exception of an
-- unknown code is thrown.
pub process_message-high :
    (box : SecretBox) (rsp key : List ℕ) (code : ℕ) (phone : Phone)
    → length rsp ≡ 41
    → phone.session_key ≡ some key
    → AllLow phone.session_nonce
    → AllLow (take 24 rsp)
    → length phone.session_nonce ≡ 24
    → value phone.session_nonce < value (take 24 rsp)
    → jni_decrypt box (drop 24 rsp) (take 24 rsp) key ≡ code ∷ []
    → 128 ≤ code
    → code < 256
    → process_message box rsp phone
      ≡ (record phone { session_nonce = take 24 rsp }, threw illegal_argument)
process_message-high box rsp key code phone full has_key low low' e24 lt opens high small =
    process_message_lem box rsp key code phone full has_key low low' e24 lt opens
    ∙ ap (λ t. (record phone { session_nonce = take 24 rsp }, t))
        (from_integer-high code high small)
