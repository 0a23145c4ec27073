-- ===== src/Server/Bytes.antt =====
-- The bytes of the server's nonce.
use esloq.Base.{
  some-injective, ℕ, zero, suc, ◌/◌, ◌%◌, ◌^◌, ◌<◌, ◌≡◌, refl, sym, ◌∙◌, ap, List, [], ◌∷◌, ◌++◌,
  some, length, length-append, arith, ◌==◌, Bool-cases, Option-cases, inl, inr, replicate,
}
use esloq.Nonce.Order.{AllBytes, value}
use esloq.Phone.Increment.{value-snoc}
use esloq.Lock.WellFormed.{AllBytes-append}
use esloq.Server.{to_bytes}

pub to_bytes-value :
    (k n : ℕ) {bytes : List ℕ}
    → to_bytes k n ≡ some bytes
    → (value bytes ≡ n) × (length bytes ≡ k) × AllBytes bytes
unfolding to_bytes
to_bytes-value zero n {bytes} e = elim (Bool-cases (n == 0)) [
  | inl none_left ↦
      let empty : bytes ≡ [] = sym (some-injective (rw none_left at e)) in
      rw empty (ground arith, refl, tt)
  | inr too_big ↦ let impossible = rw too_big at e in cc
]
to_bytes-value (suc k) n {bytes} e = elim (Option-cases (to_bytes k (n / 256))) [
  | inl fails ↦ let impossible = rw (fails, to_bytes) at e in cc
  | inr (high, above) ↦
      let whole : bytes ≡ high ++ (n % 256 ∷ []) =
        sym (some-injective (rw (above, to_bytes) at e)) in
      let (spells, long, small) = to_bytes-value k (n / 256) above in
      rw whole (
        omega (arith, value-snoc high (n % 256), spells),
        omega (arith, length-append high (n % 256 ∷ []), long),
        AllBytes-append high (n % 256 ∷ []) small (omega arith, tt),
      )
]

to_bytes-suc :
    (k n : ℕ) {high : List ℕ}
    → to_bytes k (n / 256) ≡ some high
    → to_bytes (suc k) n ≡ some (high ++ (n % 256 ∷ []))
unfolding to_bytes
to_bytes-suc k n e = rw (e, to_bytes)

to_bytes-zeros : to_bytes 20 0 ≡ some (replicate 20 0)
unfolding to_bytes
to_bytes-zeros = refl

-- A number under 2^31 fits in 24 bytes.
pub to_bytes-fits : (n : ℕ) → n < 2 ^ 31 → (bytes : List ℕ) × (to_bytes 24 n ≡ some bytes)
to_bytes-fits n h = (
  _,
  to_bytes-suc 23 n (
      to_bytes-suc 22 (n / 256) (
        to_bytes-suc 21 (n / 256 / 256) (
          to_bytes-suc 20 (n / 256 / 256 / 256) (
            ap (to_bytes 20) {x = n / 256 / 256 / 256 / 256} {y = 0} (omega (arith, h))
            ∙ to_bytes-zeros)))),
)
