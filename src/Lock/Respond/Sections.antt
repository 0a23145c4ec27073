-- ===== src/Lock/Respond/Sections.antt =====
-- The bytes of a response, and the three writes that carry them.
use esloq.Base.{
  ℕ, zero, suc, ◌+◌, ◌≤◌, ◌≡◌, refl, sym, ◌∙◌, ap, List, [], ◌∷◌, ◌++◌, ok, length, take, drop,
  arith, copy_into_lem, append-nil, take-append, length-append, length-drop,
}
use esloq.Lock.Respond.{rsp_init, response}

take-prefix : (n : ℕ) (xs ys : List ℕ) → n ≡ length xs → take n (xs ++ ys) ≡ xs
take-prefix n xs ys e = ap (λ k. take k (xs ++ ys)) e ∙ take-append xs ys

drop-all : (n : ℕ) (xs : List ℕ) → length xs ≤ n → drop n xs ≡ []
drop-all zero [] h = refl
drop-all zero (x ∷ xs) h = absurd (omega arith)
drop-all (suc n) [] h = refl
drop-all (suc n) (x ∷ xs) h = drop-all n xs (omega arith)

-- The response is the nonce, then the box: 41 bytes.
pub response_lem :
    (nonce c : List ℕ) → length nonce ≡ 24 → length c ≡ 17 → response nonce c ≡ ok (nonce ++ c)
unfolding response
response_lem nonce c en ec = rw (
  copy_into_lem rsp_init nonce 0 (omega arith),
  copy_into_lem (nonce ++ drop (0 + length nonce) rsp_init) c 24 (
      omega (
        arith,
        length-append nonce (drop (0 + length nonce) rsp_init),
        length-drop (0 + length nonce) rsp_init,
      )),
  take-prefix 24 nonce (drop (0 + length nonce) rsp_init) (sym en),
  drop-all (24 + length c) (nonce ++ drop (0 + length nonce) rsp_init) (
      omega (
        arith,
        length-append nonce (drop (0 + length nonce) rsp_init),
        length-drop (0 + length nonce) rsp_init,
      )),
  append-nil,
)
