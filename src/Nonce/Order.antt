-- ===== src/Nonce/Order.antt =====
-- The comparison of nonces decides the order of the numbers that the bytes spell, most significant
-- byte first.
use esloq.Base.{
  sym, ℕ, zero, suc, ◌+◌, ◌*◌, ◌<◌, ◌≡◌, refl, ◌∙◌, ap, ap₂, List, [], ◌∷◌, ok, some, ltb,
  if◌then◌else◌, get_elem?, drop, length, arith,
}
use esloq.Nonce.{
  is_valid_ticket_nonce, is_valid_session_nonce, nonce_len, compare_from, is_greater_than,
}

-- Every element is a `uint8_t`.
abbrev pub AllBytes : List ℕ → Type 0
AllBytes [] = Unit {0}
AllBytes (x ∷ xs) = (x < 256) × AllBytes xs

abbrev pub value_from : ℕ → List ℕ → ℕ
value_from acc [] = acc
value_from acc (x ∷ xs) = value_from (acc * 256 + x) xs

-- The number that the bytes spell, most significant byte first.
abbrev pub value : List ℕ → ℕ
value xs = value_from 0 xs

value_from-lt :
    (acc acc' : ℕ) (xs ys : List ℕ)
    → acc < acc'
    → AllBytes xs
    → length xs ≡ length ys
    → value_from acc xs < value_from acc' ys
value_from-lt acc acc' [] [] h bx e = h
value_from-lt acc acc' [] (y ∷ ys) h bx e = absurd (omega arith)
value_from-lt acc acc' (x ∷ xs) [] h bx e = absurd (omega arith)
value_from-lt acc acc' (x ∷ xs) (y ∷ ys) h bx e =
    value_from-lt (acc * 256 + x) (acc' * 256 + y) xs ys (omega arith) bx.1 (omega arith)

-- Numbers of as many bytes keep their distance when the same is put before them.
value_from-distance :
    (a b c d : ℕ) (xs ys : List ℕ)
    → a + b ≡ c + d
    → length xs ≡ length ys
    → value_from a xs + value_from b ys ≡ value_from c ys + value_from d xs
value_from-distance a b c d [] [] h e = h
value_from-distance a b c d [] (y ∷ ys) h e = absurd (omega arith)
value_from-distance a b c d (x ∷ xs) [] h e = absurd (omega arith)
value_from-distance a b c d (x ∷ xs) (y ∷ ys) h e =
    value_from-distance (a * 256 + x) (b * 256 + y) (c * 256 + y) (d * 256 + x) xs ys (omega arith)
      (omega arith)

-- The order of two numbers stays when the same is added to their first bytes.
pub value-first_byte :
    (d x y : ℕ) (xs ys : List ℕ)
    → AllBytes xs
    → AllBytes ys
    → length xs ≡ length ys
    → value (x ∷ xs) < value (y ∷ ys)
    → value ((x + d) ∷ xs) < value ((y + d) ∷ ys)
value-first_byte d x y xs ys bx by e lt = ground (
  arith,
  value_from-lt x y xs ys,
  value_from-lt y x ys xs,
  value_from-lt (x + d) (y + d) xs ys,
  value_from-distance (x + d) x (x + d) x xs ys,
)

-- Only one list of so many bytes spells a number.
pub value_from-injective :
    (a : ℕ) (xs ys : List ℕ)
    → AllBytes xs
    → AllBytes ys
    → length xs ≡ length ys
    → value_from a xs ≡ value_from a ys
    → xs ≡ ys
value_from-injective a [] [] bx by e same = refl
value_from-injective a [] (y ∷ ys) bx by e same = absurd (omega arith)
value_from-injective a (x ∷ xs) [] bx by e same = absurd (omega arith)
value_from-injective a (x ∷ xs) (y ∷ ys) bx by e same =
    let first : x ≡ y = ground (
      arith,
      value_from-lt (a * 256 + x) (a * 256 + y) xs ys,
      value_from-lt (a * 256 + y) (a * 256 + x) ys xs,
    ) in
    ap₂ (λ z zs. z ∷ zs) first
      (value_from-injective (a * 256 + y) xs ys bx.1 by.1 (omega arith)
        (ap (λ z. value_from (a * 256 + z) xs) (sym first) ∙ same))

get_elem?-drop : (i : ℕ) (a xs : List ℕ) (x : ℕ) → drop i a ≡ x ∷ xs → get_elem? a i ≡ some x
get_elem?-drop zero [] xs x e = ground arith
get_elem?-drop zero (y ∷ ys) xs x e = ground arith
get_elem?-drop (suc i) [] xs x e = ground arith
get_elem?-drop (suc i) (y ∷ ys) xs x e = get_elem?-drop i ys xs x e

drop-suc : (i : ℕ) (a xs : List ℕ) (x : ℕ) → drop i a ≡ x ∷ xs → drop (suc i) a ≡ xs
drop-suc zero [] xs x e = ground arith
drop-suc zero (y ∷ ys) xs x e = ground arith
drop-suc (suc i) [] xs x e = ground arith
drop-suc (suc i) (y ∷ ys) xs x e = drop-suc i ys xs x e

abbrev lex : List ℕ → List ℕ → ℕ
lex [] ys = 0
lex (x ∷ xs) [] = 0
lex (x ∷ xs) (y ∷ ys) = if ltb x y then 0 else if ltb y x then 1 else lex xs ys

-- The indexed loop is a recursion on the parts of the arrays that are left.
compare_from-eq-lex :
    (i : ℕ) (a b xs ys : List ℕ)
    → drop i a ≡ xs
    → drop i b ≡ ys
    → length xs ≡ length ys
    → compare_from (length xs) i a b ≡ ok (lex xs ys)
unfolding compare_from
compare_from-eq-lex i a b [] ys ea eb e = refl
compare_from-eq-lex i a b (x ∷ xs) [] ea eb e = absurd (omega arith)
compare_from-eq-lex i a b (x ∷ xs) (y ∷ ys) ea eb e = ground (
  arith,
  get_elem?-drop i a xs x ea,
  get_elem?-drop i b ys y eb,
  compare_from-eq-lex (i + 1) a b xs ys (step a xs x ea) (step b ys y eb) (omega arith),
)
  where
    step : (c zs : List ℕ) (z : ℕ) → drop i c ≡ z ∷ zs → drop (i + 1) c ≡ zs
    step c zs z ec = ap (λ n. drop n c) {y = suc i} (omega arith) ∙ drop-suc i c zs z ec

lex-eq-lt :
    (acc : ℕ) (xs ys : List ℕ)
    → AllBytes xs
    → AllBytes ys
    → length xs ≡ length ys
    → lex xs ys ≡ (if ltb (value_from acc ys) (value_from acc xs) then 1 else 0)
lex-eq-lt acc [] [] bx by e = ground arith
lex-eq-lt acc [] (y ∷ ys) bx by e = absurd (omega arith)
lex-eq-lt acc (x ∷ xs) [] bx by e = absurd (omega arith)
lex-eq-lt acc (x ∷ xs) (y ∷ ys) bx by e = ground (
  arith,
  value_from-lt (acc * 256 + x) (acc * 256 + y) xs ys,
  value_from-lt (acc * 256 + y) (acc * 256 + x) ys xs,
  lex-eq-lt (acc * 256 + x) xs ys,
)

-- `is_greater_than` on two byte arrays of the length that it is given reads inside them, and returns
-- 1 exactly when the number that `a` spells, most significant byte first, is greater than that of
-- `b`, and 0 otherwise.
is_greater_than-eq-value :
    (a b : List ℕ)
    → AllBytes a
    → AllBytes b
    → length a ≡ length b
    → is_greater_than a b (length a) ≡ ok (if ltb (value b) (value a) then 1 else 0)
unfolding is_greater_than
is_greater_than-eq-value a b ba bb e =
    compare_from-eq-lex 0 a b a b refl refl e ∙ ap ok (lex-eq-lt 0 a b ba bb e)

-- Both validity tests accept a nonce exactly when it is greater, as a number, than the last one.
pub is_valid_nonce-eq-value :
    (nonce last : List ℕ)
    → AllBytes nonce
    → AllBytes last
    → length nonce ≡ nonce_len
    → length last ≡ nonce_len
    → (is_valid_ticket_nonce nonce last ≡ ok (if ltb (value last) (value nonce) then 1 else 0))
      × (is_valid_session_nonce nonce last ≡ ok (if ltb (value last) (value nonce) then 1 else 0))
unfolding is_valid_ticket_nonce is_valid_session_nonce is_greater_than
is_valid_nonce-eq-value nonce last bn bl en el = (by_length, by_length)
  where
    by_length : compare_from 24 0 nonce last ≡ ok (if ltb (value last) (value nonce) then 1 else 0)
    by_length =
        ap (λ n. compare_from n 0 nonce last) (sym en)
        ∙ is_greater_than-eq-value nonce last bn bl (en ∙ sym el)
