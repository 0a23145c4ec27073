-- ===== src/Nonce/Reversal.antt =====
-- Facts on reversed byte arrays, for the loop of `increment_array`, which runs from the last byte.
use mathlib.Core.List.{reverse, reverse-append}
use esloq.Base.{
  ℕ, zero, suc, ◌+◌, ◌*◌, ◌≤◌, ◌≡◌, refl, ◌∙◌, ap, List, [], ◌∷◌, ◌++◌, none, some, get_elem?, set,
  length, arith, append_assoc, length-append, replicate,
}
use esloq.Nonce.Order.{AllBytes, value_from, value}

-- The number that the bytes spell, least significant first.
abbrev pub low_value : List ℕ → ℕ
low_value [] = 0
low_value (x ∷ xs) = x + 256 * low_value xs

pub reverse-cons-append : (x : ℕ) (xs z : List ℕ) → reverse (x ∷ xs) ++ z ≡ reverse xs ++ (x ∷ z)
reverse-cons-append x xs z =
    ap (λ l. l ++ z) (reverse-append (x ∷ []) xs) ∙ append_assoc (reverse xs) (x ∷ []) z

pub length-reverse : (xs : List ℕ) → length (reverse xs) ≡ length xs
length-reverse [] = refl
length-reverse (x ∷ xs) = omega (
  arith,
  ap length (reverse-append (x ∷ []) xs),
  length-append (reverse xs) (x ∷ []),
  length-reverse xs,
)

pub value_from-append :
    (acc : ℕ) (xs ys : List ℕ) → value_from acc (xs ++ ys) ≡ value_from (value_from acc xs) ys
value_from-append acc [] ys = refl
value_from-append acc (x ∷ xs) ys = value_from-append (acc * 256 + x) xs ys

pub value-reverse : (xs : List ℕ) → value (reverse xs) ≡ low_value xs
value-reverse [] = refl
value-reverse (x ∷ xs) = omega (
  arith,
  ap value (reverse-append (x ∷ []) xs),
  value_from-append 0 (reverse xs) (x ∷ []),
  value-reverse xs,
)

AllBytes-append : (xs ys : List ℕ) → AllBytes xs → AllBytes ys → AllBytes (xs ++ ys)
AllBytes-append [] ys h k = k
AllBytes-append (x ∷ xs) ys h k = (h.0, AllBytes-append xs ys h.1 k)

pub AllBytes-reverse : (xs : List ℕ) → AllBytes xs → AllBytes (reverse xs)
AllBytes-reverse [] h = tt
AllBytes-reverse (x ∷ xs) h =
    rw (reverse-append (x ∷ []) xs)
      (AllBytes-append (reverse xs) (x ∷ []) (AllBytes-reverse xs h.1) (h.0, tt))

replicate-snoc : (n x : ℕ) → replicate n x ++ (x ∷ []) ≡ x ∷ replicate n x
replicate-snoc zero x = refl
replicate-snoc (suc n) x = ap (λ l. x ∷ l) (replicate-snoc n x)

pub reverse-replicate : (n x : ℕ) → reverse (replicate n x) ≡ replicate n x
reverse-replicate zero x = refl
reverse-replicate (suc n) x =
    reverse-append (x ∷ []) (replicate n x)
    ∙ ap (λ l. l ++ (x ∷ [])) (reverse-replicate n x)
    ∙ replicate-snoc n x

-- Reads and writes at the end of a prefix, and past the end of an array.
pub get_elem?-append : (p z : List ℕ) (x : ℕ) → get_elem? (p ++ (x ∷ z)) (length p) ≡ some x
get_elem?-append [] z x = refl
get_elem?-append (y ∷ p) z x = get_elem?-append p z x

pub set-append : (p z : List ℕ) (x v : ℕ) → set (p ++ (x ∷ z)) (length p) v ≡ p ++ (v ∷ z)
set-append [] z x v = refl
set-append (y ∷ p) z x v = ap (λ l. y ∷ l) (set-append p z x v)

pub get_elem?-past : (xs : List ℕ) (i : ℕ) → length xs ≤ i → get_elem? xs i ≡ none
get_elem?-past [] i h = refl
get_elem?-past (x ∷ xs) zero h = absurd (omega arith)
get_elem?-past (x ∷ xs) (suc i) h = get_elem?-past xs i (omega arith)
