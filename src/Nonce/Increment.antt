-- ===== src/Nonce/Increment.antt =====
-- The increment of a nonce: one more as a number, unless every byte is 255.
use mathlib.Core.List.{reverse, reverse-reverse}
use esloq.Base.{
  ℕ, zero, suc, ◌+◌, ◌%◌, ◌<◌, ◌≡◌, ◌≢◌, refl, sym, ◌∙◌, ap, ap₂, List, [], ◌∷◌, ◌++◌, ok, halted,
  out_of_bounds, none, some, Outcome, Option, ◌==◌, if◌then◌else◌, length, arith, append-nil,
  replicate, length-replicate, Option-cases, inl, inr, ok-injective, subst,
}
use native.Mathlib.Decide.{ℕ_discrete}
use esloq.Nonce.{increment_from, increment_array}
use esloq.Nonce.Order.{AllBytes, value}
use esloq.Nonce.Reversal.{
  low_value, reverse-cons-append, length-reverse, value-reverse, AllBytes-reverse,
  reverse-replicate, get_elem?-append, set-append, get_elem?-past,
}

-- The increment of the bytes, least significant first; `none` is a carry out of the last.
abbrev carry : List ℕ → Option (List ℕ)
carry [] = none
carry (x ∷ xs) =
    if x == 255
    then (elim (carry xs) [ none ↦ none | some ys ↦ some (0 ∷ ys) ])
    else some ((x + 1) ∷ xs)

-- What the carry of the prefix gives, in front of the part already done.
abbrev with_tail : Option (List ℕ) → List ℕ → Outcome (List ℕ)
with_tail none z = halted out_of_bounds
with_tail (some ys) z = ok (reverse ys ++ z)

low_value-carry : (xs ys : List ℕ) → carry xs ≡ some ys → low_value ys ≡ low_value xs + 1
low_value-carry [] ys e = ground arith
low_value-carry (x ∷ xs) ys e = elim (Option-cases (carry xs)) [
  | inl p ↦ ground arith
  | inr (zs, p) ↦ ground (arith, low_value-carry xs zs p)
]

AllBytes-carry : (xs ys : List ℕ) → carry xs ≡ some ys → AllBytes xs → AllBytes ys
AllBytes-carry [] ys e b = ground arith
AllBytes-carry (x ∷ xs) ys e b = elim (Option-cases (carry xs)) [
  | inl p ↦ ground arith
  | inr (zs, p) ↦ ground (arith, AllBytes-carry xs zs p b.1)
]

length-carry : (xs ys : List ℕ) → carry xs ≡ some ys → length ys ≡ length xs
length-carry [] ys e = ground arith
length-carry (x ∷ xs) ys e = elim (Option-cases (carry xs)) [
  | inl p ↦ ground arith
  | inr (zs, p) ↦ ground (arith, length-carry xs zs p)
]

-- Only bytes that are all 255 carry out.
carry-none : (xs : List ℕ) → carry xs ≡ none → xs ≡ replicate (length xs) 255
carry-none [] e = refl
carry-none (x ∷ xs) e = elim (Option-cases (carry xs)) [
  | inl p ↦ ground (arith, carry-none xs p)
  | inr (zs, p) ↦ ground arith
]

carry-replicate : (n : ℕ) → carry (replicate n 255) ≡ none
carry-replicate zero = refl
carry-replicate (suc n) = ground (arith, carry-replicate n)

-- One round, at the last byte of the prefix.
increment_from-round :
    (fuel x : ℕ) (p z : List ℕ)
    → increment_from (suc fuel) (length p) (p ++ (x ∷ z)) ≡ (
        if x == 255
        then increment_from fuel ((length p + 255) % 256) (p ++ (0 ∷ z))
        else ok (p ++ ((x + 1) ∷ z)))
unfolding increment_from
increment_from-round fuel x p z =
    ground (arith, get_elem?-append p z x, set-append p z x 0, set-append p z x (x + 1))

increment_from-past :
    (fuel : ℕ) (z : List ℕ)
    → length z < 256
    → increment_from (suc fuel) 255 z ≡ halted out_of_bounds
unfolding increment_from
increment_from-past fuel z h = ground (arith, get_elem?-past z 255)

with_tail-cons :
    (x : ℕ) (xs z : List ℕ) (rest : Outcome (List ℕ))
    → rest ≡ with_tail (carry xs) (0 ∷ z)
    → (if x == 255 then rest else ok (reverse xs ++ ((x + 1) ∷ z))) ≡ with_tail (carry (x ∷ xs)) z
with_tail-cons x xs z rest e = elim (Option-cases (carry xs)) [
  | inl p ↦ ground (arith, reverse-cons-append (x + 1) xs z)
  | inr (ys, p) ↦ ground (arith, reverse-cons-append (x + 1) xs z, reverse-cons-append 0 ys z)
]

increment_from-eq-carry :
    (fuel : ℕ) (xs z : List ℕ)
    → length xs < fuel
    → length xs + length z < 256
    → increment_from fuel ((length xs + 255) % 256) (reverse xs ++ z) ≡ with_tail (carry xs) z
increment_from-eq-carry zero xs z h k = absurd (omega arith)
increment_from-eq-carry (suc fuel) [] z h k = increment_from-past fuel z (omega arith)
increment_from-eq-carry (suc fuel) (x ∷ xs) z h k =
    ap₂ (increment_from (suc fuel)) index (reverse-cons-append x xs z)
    ∙ increment_from-round fuel x (reverse xs) z
    ∙ with_tail-cons x xs z _
        (rest ∙ increment_from-eq-carry fuel xs (0 ∷ z) (omega arith) (omega arith))
  where
    index : (length (x ∷ xs) + 255) % 256 ≡ length (reverse xs)
    index = omega (arith, length-reverse xs)

    rest :
        increment_from fuel ((length (reverse xs) + 255) % 256) (reverse xs ++ (0 ∷ z))
        ≡ increment_from fuel ((length xs + 255) % 256) (reverse xs ++ (0 ∷ z))
    rest =
        ap (λ n. increment_from fuel ((n + 255) % 256) (reverse xs ++ (0 ∷ z))) (length-reverse xs)

increment_array-eq-carry :
    (array : List ℕ)
    → length array < 256
    → increment_array array (length array) ≡ with_tail (carry (reverse array)) []
unfolding increment_array
increment_array-eq-carry array h =
    ap₂ (λ n l. increment_from 257 ((n + 255) % 256) l) (sym (length-reverse array))
      (sym (reverse-reverse array) ∙ sym (append-nil (reverse (reverse array))))
    ∙ increment_from-eq-carry 257 (reverse array) [] (omega (arith, length-reverse array))
        (omega (arith, length-reverse array))

all_ones : (array : List ℕ) → carry (reverse array) ≡ none → array ≡ replicate (length array) 255
all_ones array p =
    sym (reverse-reverse array)
    ∙ ap reverse (carry-none (reverse array) p)
    ∙ reverse-replicate (length (reverse array)) 255
    ∙ ap (λ n. replicate n 255) (length-reverse array)

-- An array whose bytes are not all 255 is incremented in place: the loop returns, stays inside the
-- array, and leaves an array of the same length, of bytes, that spells one more.
pub increment_array-value :
    (array : List ℕ)
    → AllBytes array
    → length array < 256
    → array ≢ replicate (length array) 255
    → (array' : List ℕ) × (increment_array array (length array) ≡ ok array')
      × (value array' ≡ value array + 1)
      × (length array' ≡ length array)
      × AllBytes array'
increment_array-value array b h ne = elim (Option-cases (carry (reverse array))) [
  | inl p ↦ absurd (ne (all_ones array p))
  | inr (ys, p) ↦ (
    reverse ys,
    increment_array-eq-carry array h ∙ ap (λ o. with_tail o []) p ∙ ap ok (append-nil (reverse ys)),
    omega (
      arith,
      value-reverse ys,
      low_value-carry (reverse array) ys p,
      value-reverse (reverse array),
      ap value (reverse-reverse array),
    ),
    omega (arith, length-reverse ys, length-carry (reverse array) ys p, length-reverse array),
    AllBytes-reverse ys (AllBytes-carry (reverse array) ys p (AllBytes-reverse array b)),
  )
]

-- On an array of 255 only, which is the largest nonce, the index wraps from 0 to 255 and the loop
-- writes outside the array: `i >= 0` never stops it.
pub increment_array-overflow :
    (n : ℕ) → n < 256 → increment_array (replicate n 255) n ≡ halted out_of_bounds
increment_array-overflow n h =
    ap (increment_array (replicate n 255)) (sym (length-replicate n 255))
    ∙ increment_array-eq-carry (replicate n 255) (omega (arith, length-replicate {A = ℕ} n 255))
    ∙ ap (λ l. with_tail (carry l) []) (reverse-replicate n 255)
    ∙ ap (λ o. with_tail o []) (carry-replicate n)

lists : Discrete (List ℕ)
lists = hlevel (ℕ_discrete)

-- An increment that returns adds one, keeps the length, and leaves bytes.
pub increment_array-returns :
    (array : List ℕ) (n : ℕ) {array' : List ℕ}
    → AllBytes array
    → length array ≡ n
    → n < 256
    → increment_array array n ≡ ok array'
    → (value array' ≡ value array + 1) × (length array' ≡ n) × AllBytes array'
increment_array-returns array n small e h done = elim (lists array (replicate n 255)) [
  | yes full ↦
      let stops = ap (λ a. increment_array a n) (sym full) ∙ done in
      let overflow = increment_array-overflow n h in cc
  | no room ↦
      let (next, steps, up, same, bytes) =
        increment_array-value array small (omega (arith, e, h))
          (λ full. room (full ∙ ap (λ l. replicate l 255) e)) in
      let eq = ok-injective (sym (ap (increment_array array) (sym e) ∙ steps) ∙ done) in
      (
        subst (λ l. value l ≡ value array + 1) eq up,
        subst (λ l. length l ≡ n) eq (same ∙ e),
        subst AllBytes eq bytes,
      )
]

pub increment_array-AllBytes :
    (array : List ℕ) (n : ℕ) {array' : List ℕ}
    → AllBytes array
    → length array ≡ n
    → n < 256
    → increment_array array n ≡ ok array'
    → (length array' ≡ n) × AllBytes array'
increment_array-AllBytes array n small e h done =
    let (_, same, bytes) = increment_array-returns array n small e h done in (same, bytes)
