-- ===== src/Base/Arrays.antt =====
-- C arrays as lists indexed by native numbers, and `memcpy` with its bounds.
use Prim.Native.Nat.{ℕ, zero, suc, ◌+◌, ◌-◌, ◌≤◌, ◌<◌, min}
use mathlib.Core.Path.{◌≡◌, refl, sym, ap, ◌∙◌}
use mathlib.Core.Logic.{◌≢◌}
use mathlib.Core.List.{List, [], ◌∷◌, ◌++◌, append-nil, append_assoc}
use mathlib.Core.Option.{Option, none, some}
use native.Mathlib.Omega.{arith}
use esloq.Base.Tests.{leb, le→leb, if◌then◌else◌}

module _ {ℓ} {A : Type ℓ} where
  abbrev pub length : List A → ℕ
  length [] = 0
  length (x ∷ xs) = suc (length xs)

  abbrev pub get_elem? : List A → ℕ → Option A
  get_elem? [] i = none
  get_elem? (x ∷ xs) zero = some x
  get_elem? (x ∷ xs) (suc i) = get_elem? xs i

  abbrev pub get_or : List A → ℕ → A → A
  get_or [] i d = d
  get_or (x ∷ xs) zero d = x
  get_or (x ∷ xs) (suc i) d = get_or xs i d

  -- A write out of bounds changes nothing; the models test the bound first.
  abbrev pub set : List A → ℕ → A → List A
  set [] i v = []
  set (x ∷ xs) zero v = v ∷ xs
  set (x ∷ xs) (suc i) v = x ∷ set xs i v

  abbrev pub take : ℕ → List A → List A
  take zero xs = []
  take (suc n) [] = []
  take (suc n) (x ∷ xs) = x ∷ take n xs

  abbrev pub drop : ℕ → List A → List A
  drop zero xs = xs
  drop (suc n) [] = []
  drop (suc n) (x ∷ xs) = drop n xs

  abbrev pub replicate : ℕ → A → List A
  replicate zero a = []
  replicate (suc n) a = a ∷ replicate n a

module _ {ℓ} {A : Type ℓ} where
  pub length-append : (xs ys : List A) → length (xs ++ ys) ≡ length xs + length ys
  length-append [] ys = omega arith
  length-append (x ∷ xs) ys = omega (arith, length-append xs ys)

  pub length-set : (xs : List A) (i : ℕ) (v : A) → length (set xs i v) ≡ length xs
  length-set [] i v = refl
  length-set (x ∷ xs) zero v = refl
  length-set (x ∷ xs) (suc i) v = ap suc (length-set xs i v)

  pub get_or-set_self :
      (xs : List A) (i : ℕ) (v d : A) → i < length xs → get_or (set xs i v) i d ≡ v
  get_or-set_self [] i v d h = absurd (omega arith)
  get_or-set_self (x ∷ xs) zero v d h = refl
  get_or-set_self (x ∷ xs) (suc i) v d h = get_or-set_self xs i v d (omega arith)

  pub get_or-set_ne :
      (xs : List A) (i j : ℕ) (v d : A) → i ≢ j → get_or (set xs i v) j d ≡ get_or xs j d
  get_or-set_ne [] i j v d h = refl
  get_or-set_ne (x ∷ xs) zero zero v d h = absurd (h refl)
  get_or-set_ne (x ∷ xs) zero (suc j) v d h = refl
  get_or-set_ne (x ∷ xs) (suc i) zero v d h = refl
  get_or-set_ne (x ∷ xs) (suc i) (suc j) v d h = get_or-set_ne xs i j v d (λ e. h (ap suc e))

  pub length-take : (n : ℕ) (xs : List A) → length (take n xs) ≡ min n (length xs)
  length-take zero xs = omega arith
  length-take (suc n) [] = omega arith
  length-take (suc n) (x ∷ xs) = omega (arith, length-take n xs)

  pub length-drop : (n : ℕ) (xs : List A) → length (drop n xs) ≡ length xs - n
  length-drop zero xs = omega arith
  length-drop (suc n) [] = omega arith
  length-drop (suc n) (x ∷ xs) = omega (arith, length-drop n xs)

  pub length-replicate : (n : ℕ) (a : A) → length (replicate n a) ≡ n
  length-replicate zero a = refl
  length-replicate (suc n) a = ap suc (length-replicate n a)

  pub take-append-drop : (n : ℕ) (xs : List A) → take n xs ++ drop n xs ≡ xs
  take-append-drop zero xs = refl
  take-append-drop (suc n) [] = refl
  take-append-drop (suc n) (x ∷ xs) = ap (λ r. x ∷ r) (take-append-drop n xs)

  -- A prefix is cut off again at its length.
  pub take-append : (xs ys : List A) → take (length xs) (xs ++ ys) ≡ xs
  take-append [] ys = refl
  take-append (x ∷ xs) ys = ap (λ r. x ∷ r) (take-append xs ys)

  pub drop-append : (xs ys : List A) → drop (length xs) (xs ++ ys) ≡ ys
  drop-append [] ys = refl
  drop-append (x ∷ xs) ys = drop-append xs ys

  pub take-all : (n : ℕ) (xs : List A) → length xs ≤ n → take n xs ≡ xs
  take-all zero [] h = refl
  take-all zero (x ∷ xs) h = absurd (omega arith)
  take-all (suc n) [] h = refl
  take-all (suc n) (x ∷ xs) h = ap (λ r. x ∷ r) (take-all n xs (omega arith))

  pub take-zero : (xs : List A) → take 0 xs ≡ []
  take-zero xs = refl

-- `memcpy(dst + off, bytes, length bytes)`; `none` is a write past the end of `dst`.
unfoldable pub copy_into {ℓ} : {A : Type ℓ} → List A → ℕ → List A → Option (List A)
copy_into dst off bytes =
    if leb (off + length bytes) (length dst)
    then some (take off dst ++ (bytes ++ drop (off + length bytes) dst))
    else none

-- The `n` bytes that a call reads from `src + off`; `none` is a read past the end of `src`.
unfoldable pub slice {ℓ} : {A : Type ℓ} → List A → ℕ → ℕ → Option (List A)
slice src off n = if leb (off + n) (length src) then some (take n (drop off src)) else none

module _ {ℓ} {A : Type ℓ} where
  -- The part that a call reads in the middle of a buffer.
  pub slice-append :
      (p xs z : List A) (off n : ℕ)
      → off ≡ length p
      → n ≡ length xs
      → slice (p ++ (xs ++ z)) off n ≡ some xs
  unfolding slice
  slice-append p xs z off n eo en =
      rw (eo, en, le→leb (length p + length xs) (length (p ++ (xs ++ z))) fits)
        (ap some (ap (take (length xs)) (drop-append p (xs ++ z)) ∙ take-append xs z))
    where
      fits : length p + length xs ≤ length (p ++ (xs ++ z))
      fits = omega (arith, length-append p (xs ++ z), length-append xs z)

  pub slice-all : (xs : List A) (n : ℕ) → n ≡ length xs → slice xs 0 n ≡ some xs
  slice-all xs n e = ap (λ l. slice l 0 n) (sym (append-nil xs)) ∙ slice-append [] xs [] 0 n refl e

  pub copy_into_lem :
      (dst xs : List A) (off : ℕ)
      → off + length xs ≤ length dst
      → copy_into dst off xs ≡ some (take off dst ++ (xs ++ drop (off + length xs) dst))
  unfolding copy_into
  copy_into_lem dst xs off h = rw (le→leb (off + length xs) (length dst) h)

  pub length-take_le : (n : ℕ) (xs : List A) → n ≤ length xs → length (take n xs) ≡ n
  length-take_le n xs h = omega (arith, length-take n xs)

  -- What was copied is read back.
  pub slice-copied :
      (dst xs : List A) (off n : ℕ)
      → off + length xs ≤ length dst
      → n ≡ length xs
      → slice (take off dst ++ (xs ++ drop (off + length xs) dst)) off n ≡ some xs
  slice-copied dst xs off n h e =
      slice-append (take off dst) xs (drop (off + length xs) dst) off n
        (sym (length-take_le off dst (omega arith))) e

  -- What was copied is read together with all that stands before it.
  pub slice-copied_prefix :
      (dst xs : List A) (off n : ℕ)
      → off + length xs ≤ length dst
      → n ≡ off + length xs
      → slice (take off dst ++ (xs ++ drop (off + length xs) dst)) 0 n ≡ some (take off dst ++ xs)
  slice-copied_prefix dst xs off n h e =
      ap (λ l. slice l 0 n) (sym (append_assoc (take off dst) xs (drop (off + length xs) dst)))
      ∙ slice-append [] (take off dst ++ xs) (drop (off + length xs) dst) 0 n refl
          (omega (arith, length-append (take off dst) xs, length-take_le off dst (omega arith)))

pub take-replicate {ℓ} :
    {A : Type ℓ} (n m : ℕ) (a : A) → n ≤ m → take n (replicate m a) ≡ replicate n a
take-replicate zero m a h = refl
take-replicate (suc n) zero a h = absurd (omega arith)
take-replicate (suc n) (suc m) a h = ap (λ l. a ∷ l) (take-replicate n m a (omega arith))

module _ {ℓ} {A : Type ℓ} where
  -- The end of the first part of a buffer.
  pub slice-drop :
      (xs z : List A) (off n : ℕ) → off + n ≡ length xs → slice (xs ++ z) off n ≡ some (drop off xs)
  slice-drop xs z off n e =
      ap (λ l. slice l off n) (ap (λ l. l ++ z) (sym (take-append-drop off xs)) ∙ regroup)
      ∙ slice-append (take off xs) (drop off xs) z off n (sym (length-take_le off xs (omega arith)))
          (omega (arith, length-drop off xs))
    where
      regroup : (take off xs ++ drop off xs) ++ z ≡ take off xs ++ (drop off xs ++ z)
      regroup = append_assoc (take off xs) (drop off xs) z

pub drop-get_elem? {ℓ} :
    {A : Type ℓ} (xs : List A) (i : ℕ) {x : A}
    → get_elem? xs i ≡ some x
    → drop i xs ≡ x ∷ drop (i + 1) xs
drop-get_elem? [] i e = cc
drop-get_elem? (y ∷ ys) zero e = cc
drop-get_elem? (y ∷ ys) (suc i) {x} e =
    drop-get_elem? ys i e ∙ ap (λ n. x ∷ drop n (y ∷ ys)) {x = suc (i + 1)} (omega arith)

pub slice_lem {ℓ} :
    {A : Type ℓ} (xs : List A) (off n : ℕ)
    → off + n ≤ length xs
    → slice xs off n ≡ some (take n (drop off xs))
unfolding slice
slice_lem xs off n h = rw (le→leb (off + n) (length xs) h)
