-- ===== src/Base/Bounds.antt =====
-- Inversion of the copies and reads that were in bounds.
use Prim.Native.Nat.{ℕ, zero, suc, ◌<◌, ◌+◌, ◌≤◌}
use mathlib.Core.Path.{◌≡◌, refl, ap, ◌∙◌}
use native.Mathlib.Omega.{arith}
use mathlib.Core.Bool.{Bool, true, false}
use mathlib.Core.List.{List, [], ◌∷◌, ◌++◌}
use mathlib.Core.Option.{none, some}
use esloq.Base.Tests.{leb, leb→le, if◌then◌else◌}
use esloq.Base.Arrays.{
  length, get_elem?, take, drop, copy_into, slice, length-append, length-take, length-drop,
}

module _ {ℓ} {A : Type ℓ} where
  some-if :
      (b : Bool) (x : A) {y : A} → (if b then some x else none) ≡ some y → (b ≡ true) × (y ≡ x)
  some-if true x e = (refl, cc)
  some-if false x e = cc

module _ {ℓ} {A : Type ℓ} where
  pub copy_into-some :
      (dst : List A) (off : ℕ) (xs : List A) {filled : List A}
      → copy_into dst off xs ≡ some filled
      → (off + length xs ≤ length dst)
        × (filled ≡ take off dst ++ (xs ++ drop (off + length xs) dst))
  unfolding copy_into
  copy_into-some dst off xs e =
      let (fits, eq) = some-if (leb (off + length xs) (length dst)) _ e in (leb→le _ _ fits, eq)

  pub slice-some :
      (xs : List A) (off n : ℕ) {part : List A}
      → slice xs off n ≡ some part
      → (off + n ≤ length xs) × (part ≡ take n (drop off xs))
  unfolding slice
  slice-some xs off n e =
      let (fits, eq) = some-if (leb (off + n) (length xs)) _ e in (leb→le _ _ fits, eq)

module _ {ℓ} {A : Type ℓ} where
  -- A copy keeps the size of the array that it writes to.
  pub length-copy_into :
      (dst : List A) (off : ℕ) (xs : List A) {filled : List A}
      → copy_into dst off xs ≡ some filled
      → length filled ≡ length dst
  length-copy_into dst off xs e =
      let (fits, eq) = copy_into-some dst off xs e in
      let rest = off + length xs in
      ap length eq
      ∙ omega (
        arith,
        length-append (take off dst) (xs ++ drop rest dst),
        length-append xs (drop rest dst),
        length-take off dst,
        length-drop rest dst,
        fits,
      )

pub get_elem?-in {ℓ} :
    {A : Type ℓ} (xs : List A) (i : ℕ) → i < length xs → (x : A) × (get_elem? xs i ≡ some x)
get_elem?-in [] i lt = absurd (omega arith)
get_elem?-in (x ∷ xs) zero lt = (x, refl)
get_elem?-in (x ∷ xs) (suc i) lt = get_elem?-in xs i (omega arith)
