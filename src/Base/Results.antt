-- ===== src/Base/Results.antt =====
-- What a call of the firmware comes to: a value, or the reason why it does not return.
use mathlib.Core.Option.{Option, none, some}
use mathlib.Core.Path.{◌≡◌, refl, sym, ap}

pub data Stop : Type 0 where
  out_of_bounds : Stop  -- an access outside an object: undefined behaviour in C
  waiting : Stop  -- the inputs given end before the wait loop does
  soft_reset : Stop  -- the watchdog restarts the microcontroller

pub data Outcome {ℓ} (A : Type ℓ) : Type ℓ where
  ok : A → Outcome A
  halted : Stop → Outcome A

-- An access with its bound tested.
abbrev pub in_bounds {ℓ} : {A : Type ℓ} → Option A → Outcome A
in_bounds none = halted out_of_bounds
in_bounds (some a) = ok a

infixl 5 ◌>>=◌
abbrev pub ◌>>=◌ {ℓ κ} : {A : Type ℓ} {B : Type κ} → Outcome A → (A → Outcome B) → Outcome B
ok a >>= f = f a
halted s >>= f = halted s

pub ok-injective {ℓ} : {A : Type ℓ} {a b : A} → ok a ≡ ok b → a ≡ b
ok-injective e = cc

pub some-injective {ℓ} : {A : Type ℓ} {a b : A} → some a ≡ some b → a ≡ b
some-injective e = cc

-- Inversion of a chain that returned.
pub returned {ℓ κ} :
    {A : Type ℓ} {B : Type κ} {result : B} (first : Outcome A) (rest : A → Outcome B)
    → ok result ≡ (first >>= rest)
    → (value : A) × (ok value ≡ first) × (rest value ≡ ok result)
returned (halted why) rest chain = cc
returned (ok value) rest chain = (value, refl, sym chain)

pub in_bounds-eq-ok {ℓ} : {A : Type ℓ} (o : Option A) {a : A} → in_bounds o ≡ ok a → o ≡ some a
in_bounds-eq-ok none h = cc
in_bounds-eq-ok (some a) h = ap some (ok-injective h)
