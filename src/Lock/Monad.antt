-- ===== src/Lock/Monad.antt =====
-- Code that changes the globals and may stop: what has been written when it stops stays written, as
-- the EEPROM does over a reset.
use esloq.Base.{◌≡◌, ap, sym, refl, ◌∙◌, Stop, Outcome, ok, halted}
use esloq.Lock.State.{Machine}

abbrev pub M : Type 0 → Type 0
M A = Machine → Machine × Outcome A

abbrev pub pure : {A : Type 0} → A → M A
pure a m = (m, ok a)

infixl 5 ◌>>=◌ ◌>>◌
abbrev pub ◌>>=◌ : {A B : Type 0} → M A → (A → M B) → M B
◌>>=◌ x f m = elim ((x m).1) [ ok a ↦ f a (x m).0 | halted s ↦ ((x m).0, halted s) ]

abbrev pub ◌>>◌ : {B : Type 0} → M (Unit {0}) → M B → M B
◌>>◌ x k = x >>= λ _. k

abbrev pub lift : {A : Type 0} → Outcome A → M A
lift o m = (m, o)

abbrev pub get : M Machine
get m = (m, ok m)

abbrev pub modify : (Machine → Machine) → M (Unit {0})
modify f m = (f m, ok tt)

module _ {A B : Type 0} (x : M A) (f : A → M B) {m m' : Machine} where
  pub >>=-ok : {a : A} → x m ≡ (m', ok a) → (x >>= f) m ≡ f a m'
  >>=-ok e =
      ap (λ (r : Machine × Outcome A). elim (r.1) [ ok a ↦ f a r.0 | halted s ↦ (r.0, halted s) ]) e

  pub >>=-halted : {s : Stop} → x m ≡ (m', halted s) → (x >>= f) m ≡ (m', halted s)
  >>=-halted e =
      ap (λ (r : Machine × Outcome A). elim (r.1) [ ok a ↦ f a r.0 | halted s ↦ (r.0, halted s) ]) e

-- Inversion of a chain that returned.
pub >>=-eq-ok :
    {A B : Type 0} (x : M A) (f : A → M B) (m m' : Machine) (b : B)
    → (x >>= f) m ≡ (m', ok b)
    → (a : A) × ((x m).1 ≡ ok a) × (f a (x m).0 ≡ (m', ok b))
>>=-eq-ok {A} {B} x f m m' b h = by_outcome (x m) refl
  where
    by_outcome :
        (r : Machine × Outcome A)
        → x m ≡ r
        → (a : A) × ((x m).1 ≡ ok a) × (f a (x m).0 ≡ (m', ok b))
    by_outcome (s, ok a) e = (
      a,
      ap (λ (r : Machine × Outcome A). r.1) e,
      ap (λ (r : Machine × Outcome A). f a r.0) e ∙ sym (>>=-ok x f e) ∙ h,
    )
    by_outcome (s, halted stop) e =
        let stopped : halted stop ≡ ok b =
          ap (λ (r : Machine × Outcome B). r.1) (sym (>>=-halted x f e) ∙ h) in
        cc

-- A chain that ends by an assignment and returned ends in the state assigned.
pub modify-eq-ok :
    (x : M (Unit {0})) (f : Machine → Machine) (m m' : Machine)
    → (x >> modify f) m ≡ (m', ok tt)
    → m' ≡ f (x m).0
modify-eq-ok x f m m' h =
    ap (λ (r : Machine × Outcome (Unit {0})). r.0) (sym (>>=-eq-ok x (λ _. modify f) m m' tt h).2)
