-- ===== src/Tests/Database/Laws.antt =====
-- The database of lists satisfies the documented laws.
use esloq.Base.{
  List, some-injective, ℕ, zero, suc, ◌<◌, ◌≡◌, ◌⊎◌, refl, sym, subst, ==_iff, ◌∙◌, ap, [], ◌∷◌,
  ◌++◌, Bool, true, false, Option, none, some, ltb, ◌==◌, Bool-cases, Option-cases, inl, inr, arith,
}
use esloq.Tests.Database.{
  Table, row_at, passing, one_if, rows_passing, first_passing, complete, row_of, add_row, leave_out,
  leave_all_out, leave_row_out, database,
}
use esloq.Server.Access.{LockAccess, Posted, IsPosted, AreObjects, of_user}

rows_passing-counts :
    (t : Table) (i : ℕ) (p : LockAccess → Bool) {a : LockAccess}
    → row_at t i ≡ some a
    → p a ≡ true
    → 0 < rows_passing t p
rows_passing-counts [] i p at passes = cc
rows_passing-counts (row ∷ rows) zero p at passes = rw (at, passes) (omega arith)
rows_passing-counts (row ∷ rows) (suc i) p at passes =
    omega (arith, rows_passing-counts rows i p at passes)

passing-some :
    (p : LockAccess → Bool) (row : Option LockAccess) {a : LockAccess}
    → passing p row ≡ some a
    → (row ≡ some a) × (p a ≡ true)
passing-some p none e = cc
passing-some p (some b) e = ground arith

rows_passing-skips :
    (row : Option LockAccess) (rows : Table) (p : LockAccess → Bool)
    → passing p row ≡ none
    → 0 < rows_passing (row ∷ rows) p
    → 0 < rows_passing rows p
rows_passing-skips row rows p fails some_left =
    let none_here : one_if (passing p row) ≡ 0 = ap one_if fails in omega (arith, some_left)

rows_passing-finds :
    (t : Table) (p : LockAccess → Bool)
    → 0 < rows_passing t p
    → (i : ℕ) × (a : LockAccess) × (row_at t i ≡ some a) × (p a ≡ true)
rows_passing-finds [] p some_left = absurd (omega arith)
rows_passing-finds (row ∷ rows) p some_left = elim (Option-cases (passing p row)) [
  | inl fails ↦
      let (i, a, at, passes) =
        rows_passing-finds rows p (rows_passing-skips row rows p fails some_left) in
      (suc i, a, at, passes)
  | inr (a, here) ↦ let (at, passes) = passing-some p row here in (zero, a, at, passes)
]

first_passing-finds :
    (t : Table) (p : LockAccess → Bool) {a : LockAccess}
    → first_passing t p ≡ some a
    → (i : ℕ) × (row_at t i ≡ some a) × (p a ≡ true)
first_passing-finds [] p e = cc
first_passing-finds (row ∷ rows) p {a} e = elim (Option-cases (passing p row)) [
  | inl fails ↦
      let (i, at, passes) = first_passing-finds rows p (rw fails at e) in (suc i, at, passes)
  | inr (b, here) ↦
      let same : some b ≡ some a = rw here at e in
      let (at, passes) = passing-some p row (here ∙ same) in (zero, at, passes)
]

pub row_at-append :
    {A : Type 0} (t rows : List (Option A)) (i : ℕ) {a : A}
    → row_at t i ≡ some a
    → row_at (t ++ rows) i ≡ some a
row_at-append [] rows i at = cc
row_at-append (row ∷ t) rows zero at = at
row_at-append (row ∷ t) rows (suc i) at = row_at-append t rows i at

row_at-last : (t : Table) (a : LockAccess) → (i : ℕ) × (row_at (t ++ (some a ∷ [])) i ≡ some a)
row_at-last [] a = (zero, refl)
row_at-last (row ∷ t) a = let (i, at) = row_at-last t a in (suc i, at)

pub row_at-snoc :
    {A : Type 0} (t : List (Option A)) (b : A) (i : ℕ) {a : A}
    → row_at (t ++ (some b ∷ [])) i ≡ some a
    → (row_at t i ≡ some a) ⊎ (b ≡ a)
row_at-snoc [] b zero at = inr (some-injective at)
row_at-snoc [] b (suc i) at = inl at
row_at-snoc (row ∷ t) b zero at = inl at
row_at-snoc (row ∷ t) b (suc i) at = row_at-snoc t b i at

complete-parts :
    (l u : Option ℕ) (admin : Option Bool) {a : LockAccess}
    → complete l u admin ≡ some a
    → (l ≡ some a.lock_id) × (u ≡ some a.user_id) × (admin ≡ some a.is_admin)
complete-parts none u admin e = cc
complete-parts (some l) none admin e = cc
complete-parts (some l) (some u) none e = cc
complete-parts (some l) (some u) (some admin) e =
    let same = some-injective e in
    (
      ap (λ a. some (LockAccess.lock_id a)) same,
      ap (λ a. some (LockAccess.user_id a)) same,
      ap (λ a. some (LockAccess.is_admin a)) same,
    )

row_of-IsPosted : (posted : Posted) {a : LockAccess} → row_of posted ≡ some a → IsPosted posted a
row_of-IsPosted posted e =
    let (lock, user, admin) =
      complete-parts posted.posted_lock posted.posted_user posted.posted_admin e in
    record { lock = lock; user = user; admin = admin }

-- What a creation that succeeds has added.
add_row-some :
    (t : Table) (posted : Posted) {t' : Table}
    → add_row t posted ≡ some t'
    → (a : LockAccess) × (t' ≡ t ++ (some a ∷ [])) × IsPosted posted a
add_row-some t posted {t'} e = elim (Option-cases (row_of posted)) [
  | inl incomplete ↦ let impossible = rw (incomplete, add_row) at e in cc
  | inr (a, is_row) ↦ elim (Bool-cases (ltb 0 (rows_passing t (of_user a.user_id a.lock_id)))) [
    | inl double ↦ let impossible = rw (is_row, add_row, double) at e in cc
    | inr single ↦
        let made : some (t ++ (some a ∷ [])) ≡ some t' = rw (is_row, add_row, single) at e in
        (a, sym (some-injective made), row_of-IsPosted posted is_row)
  ]
]

pub row_at-kept :
    {A : Type 0} (t : List (Option A)) (p : A → Bool) (i : ℕ) {a : A}
    → row_at t i ≡ some a
    → p a ≡ false
    → row_at (leave_all_out t p) i ≡ some a
row_at-kept [] p i at fails = cc
row_at-kept (row ∷ t) p zero at fails = rw (at, fails) refl
row_at-kept (row ∷ t) p (suc i) at fails = row_at-kept t p i at fails

pub leave_out-some :
    {A : Type 0} (p : A → Bool) (row : Option A) {a : A}
    → leave_out p row ≡ some a
    → (row ≡ some a) × (p a ≡ false)
leave_out-some p none e = cc
leave_out-some p (some b) e = ground arith

pub row_at-only :
    {A : Type 0} (t : List (Option A)) (p : A → Bool) (i : ℕ) {a : A}
    → row_at (leave_all_out t p) i ≡ some a
    → (row_at t i ≡ some a) × (p a ≡ false)
row_at-only [] p i e = cc
row_at-only (row ∷ t) p zero e = leave_out-some p row e
row_at-only (row ∷ t) p (suc i) e = row_at-only t p i e

row_at-others : (t : Table) (i j : ℕ) → (i == j) ≡ false → row_at (leave_row_out t i) j ≡ row_at t j
row_at-others [] i j apart = refl
row_at-others (row ∷ t) zero zero apart = absurd (ground arith)
row_at-others (row ∷ t) zero (suc j) apart = refl
row_at-others (row ∷ t) (suc i) zero apart = refl
row_at-others (row ∷ t) (suc i) (suc j) apart = row_at-others t i j (ground arith)

row_at-left_out : (t : Table) (i : ℕ) → row_at (leave_row_out t i) i ≡ none
row_at-left_out [] i = refl
row_at-left_out (row ∷ t) zero = refl
row_at-left_out (row ∷ t) (suc i) = row_at-left_out t i

pub database-AreObjects : AreObjects database
database-AreObjects = record {
  count-counts = rows_passing-counts;
  count-finds = rows_passing-finds;
  get_object_or_404-finds = first_passing-finds;
  get_object-finds = λ t queryset i at inside. rw (at, inside) refl;
  get_object-misses = λ t queryset i at outside. rw (at, outside) refl;
  create-keeps = λ t posted i made at.
      let (a, grown, is_posted) = add_row-some t posted made in
      ap (λ t. row_at t i) grown ∙ row_at-append t _ i at;
  create-adds = λ t posted made.
      let (a, grown, is_posted) = add_row-some t posted made in
      let (i, at) = row_at-last t a in (i, a, ap (λ t. row_at t i) grown ∙ at, is_posted);
  create-only = λ t posted i made at.
      let (b, grown, is_posted) = add_row-some t posted made in
      elim (row_at-snoc t b i (sym (ap (λ t. row_at t i) grown) ∙ at)) [
        | inl before ↦ inl before
        | inr same ↦ inr (subst (IsPosted posted) same is_posted)
      ];
  delete-keeps = row_at-kept;
  delete-only = row_at-only;
  delete_row-keeps = row_at-others;
  delete_row-deletes = row_at-left_out;
  save-saves = λ locks l lock. rw ((==_iff l l).1 refl) refl;
  save-keeps = λ locks l k lock apart. rw apart refl;
}
