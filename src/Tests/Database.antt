-- ===== src/Tests/Database.antt =====
-- A database that satisfies the documented laws: a table of accesses is a list, a deleted row leaves
-- a gap, and a row is created at the end.
pub mod Laws
use Prim.Native.Nat.{compare, Ordering}
use esloq.Base.{
  ℕ, zero, suc, ◌+◌, ◌<◌, ◌≡◌, ◌⊎◌, refl, sym, subst, ==_iff, ◌∙◌, ap, List, [], ◌∷◌, ◌++◌, Bool,
  true, false, ◌&&◌, Option, none, some, ltb, ◌==◌, if◌then◌else◌, Bool-cases, Option-cases, inl,
  inr, arith,
}
use esloq.Server.{Esloq}
use esloq.Server.Access.{LockAccess, Posted, IsPosted, Objects, AreObjects, on_lock, of_user}

abbrev pub Table : Type 0
Table = List (Option LockAccess)

abbrev pub row_at : {A : Type 0} → List (Option A) → ℕ → Option A
row_at [] i = none
row_at (row ∷ rows) zero = row
row_at (row ∷ rows) (suc i) = row_at rows i

-- The row, if there is one that the filter leaves.
abbrev passing : (LockAccess → Bool) → Option LockAccess → Option LockAccess
passing p none = none
passing p (some a) = if p a then some a else none

abbrev one_if : Option LockAccess → ℕ
one_if none = 0
one_if (some a) = 1

abbrev rows_passing : Table → (LockAccess → Bool) → ℕ
rows_passing [] p = 0
rows_passing (row ∷ rows) p = one_if (passing p row) + rows_passing rows p

abbrev first_of : Option LockAccess → Option LockAccess → Option LockAccess
first_of none later = later
first_of (some a) later = some a

abbrev first_passing : Table → (LockAccess → Bool) → Option LockAccess
first_passing [] p = none
first_passing (row ∷ rows) p = first_of (passing p row) (first_passing rows p)

abbrev complete : Option ℕ → Option ℕ → Option Bool → Option LockAccess
complete none u admin = none
complete (some l) none admin = none
complete (some l) (some u) none = none
complete (some l) (some u) (some admin) =
    some (record { lock_id = l; user_id = u; is_admin = admin })

abbrev row_of : Posted → Option LockAccess
row_of posted = complete posted.posted_lock posted.posted_user posted.posted_admin

-- A row is valid if it is complete and the user has no access on the lock yet.
abbrev add_row : Table → Posted → Option Table
add_row t posted = elim (row_of posted) [
  | none ↦ none
  | some a ↦
      if ltb 0 (rows_passing t (of_user a.user_id a.lock_id))
      then none
      else some (t ++ (some a ∷ []))
]

abbrev pub leave_out : {A : Type 0} → (A → Bool) → Option A → Option A
leave_out p none = none
leave_out p (some a) = if p a then none else some a

abbrev pub leave_all_out : {A : Type 0} → List (Option A) → (A → Bool) → List (Option A)
leave_all_out [] p = []
leave_all_out (row ∷ rows) p = leave_out p row ∷ leave_all_out rows p

abbrev leave_row_out : Table → ℕ → Table
leave_row_out [] i = []
leave_row_out (row ∷ rows) zero = none ∷ rows
leave_row_out (row ∷ rows) (suc i) = row ∷ leave_row_out rows i

abbrev pub Locks : Type 0
Locks = ℕ → Option Esloq

abbrev pub database : Objects Table Locks
database = record {
  get = row_at;
  count = rows_passing;
  get_object_or_404 = first_passing;
  get_object = λ t queryset i. passing queryset (row_at t i);
  create = add_row;
  delete = leave_all_out;
  delete_row = leave_row_out;
  get_lock = λ locks l. locks l;
  save = λ locks l lock k. if l == k then some lock else locks k;
}
