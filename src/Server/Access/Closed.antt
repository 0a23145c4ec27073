-- ===== src/Server/Access/Closed.antt =====
-- Who changes the accesses on a lock: the filters of webserver/esloq/permissions.py, and the view
-- sets that write accesses.
pub mod Accesses
pub mod Strangers
pub mod Delete
pub mod Reopened
use esloq.Base.{
  ℕ, ◌<◌, ◌≡◌, ◌↔◌, refl, Bool, true, false, ◌&&◌, some, ltb, ltb→lt, lt→ltb, ◌==◌, Bool-cases, inl,
  inr, arith, ==_iff,
}
use esloq.Server.Access.{
  LockAccess, Objects, AreObjects, of_user, of_admin, on_lock, has_access, is_admin, has_users,
}

-- The two tables have the same accesses on the lock, under the same keys.
pub record SameOn {Accesses Locks : Type 0} (db : Objects Accesses Locks) (l : ℕ) (t t' : Accesses)
    : Type 0 where
  pub kept : (i : ℕ) (a : LockAccess) → a.lock_id ≡ l → db.get t i ≡ some a → db.get t' i ≡ some a
  pub only : (i : ℕ) (a : LockAccess) → a.lock_id ≡ l → db.get t' i ≡ some a → db.get t i ≡ some a

-- A filter that looks at one lock only.
abbrev pub IsAbout : ℕ → (LockAccess → Bool) → Type 0
IsAbout l p = (a : LockAccess) → p a ≡ true → a.lock_id ≡ l

pub of_user-IsAbout : (u l : ℕ) → IsAbout l (of_user u l)
of_user-IsAbout u l a h = ground arith

pub of_admin-IsAbout : (u l : ℕ) → IsAbout l (of_admin u l)
of_admin-IsAbout u l a h = ground arith

pub on_lock-IsAbout : (l : ℕ) → IsAbout l (on_lock l)
on_lock-IsAbout l a h = ground arith

pub not_before : {b c : Bool} → (b ≡ true → c ≡ true) → c ≡ false → b ≡ false
not_before {b = true} implies is_not = let impossible = implies refl in cc
not_before {b = false} implies is_not = refl

module _ {Accesses Locks : Type 0} {db : Objects Accesses Locks} {l : ℕ} where
  pub SameOn-refl : {t : Accesses} → SameOn db l t t
  SameOn-refl = record { kept = λ i a on e. e; only = λ i a on e. e }

  pub SameOn-trans :
      {t t' t'' : Accesses} → SameOn db l t t' → SameOn db l t' t'' → SameOn db l t t''
  SameOn-trans first rest = record {
    kept = λ i a on e. rest.kept i a on (first.kept i a on e);
    only = λ i a on e. first.only i a on (rest.only i a on e);
  }

  SameOn-sym : {t t' : Accesses} → SameOn db l t t' → SameOn db l t' t
  SameOn-sym same = record { kept = same.only; only = same.kept }

module _ {Accesses Locks : Type 0} {db : Objects Accesses Locks} (laws : AreObjects db) where
  -- A filter that one table passes, and that is narrower than another one.
  pub count-narrower :
      (t : Accesses) (p q : LockAccess → Bool)
      → ((a : LockAccess) → p a ≡ true → q a ≡ true)
      → ltb 0 (db.count t p) ≡ true
      → ltb 0 (db.count t q) ≡ true
  count-narrower t p q narrower some_left =
      let (i, a, at, passes) = laws.count-finds t p (ltb→lt _ _ some_left) in
      lt→ltb _ _ (laws.count-counts t i q at (narrower a passes))

  -- A filter about the lock leaves something of both tables.
  count-SameOn :
      (l : ℕ) (p : LockAccess → Bool) {t t' : Accesses}
      → IsAbout l p
      → SameOn db l t t'
      → ltb 0 (db.count t p) ≡ true
      → ltb 0 (db.count t' p) ≡ true
  count-SameOn l p {t} {t'} about same some_left =
      let (i, a, at, passes) = laws.count-finds t p (ltb→lt _ _ some_left) in
      lt→ltb _ _ (laws.count-counts t' i p (same.kept i a (about a passes) at) passes)

  pub is_admin-has_access :
      (t : Accesses) (u l : ℕ) → is_admin db t u l ≡ true → has_access db t u l ≡ true
  unfolding is_admin has_access
  is_admin-has_access t u l admin =
      count-narrower t (of_admin u l) (of_user u l) (λ a h. ground arith) admin

  pub has_access-is_admin :
      (t : Accesses) (u l : ℕ) → has_access db t u l ≡ false → is_admin db t u l ≡ false
  has_access-is_admin t u l stranger = not_before (is_admin-has_access t u l) stranger

  pub has_users-SameOn :
      (l : ℕ) {t t' : Accesses}
      → SameOn db l t t'
      → has_users db t l ≡ true
      → has_users db t' l ≡ true
  unfolding has_users
  has_users-SameOn l same users = count-SameOn l (on_lock l) (on_lock-IsAbout l) same users

  pub is_admin-SameOn :
      (u l : ℕ) {t t' : Accesses}
      → SameOn db l t t'
      → is_admin db t u l ≡ false
      → is_admin db t' u l ≡ false
  unfolding is_admin
  is_admin-SameOn u l same none_before =
      not_before (count-SameOn l (of_admin u l) (of_admin-IsAbout u l) (SameOn-sym same))
        none_before

  pub has_access-SameOn :
      (u l : ℕ) {t t' : Accesses}
      → SameOn db l t t'
      → has_access db t u l ≡ false
      → has_access db t' u l ≡ false
  unfolding has_access
  has_access-SameOn u l same none_before =
      not_before (count-SameOn l (of_user u l) (of_user-IsAbout u l) (SameOn-sym same)) none_before
