-- ===== src/Server/Access.antt =====
-- Who has access on a lock: the table `LockAccess` of webserver/esloq/models.py, and the tests of
-- webserver/esloq/permissions.py. The tables of the database are types of their own, and what Django
-- does with them is an argument (`Objects`), with what its documentation says as named hypotheses
-- (`AreObjects`).
pub mod Requests
pub mod Closed
pub mod Tickets
use esloq.Base.{ℕ, ◌<◌, ◌≡◌, ◌⊎◌, Bool, true, false, ◌&&◌, Option, none, some, ltb, ◌==◌}
use esloq.Server.{Esloq}

-- A row of the table; its primary key is the number under which it is found.
pub record LockAccess : Type 0 where
  pub lock_id : ℕ
  pub user_id : ℕ
  pub is_admin : Bool

-- The data of a POST, each part of which may be missing.
pub record Posted : Type 0 where
  pub posted_lock : Option ℕ
  pub posted_user : Option ℕ
  pub posted_admin : Option Bool

-- The row is the one posted.
pub record IsPosted (posted : Posted) (a : LockAccess) : Type 0 where
  pub lock : posted.posted_lock ≡ some a.lock_id
  pub user : posted.posted_user ≡ some a.user_id
  pub admin : posted.posted_admin ≡ some a.is_admin

-- The calls of Django and of its REST framework: a row by its key (`none` is DoesNotExist), the
-- number of rows that a filter leaves, `get_object_or_404` with a filter and `get_object` with a query
-- set and a key (`none` is Http404), the serializer's validation and creation of a row (`none` is ValidationError), the deletion of the
-- rows that a filter leaves and of the row with a key, and the row of a lock and its `save`.
pub record Objects (Accesses Locks : Type 0) : Type 0 where
  pub get : Accesses → ℕ → Option LockAccess
  pub count : Accesses → (LockAccess → Bool) → ℕ
  pub get_object_or_404 : Accesses → (LockAccess → Bool) → Option LockAccess
  pub get_object : Accesses → (LockAccess → Bool) → ℕ → Option LockAccess
  pub create : Accesses → Posted → Option Accesses
  pub delete : Accesses → (LockAccess → Bool) → Accesses
  pub delete_row : Accesses → ℕ → Accesses
  pub get_lock : Locks → ℕ → Option Esloq
  pub save : Locks → ℕ → Esloq → Locks

-- What is documented of them.
pub record AreObjects {Accesses Locks : Type 0} (db : Objects Accesses Locks) : Type 0 where
  pub count-counts :
      (t : Accesses) (i : ℕ) (p : LockAccess → Bool) {a : LockAccess}
      → db.get t i ≡ some a
      → p a ≡ true
      → 0 < db.count t p
  pub count-finds :
      (t : Accesses) (p : LockAccess → Bool)
      → 0 < db.count t p
      → (i : ℕ) × (a : LockAccess) × (db.get t i ≡ some a) × (p a ≡ true)
  pub get_object_or_404-finds :
      (t : Accesses) (p : LockAccess → Bool) {a : LockAccess}
      → db.get_object_or_404 t p ≡ some a
      → (i : ℕ) × (db.get t i ≡ some a) × (p a ≡ true)
  pub get_object-finds :
      (t : Accesses) (queryset : LockAccess → Bool) (i : ℕ) {a : LockAccess}
      → db.get t i ≡ some a
      → queryset a ≡ true
      → db.get_object t queryset i ≡ some a
  pub get_object-misses :
      (t : Accesses) (queryset : LockAccess → Bool) (i : ℕ) {a : LockAccess}
      → db.get t i ≡ some a
      → queryset a ≡ false
      → db.get_object t queryset i ≡ none
  pub create-keeps :
      (t : Accesses) (posted : Posted) (i : ℕ) {t' : Accesses} {a : LockAccess}
      → db.create t posted ≡ some t'
      → db.get t i ≡ some a
      → db.get t' i ≡ some a
  pub create-adds :
      (t : Accesses) (posted : Posted) {t' : Accesses}
      → db.create t posted ≡ some t'
      → (i : ℕ) × (a : LockAccess) × (db.get t' i ≡ some a) × IsPosted posted a
  pub create-only :
      (t : Accesses) (posted : Posted) (i : ℕ) {t' : Accesses} {a : LockAccess}
      → db.create t posted ≡ some t'
      → db.get t' i ≡ some a
      → (db.get t i ≡ some a) ⊎ IsPosted posted a
  pub delete-keeps :
      (t : Accesses) (p : LockAccess → Bool) (i : ℕ) {a : LockAccess}
      → db.get t i ≡ some a
      → p a ≡ false
      → db.get (db.delete t p) i ≡ some a
  pub delete-only :
      (t : Accesses) (p : LockAccess → Bool) (i : ℕ) {a : LockAccess}
      → db.get (db.delete t p) i ≡ some a
      → (db.get t i ≡ some a) × (p a ≡ false)
  pub delete_row-keeps :
      (t : Accesses) (i j : ℕ) → (i == j) ≡ false → db.get (db.delete_row t i) j ≡ db.get t j
  pub delete_row-deletes : (t : Accesses) (i : ℕ) → db.get (db.delete_row t i) i ≡ none
  pub save-saves : (t : Locks) (l : ℕ) (lock : Esloq) → db.get_lock (db.save t l lock) l ≡ some lock
  pub save-keeps :
      (t : Locks) (l k : ℕ) (lock : Esloq)
      → (l == k) ≡ false
      → db.get_lock (db.save t l lock) k ≡ db.get_lock t k

-- The filters `lock_id=`, `user_id=` and `lock_id=`, and those two and `is_admin=True`.
abbrev pub on_lock : ℕ → LockAccess → Bool
on_lock lock_id a = a.lock_id == lock_id

abbrev pub of_user : ℕ → ℕ → LockAccess → Bool
of_user user_id lock_id a = (a.user_id == user_id) && (a.lock_id == lock_id)

abbrev pub of_admin : ℕ → ℕ → LockAccess → Bool
of_admin user_id lock_id a = of_user user_id lock_id a && a.is_admin

module _ {Accesses Locks : Type 0} (db : Objects Accesses Locks) where
  unfoldable pub has_access : Accesses → ℕ → ℕ → Bool
  has_access t user_id lock_id = ltb 0 (db.count t (of_user user_id lock_id))

  unfoldable pub is_admin : Accesses → ℕ → ℕ → Bool
  is_admin t user_id lock_id = ltb 0 (db.count t (of_admin user_id lock_id))

  unfoldable pub has_users : Accesses → ℕ → Bool
  has_users t lock_id = ltb 0 (db.count t (on_lock lock_id))
