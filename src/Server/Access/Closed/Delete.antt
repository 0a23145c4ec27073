-- ===== src/Server/Access/Closed/Delete.antt =====
-- What a DELETE of one access is answered: `LockAccessViewSet` of webserver/esloq/views.py with
-- `ReadOnlyIfNoAdminAndUsers` of webserver/esloq/permissions.py.
use esloq.Base.{
  ℕ, ◌≡◌, refl, true, none, some, Bool-cases, Option-cases, inl, inr, arith, if◌then◌else◌,
}
use esloq.Server.Access.{LockAccess, Objects, AreObjects, of_user, has_access, is_admin}
use esloq.Server.Access.Requests.{
  Response, no_content, forbidden, not_found, server_error, may_delete, in_queryset, destroy,
}
use esloq.Server.Access.Closed.{not_before, is_admin-has_access}

-- An admin of the row's lock deletes the row, another user with access is forbidden to, and one
-- without access does not find it; a row that does not exist is an error.
abbrev pub answer_to_delete :
    {Accesses Locks : Type 0} → Objects Accesses Locks → Accesses → ℕ → ℕ → Accesses × Response
answer_to_delete db t u pk = elim (db.get t pk) [
  | none ↦ (t, server_error)
  | some a ↦
      if is_admin db t u a.lock_id
      then (db.delete_row t pk, no_content)
      else if has_access db t u a.lock_id
      then (t, forbidden)
      else (t, not_found)
]

module _ {Accesses Locks : Type 0} {db : Objects Accesses Locks} (laws : AreObjects db) where
  -- A user who has no access finds no row of the lock in the query set.
  in_queryset-has_access :
      (t : Accesses) (u pk : ℕ) {a : LockAccess}
      → db.get t pk ≡ some a
      → in_queryset db t u a ≡ true
      → has_access db t u a.lock_id ≡ true
  unfolding in_queryset has_access
  in_queryset-has_access t u pk {a} at inside = elim (Bool-cases (is_admin db t u a.lock_id)) [
    | inl admin ↦ is_admin-has_access laws t u a.lock_id admin
    | inr plain ↦
        let own : of_user u a.lock_id a ≡ true = ground arith in
        let counted = laws.count-counts t pk (of_user u a.lock_id) at own in ground arith
  ]

  admin_in_queryset :
      (t : Accesses) (u : ℕ) (a : LockAccess)
      → is_admin db t u a.lock_id ≡ true
      → in_queryset db t u a ≡ true
  unfolding in_queryset
  admin_in_queryset t u a admin = ground arith

  -- If the database does what Django documents, a DELETE of an access is answered by the user's part
  -- in the lock of that access: an admin of the lock deletes it, a user with access on the lock who is
  -- no admin is forbidden to, a user without access gets not found, a missing access is a server
  -- error; in the last three cases the accesses stay as they are.
  pub destroy-answers : (t : Accesses) (u pk : ℕ) → destroy db t u pk ≡ answer_to_delete db t u pk
  unfolding destroy may_delete
  destroy-answers t u pk = elim (Option-cases (db.get t pk)) [
    | inl gone ↦ rw (gone, destroy, may_delete, answer_to_delete) refl
    | inr (a, at) ↦ elim (Bool-cases (is_admin db t u a.lock_id)) [
      | inl admin ↦
          let access = is_admin-has_access laws t u a.lock_id admin in
          let found =
            laws.get_object-finds t (in_queryset db t u) pk at (admin_in_queryset t u a admin) in
          rw (at, admin, access, found, destroy, may_delete, answer_to_delete) refl
      | inr plain ↦ elim (Bool-cases (has_access db t u a.lock_id)) [
        | inl access ↦ rw (at, access, plain, destroy, may_delete, answer_to_delete) refl
        | inr stranger ↦
            let outside = not_before (in_queryset-has_access t u pk at) stranger in
            let missing = laws.get_object-misses t (in_queryset db t u) pk at outside in
            rw (at, stranger, plain, missing, destroy, may_delete, answer_to_delete) refl
      ]
    ]
  ]
