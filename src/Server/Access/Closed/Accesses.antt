-- ===== src/Server/Access/Closed/Accesses.antt =====
-- The view sets of webserver/esloq/views.py that write accesses, for a user who is not an admin of a
-- lock that has users: `LockAccessViewSet` and `LockLockAccessesViewSet`.
use esloq.Base.{
  some-injective, ℕ, ◌≡◌, ◌≢◌, sym, subst, ◌∙◌, ap, true, false, some, ◌==◌, Bool-cases,
  Option-cases, inl, inr, arith, ==_iff,
}
use esloq.Crypto.{SecretBox}
use esloq.Server.Access.{
  LockAccess, Posted, Objects, AreObjects, on_lock, has_access, is_admin, has_users,
}
use esloq.Server.Access.Requests.{
  Call, Request, Tables, may_post, create, destroy, destroy_all, view_of_url, answer_request,
}
use esloq.Server.Access.Closed.{SameOn, SameOn-refl, not_before}
use esloq.Server.Access.Closed.Delete.{answer_to_delete, destroy-answers}

module _ {Accesses Locks : Type 0} {db : Objects Accesses Locks} (laws : AreObjects db)
    (l : ℕ) where
  -- A row that is not on the lock is added.
  created-SameOn :
      (t : Accesses) (posted : Posted) {t' : Accesses}
      → db.create t posted ≡ some t'
      → posted.posted_lock ≢ some l
      → SameOn db l t t'
  created-SameOn t posted {t'} made other = record {
    kept = λ i a on at. laws.create-keeps t posted i made at;
    only = λ i a on at. elim (laws.create-only t posted i made at) [
      | inl before ↦ before
      | inr is_posted ↦ absurd (other (is_posted.lock ∙ ap some on))
    ];
  }

  may_post-other :
      (t : Accesses) (u : ℕ) (posted : Posted)
      → has_users db t l ≡ true
      → is_admin db t u l ≡ false
      → may_post db t u posted ≡ true
      → posted.posted_lock ≢ some l
  unfolding may_post
  may_post-other t u posted users plain allowed on =
      let refused = rw (on, may_post, users, plain) at allowed in cc

  create-SameOn :
      (t : Accesses) (u : ℕ) (posted : Posted)
      → has_users db t l ≡ true
      → is_admin db t u l ≡ false
      → SameOn db l t (create db t u posted).0
  unfolding create
  create-SameOn t u posted users plain = elim (Bool-cases (may_post db t u posted)) [
    | inl allowed ↦ elim (Option-cases (db.create t posted)) [
      | inl invalid ↦ rw (allowed, create, invalid) SameOn-refl
      | inr (t', made) ↦
          rw (allowed, create, made)
            (created-SameOn t posted made (may_post-other t u posted users plain allowed))
    ]
    | inr refused ↦ rw (refused, create) SameOn-refl
  ]

  -- A row that is not on the lock is deleted.
  deleted-SameOn :
      (t : Accesses) (pk : ℕ) {b : LockAccess}
      → db.get t pk ≡ some b
      → b.lock_id ≢ l
      → SameOn db l t (db.delete_row t pk)
  deleted-SameOn t pk {b} at other = record {
    kept = λ i a on here. elim (Bool-cases (pk == i)) [
      | inl same ↦
          let one_row : b.lock_id ≡ a.lock_id =
            ap LockAccess.lock_id
              (some-injective (sym at ∙ (ap (db.get t) ((==_iff pk i).0 same) ∙ here))) in
          absurd (other (one_row ∙ on))
      | inr apart ↦ laws.delete_row-keeps t pk i apart ∙ here
    ];
    only = λ i a on here. elim (Bool-cases (pk == i)) [
      | inl same ↦
          let gone =
            sym (laws.delete_row-deletes t pk)
            ∙ (ap (db.get (db.delete_row t pk)) ((==_iff pk i).0 same) ∙ here) in
          cc
      | inr apart ↦ sym (laws.delete_row-keeps t pk i apart) ∙ here
    ];
  }

  destroy-SameOn :
      (t : Accesses) (u pk : ℕ) → is_admin db t u l ≡ false → SameOn db l t (destroy db t u pk).0
  destroy-SameOn t u pk plain =
      subst (λ x. SameOn db l t x.0) (sym (destroy-answers laws t u pk))
        (elim (Option-cases (db.get t pk)) [
          | inl gone ↦ rw (gone, answer_to_delete) SameOn-refl
          | inr (a, at) ↦ elim (Bool-cases (is_admin db t u a.lock_id)) [
            | inl admin ↦
                rw (at, answer_to_delete, admin)
                  (deleted-SameOn t pk at (λ on. let also = rw on at admin in cc))
            | inr not_one ↦ elim (Bool-cases (has_access db t u a.lock_id)) [
              | inl access ↦ rw (at, answer_to_delete, not_one, access) SameOn-refl
              | inr stranger ↦ rw (at, answer_to_delete, not_one, stranger) SameOn-refl
            ]
          ]
        ])

  destroy_all-SameOn :
      (t : Accesses) (u pk : ℕ)
      → is_admin db t u l ≡ false
      → SameOn db l t (destroy_all db t u pk).0
  unfolding destroy_all
  destroy_all-SameOn t u pk plain = elim (Bool-cases (is_admin db t u pk)) [
    | inl admin ↦
        let other : (pk == l) ≡ false =
          not_before (λ same. ap (is_admin db t u) (sym ((==_iff pk l).0 same)) ∙ admin) plain in
        rw admin (record {
          kept = λ i a on at. laws.delete-keeps t (on_lock pk) i at (ground arith);
          only = λ i a on at. (laws.delete-only t (on_lock pk) i at).0;
        })
    | inr no_admin ↦ rw no_admin SameOn-refl
  ]

  view_of_url-SameOn :
      (box : SecretBox) (s : Tables Accesses Locks) (u : ℕ) (call : Call)
      → has_users db s.accesses l ≡ true
      → is_admin db s.accesses u l ≡ false
      → SameOn db l s.accesses (view_of_url db box s u call).0.accesses
  unfolding view_of_url
  view_of_url-SameOn box s u (Call.post_access posted) users plain =
      create-SameOn s.accesses u posted users plain
  view_of_url-SameOn box s u (Call.delete_access pk) users plain =
      destroy-SameOn s.accesses u pk plain
  view_of_url-SameOn box s u (Call.delete_accesses pk) users plain =
      destroy_all-SameOn s.accesses u pk plain
  view_of_url-SameOn box s u (Call.get_ticket pk urandom) users plain = SameOn-refl

  pub answer_request-SameOn :
      (box : SecretBox) (s : Tables Accesses Locks) (request : Request)
      → has_users db s.accesses l ≡ true
      → ((u : ℕ) → request.user ≡ some u → is_admin db s.accesses u l ≡ false)
      → SameOn db l s.accesses (answer_request db box s request).0.accesses
  unfolding answer_request
  answer_request-SameOn box s request users plain = elim (Option-cases request.user) [
    | inl nobody ↦ rw (nobody, answer_request) SameOn-refl
    | inr (u, is_u) ↦ elim (Bool-cases (request.url_id == u)) [
      | inl in_url ↦
          rw (is_u, answer_request, in_url)
            (view_of_url-SameOn box s u request.call users (plain u is_u))
      | inr other_url ↦ rw (is_u, answer_request, other_url) SameOn-refl
    ]
  ]
