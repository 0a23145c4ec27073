-- ===== src/Server/Access/Closed/Reopened.antt =====
-- A lock whose accesses an admin deletes: `LockLockAccessesViewSet.destroy` of
-- webserver/esloq/views.py, and a POST of `LockAccessViewSet` after it.
use esloq.Base.{
  some-injective, ℕ, ◌≡◌, refl, ap, ◌∙◌, [], ◌∷◌, true, false, some, ltb→lt, lt→ltb, Bool-cases,
  inl, inr, arith, ==_iff,
}
use esloq.Crypto.{SecretBox}
use esloq.Server.Access.{
  LockAccess, Posted, IsPosted, Objects, AreObjects, on_lock, of_admin, is_admin, has_users,
}
use esloq.Server.Access.Requests.{
  Call, Request, Tables, Response, no_content, created, may_post, create, destroy_all, view_of_url,
  answer_request, answer_requests,
}

-- The request of a user who is in the URL.
abbrev pub by : ℕ → Call → Request
by u call = record { user = some u; url_id = u; call = call }

-- The data by which a user makes himself an admin.
abbrev pub own_admin : ℕ → ℕ → Posted
own_admin u l = record { posted_lock = some l; posted_user = some u; posted_admin = some true }

module _ {Accesses Locks : Type 0} {db : Objects Accesses Locks} (laws : AreObjects db) where
  deleted-has_users : (t : Accesses) (l : ℕ) → has_users db (db.delete t (on_lock l)) l ≡ false
  unfolding has_users
  deleted-has_users t l = elim (Bool-cases (has_users db (db.delete t (on_lock l)) l)) [
    | inl users ↦
        let (i, a, at, on) =
          laws.count-finds (db.delete t (on_lock l)) (on_lock l) (ltb→lt _ _ users) in
        let (before, off) = laws.delete-only t (on_lock l) i at in cc
    | inr none_left ↦ none_left
  ]

  posted-of_admin : (u l : ℕ) (a : LockAccess) → IsPosted (own_admin u l) a → of_admin u l a ≡ true
  posted-of_admin u l a is_posted =
      let same_lock : l ≡ a.lock_id = some-injective is_posted.lock in
      let same_user : u ≡ a.user_id = some-injective is_posted.user in
      let admin : true ≡ a.is_admin = some-injective is_posted.admin in ground arith

  created-is_admin :
      (t : Accesses) (u l : ℕ) {t' : Accesses}
      → db.create t (own_admin u l) ≡ some t'
      → is_admin db t' u l ≡ true
  unfolding is_admin
  created-is_admin t u l {t'} made =
      let (i, a, at, is_posted) = laws.create-adds t (own_admin u l) made in
      lt→ltb _ _ (laws.count-counts t' i (of_admin u l) at (posted-of_admin u l a is_posted))

  answer_request-in_url :
      (box : SecretBox) (s : Tables Accesses Locks) (u : ℕ) (call : Call)
      → answer_request db box s (by u call) ≡ view_of_url db box s u call
  unfolding answer_request
  answer_request-in_url box s u call = rw ((==_iff u u).1 refl, answer_request) refl

  answer_request-destroy_all :
      (box : SecretBox) (s : Tables Accesses Locks) (u l : ℕ)
      → is_admin db s.accesses u l ≡ true
      → answer_request db box s (by u (Call.delete_accesses l))
        ≡ (record s { accesses = db.delete s.accesses (on_lock l) }, no_content)
  unfolding view_of_url destroy_all
  answer_request-destroy_all box s u l admin =
      answer_request-in_url box s u (Call.delete_accesses l) ∙ rw (destroy_all, admin) refl

  answer_request-create :
      (box : SecretBox) (s : Tables Accesses Locks) (v l : ℕ) {t' : Accesses}
      → has_users db s.accesses l ≡ false
      → db.create s.accesses (own_admin v l) ≡ some t'
      → answer_request db box s (by v (Call.post_access (own_admin v l)))
        ≡ (record s { accesses = t' }, created)
  unfolding view_of_url create may_post
  answer_request-create box s v l empty made =
      answer_request-in_url box s v (Call.post_access (own_admin v l))
      ∙ rw (create, may_post, empty, made) refl

  answer_requests-two :
      (box : SecretBox) (s : Tables Accesses Locks) (r r' : Request)
      {s' s'' : Tables Accesses Locks} {a a' : Response}
      → answer_request db box s r ≡ (s', a)
      → answer_request db box s' r' ≡ (s'', a')
      → answer_requests db box s (r ∷ r' ∷ []) ≡ (s'', a ∷ a' ∷ [])
  unfolding answer_requests
  answer_requests-two box s r r' {a = a} first second =
      ap (λ p. ((answer_request db box p.0 r').0, p.1 ∷ (answer_request db box p.0 r').1 ∷ []))
        first
      ∙ ap (λ p. (p.0, a ∷ p.1 ∷ [])) second

  -- If the database does what Django documents, then after an admin's DELETE of all the accesses on a
  -- lock, any user whose POST of an access as admin for himself is valid becomes an admin on it, and
  -- both requests succeed.
  pub delete_accesses-reopens :
      (box : SecretBox) (s : Tables Accesses Locks) (u v l : ℕ) {t' : Accesses}
      → is_admin db s.accesses u l ≡ true
      → db.create (db.delete s.accesses (on_lock l)) (own_admin v l) ≡ some t'
      → (answer_requests db box s
            (by u (Call.delete_accesses l) ∷ by v (Call.post_access (own_admin v l)) ∷ [])
          ≡ (record s { accesses = t' }, no_content ∷ created ∷ []))
        × (is_admin db t' v l ≡ true)
  delete_accesses-reopens box s u v l admin made =
      let emptied = record s { accesses = db.delete s.accesses (on_lock l) } in
      let first = answer_request-destroy_all box s u l admin in
      let second = answer_request-create box emptied v l (deleted-has_users s.accesses l) made in
      (answer_requests-two box s _ _ first second, created-is_admin emptied.accesses v l made)
