-- ===== src/Server/Access/Closed/Strangers.antt =====
-- Requests one after another, by users who are no admins of a lock, or have no access on it: the
-- accesses on the lock, its row and its tickets (`LockTicketViewSet` of
-- webserver/esloq/views.py).
use esloq.Base.{
  ℕ, ◌≡◌, ◌≢◌, refl, ◌∙◌, ap, List, [], ◌∷◌, true, false, some, ◌==◌, ==_iff, Bool-cases,
  Option-cases, inl, inr, lt→ltb,
}
use esloq.Crypto.{SecretBox}
use esloq.Server.Access.{Objects, AreObjects, of_user, has_access, is_admin, has_users}
use esloq.Server.Access.Requests.{
  Call, Request, Tables, Response, given, not_found, retrieve, give_ticket, view_of_url,
  answer_request, answer_requests,
}
use esloq.Server.Access.Closed.{
  SameOn, SameOn-refl, SameOn-trans, has_users-SameOn, is_admin-SameOn, has_access-SameOn,
  has_access-is_admin,
}
use esloq.Server.Access.Closed.Accesses.{answer_request-SameOn}

-- Every user that is authenticated in the requests is such a one.
unfoldable pub AreBy : (ℕ → Type 0) → List Request → Type 0
AreBy P [] = Unit
AreBy P (request ∷ requests) = ((u : ℕ) → request.user ≡ some u → P u) × AreBy P requests

-- No request for a ticket of the lock is answered with one.
pub NoTicket : ℕ → List Request → List Response → Type 0
NoTicket l (request ∷ requests) (response ∷ responses) =
    ((urandom : List ℕ) (sealed : List ℕ × List ℕ)
      → request.call ≡ Call.get_ticket l urandom
      → response ≢ given sealed)
    × NoTicket l requests responses
NoTicket l _ _ = Unit

AreBy-map :
    {P Q : ℕ → Type 0} (requests : List Request)
    → ((u : ℕ) → P u → Q u)
    → AreBy P requests
    → AreBy Q requests
unfolding AreBy
AreBy-map [] f by = tt
AreBy-map (request ∷ requests) f (one, rest) =
    (λ u is_u. f u (one u is_u), AreBy-map requests f rest)

module _ {Accesses Locks : Type 0} {db : Objects Accesses Locks} (laws : AreObjects db) (l : ℕ)
    (box : SecretBox) where
  -- If the database does what Django documents and a lock has users, then no requests, in any order,
  -- of users none of whom is an admin on the lock change the accesses on it.
  pub answer_requests-SameOn :
      (s : Tables Accesses Locks) (requests : List Request)
      → has_users db s.accesses l ≡ true
      → AreBy (λ u. is_admin db s.accesses u l ≡ false) requests
      → SameOn db l s.accesses (answer_requests db box s requests).0.accesses
  unfolding answer_requests AreBy
  answer_requests-SameOn s [] users by = SameOn-refl
  answer_requests-SameOn s (request ∷ requests) users (one, rest) =
      let s' = (answer_request db box s request).0 in
      let same : SameOn db l s.accesses s'.accesses =
        answer_request-SameOn laws l box s request users one in
      SameOn-trans same (
        answer_requests-SameOn s' requests (has_users-SameOn laws l same users)
          (AreBy-map requests (λ u. is_admin-SameOn laws u l same) rest))

  retrieve-refuses :
      (s : Tables Accesses Locks) (u : ℕ) (urandom : List ℕ)
      → has_access db s.accesses u l ≡ false
      → retrieve db box s u l urandom ≡ (s.locks, not_found)
  unfolding retrieve has_access
  retrieve-refuses s u urandom stranger =
      elim (Option-cases (db.get_object_or_404 s.accesses (of_user u l))) [
        | inl missing ↦ rw (retrieve, missing) refl
        | inr (a, found) ↦
            let (i, at, passes) = laws.get_object_or_404-finds s.accesses (of_user u l) found in
            let counted = lt→ltb _ _ (laws.count-counts s.accesses i (of_user u l) at passes) in cc
      ]

  give_ticket-keeps :
      (locks : Locks) (k : ℕ) (urandom : List ℕ)
      → (k == l) ≡ false
      → db.get_lock (give_ticket db box locks k urandom).0 l ≡ db.get_lock locks l
  unfolding give_ticket
  give_ticket-keeps locks k urandom other = elim (Option-cases (db.get_lock locks k)) [
    | inl missing ↦ rw (give_ticket, missing) refl
    | inr (row, found) ↦ rw (give_ticket, found) (laws.save-keeps locks k l _ other)
  ]

  retrieve-keeps :
      (s : Tables Accesses Locks) (u k : ℕ) (urandom : List ℕ)
      → has_access db s.accesses u l ≡ false
      → db.get_lock (retrieve db box s u k urandom).0 l ≡ db.get_lock s.locks l
  unfolding retrieve
  retrieve-keeps s u k urandom stranger = elim (Bool-cases (k == l)) [
    | inl same ↦
        ap (λ k. db.get_lock (retrieve db box s u k urandom).0 l) ((==_iff k l).0 same)
        ∙ ap (λ r. db.get_lock r.0 l) (retrieve-refuses s u urandom stranger)
    | inr other ↦ elim (Option-cases (db.get_object_or_404 s.accesses (of_user u k))) [
      | inl missing ↦ rw (retrieve, missing) refl
      | inr (a, found) ↦ rw (retrieve, found) (give_ticket-keeps s.locks k urandom other)
    ]
  ]

  view_of_url-keeps :
      (s : Tables Accesses Locks) (u : ℕ) (call : Call)
      → has_access db s.accesses u l ≡ false
      → db.get_lock (view_of_url db box s u call).0.locks l ≡ db.get_lock s.locks l
  unfolding view_of_url
  view_of_url-keeps s u (Call.post_access posted) stranger = refl
  view_of_url-keeps s u (Call.delete_access pk) stranger = refl
  view_of_url-keeps s u (Call.delete_accesses pk) stranger = refl
  view_of_url-keeps s u (Call.get_ticket pk urandom) stranger =
      retrieve-keeps s u pk urandom stranger

  answer_request-keeps :
      (s : Tables Accesses Locks) (request : Request)
      → ((u : ℕ) → request.user ≡ some u → has_access db s.accesses u l ≡ false)
      → db.get_lock (answer_request db box s request).0.locks l ≡ db.get_lock s.locks l
  unfolding answer_request
  answer_request-keeps s request stranger = elim (Option-cases request.user) [
    | inl nobody ↦ rw (nobody, answer_request) refl
    | inr (u, is_u) ↦ elim (Bool-cases (request.url_id == u)) [
      | inl in_url ↦
          rw (is_u, answer_request, in_url) (view_of_url-keeps s u request.call (stranger u is_u))
      | inr other_url ↦ rw (is_u, answer_request, other_url) refl
    ]
  ]

  answer_request-gives_none :
      (s : Tables Accesses Locks) (request : Request) (urandom : List ℕ) (sealed : List ℕ × List ℕ)
      → ((u : ℕ) → request.user ≡ some u → has_access db s.accesses u l ≡ false)
      → request.call ≡ Call.get_ticket l urandom
      → (answer_request db box s request).1 ≢ given sealed
  unfolding answer_request view_of_url
  answer_request-gives_none s request urandom sealed stranger asks gives =
      elim (Option-cases request.user) [
        | inl nobody ↦ let answer = rw (nobody, answer_request) at gives in cc
        | inr (u, is_u) ↦ elim (Bool-cases (request.url_id == u)) [
          | inl in_url ↦
              let refused = retrieve-refuses s u urandom (stranger u is_u) in
              let answer = rw (is_u, answer_request, in_url, asks, view_of_url, refused) at gives in
              cc
          | inr other_url ↦ let answer = rw (is_u, answer_request, other_url) at gives in cc
        ]
      ]

  -- If the database does what Django documents and a lock has users, then no requests, in any order,
  -- of users none of whom has access on the lock are answered with a ticket of it, and they leave
  -- its key and nonce as they are.
  pub answer_requests-NoTicket :
      (s : Tables Accesses Locks) (requests : List Request)
      → has_users db s.accesses l ≡ true
      → AreBy (λ u. has_access db s.accesses u l ≡ false) requests
      → NoTicket l requests (answer_requests db box s requests).1
        × (db.get_lock (answer_requests db box s requests).0.locks l ≡ db.get_lock s.locks l)
  unfolding answer_requests AreBy NoTicket
  answer_requests-NoTicket s [] users by = (tt, refl)
  answer_requests-NoTicket s (request ∷ requests) users (one, rest) =
      let s' = (answer_request db box s request).0 in
      let same : SameOn db l s.accesses s'.accesses =
        answer_request-SameOn laws l box s request users
          (λ u is_u. has_access-is_admin laws _ u l (one u is_u)) in
      let (none_later, kept) =
        answer_requests-NoTicket s' requests (has_users-SameOn laws l same users)
          (AreBy-map requests (λ u. has_access-SameOn laws u l same) rest) in
      (
        (λ urandom sealed. answer_request-gives_none s request urandom sealed one, none_later),
        kept ∙ answer_request-keeps s request one,
      )
