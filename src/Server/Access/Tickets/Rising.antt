-- ===== src/Server/Access/Tickets/Rising.antt =====
-- The row of a lock over requests to webserver/esloq/views.py, and the numbers of the tickets given.
use esloq.Base.{
  ℕ, ◌≡◌, ◌≢◌, refl, sym, subst, ◌∙◌, ap, List, [], ◌∷◌, false, some, ◌==◌, ==_iff, Bool-cases,
  Option-cases, inl, inr, arith,
}
use esloq.Crypto.{SecretBox}
use esloq.Server.{Esloq, next_nonce, seal_ticket, get_lock_ticket}
use esloq.Server.Access.Tickets.{
  AreRising, no_more, numbered, no_ticket, AreRising-below, ticket_response-given,
  seal_ticket-number, next_nonce-lt, lock_asked, IsTicket, IsNoTicket, IsTicket-cases, Advances,
}
use esloq.Server.Access.{Objects, AreObjects, of_user}
use esloq.Server.Access.Requests.{
  Call, Request, Tables, Response, given, ticket_response, retrieve, give_ticket, save_and_seal,
  view_of_url, answer_request, answer_requests,
}

module _ {Accesses Locks : Type 0} {db : Objects Accesses Locks} (laws : AreObjects db) (l : ℕ)
    (box : SecretBox) where
  Advances-none :
      (row : Esloq) (locks : Locks) (call : Call) (response : Response)
      → db.get_lock locks l ≡ some row
      → ((urandom : List ℕ) (sealed : List ℕ × List ℕ)
          → call ≡ Call.get_ticket l urandom
          → response ≢ given sealed)
      → Advances db l row locks call response
  unfolding Advances
  Advances-none row locks call response at not_one = (
    row,
    at,
    omega arith,
    λ urandom sealed asks gives. absurd (not_one urandom sealed asks gives),
  )

  give_ticket-found :
      (row : Esloq) (locks : Locks) (urandom : List ℕ)
      → db.get_lock locks l ≡ some row
      → give_ticket db box locks l urandom ≡ (
        db.save locks l (next_nonce row),
        ticket_response (seal_ticket box urandom (next_nonce row)),
      )
  unfolding give_ticket save_and_seal get_lock_ticket
  give_ticket-found row locks urandom at = rw (give_ticket, at) refl

  give_ticket-Advances :
      (row : Esloq) (locks : Locks) (urandom : List ℕ)
      → db.get_lock locks l ≡ some row
      → let result = give_ticket db box locks l urandom in
        Advances db l row result.0 (Call.get_ticket l urandom) result.1
  unfolding Advances
  give_ticket-Advances row locks urandom at =
      let found = give_ticket-found row locks urandom at in
      (
        next_nonce row,
        ap (λ r. db.get_lock r.0 l) found ∙ laws.save-saves locks l (next_nonce row),
        omega (arith, next_nonce-lt row),
        λ urandom' sealed asks gives.
            let made =
              ticket_response-given (seal_ticket box urandom (next_nonce row))
                (sym (ap (λ r. r.1) found) ∙ gives) in
            (next_nonce-lt row, seal_ticket-number box urandom (next_nonce row) made),
      )

  give_ticket-other :
      (row : Esloq) (locks : Locks) (k : ℕ) (urandom : List ℕ)
      → (k == l) ≡ false
      → db.get_lock locks l ≡ some row
      → db.get_lock (give_ticket db box locks k urandom).0 l ≡ some row
  unfolding give_ticket
  give_ticket-other row locks k urandom other at = elim (Option-cases (db.get_lock locks k)) [
    | inl missing ↦ rw (give_ticket, missing) at
    | inr (row', found) ↦ rw (give_ticket, found) (laws.save-keeps locks k l _ other ∙ at)
  ]

  retrieve-Advances :
      (s : Tables Accesses Locks) (row : Esloq) (u k : ℕ) (urandom : List ℕ)
      → db.get_lock s.locks l ≡ some row
      → let result = retrieve db box s u k urandom in
        Advances db l row result.0 (Call.get_ticket k urandom) result.1
  unfolding retrieve lock_asked
  retrieve-Advances s row u k urandom at =
      elim (Option-cases (db.get_object_or_404 s.accesses (of_user u k))) [
        | inl missing ↦
            rw (retrieve, missing)
              (Advances-none row s.locks _ _ at (λ urandom' sealed asks gives. cc))
        | inr (a, found) ↦ elim (Bool-cases (k == l)) [
          | inl same ↦
              rw (retrieve, found)
                (subst
                  (λ k.
                    let result = give_ticket db box s.locks k urandom in
                    Advances db l row result.0 (Call.get_ticket k urandom) result.1)
                  (sym ((==_iff k l).0 same)) (give_ticket-Advances row s.locks urandom at))
          | inr other ↦
              rw (retrieve, found)
                (Advances-none row _ _ _ (give_ticket-other row s.locks k urandom other at)
                  (λ urandom' sealed asks gives.
                    let same : k ≡ l = ap lock_asked asks in let is_l = (==_iff k l).1 same in cc))
        ]
      ]

  view_of_url-Advances :
      (s : Tables Accesses Locks) (row : Esloq) (u : ℕ) (call : Call)
      → db.get_lock s.locks l ≡ some row
      → let result = view_of_url db box s u call in Advances db l row result.0.locks call result.1
  unfolding view_of_url
  view_of_url-Advances s row u (Call.post_access posted) at =
      Advances-none row s.locks _ _ at (λ urandom sealed asks gives. cc)
  view_of_url-Advances s row u (Call.delete_access pk) at =
      Advances-none row s.locks _ _ at (λ urandom sealed asks gives. cc)
  view_of_url-Advances s row u (Call.delete_accesses pk) at =
      Advances-none row s.locks _ _ at (λ urandom sealed asks gives. cc)
  view_of_url-Advances s row u (Call.get_ticket k urandom) at =
      retrieve-Advances s row u k urandom at

  answer_request-Advances :
      (s : Tables Accesses Locks) (row : Esloq) (request : Request)
      → db.get_lock s.locks l ≡ some row
      → let result = answer_request db box s request in
        Advances db l row result.0.locks request.call result.1
  unfolding answer_request
  answer_request-Advances s row request at = elim (Option-cases request.user) [
    | inl nobody ↦
        rw (nobody, answer_request)
          (Advances-none row s.locks _ _ at (λ urandom sealed asks gives. cc))
    | inr (u, is_u) ↦ elim (Bool-cases (request.url_id == u)) [
      | inl in_url ↦
          rw (is_u, answer_request, in_url) (view_of_url-Advances s row u request.call at)
      | inr other_url ↦
          rw (is_u, answer_request, other_url)
            (Advances-none row s.locks _ _ at (λ urandom sealed asks gives. cc))
    ]
  ]

  -- If the database does what Django documents, then among the responses to any requests, one after
  -- another, the tickets of a lock that exists have numbers above the nonce of its row, each a greater
  -- one than the tickets of the lock before it.
  pub answer_requests-AreRising :
      (s : Tables Accesses Locks) (requests : List Request) (row : Esloq)
      → db.get_lock s.locks l ≡ some row
      → AreRising l row.nonce requests (answer_requests db box s requests).1
  unfolding answer_requests Advances IsTicket IsNoTicket
  answer_requests-AreRising s [] row at = no_more
  answer_requests-AreRising s (request ∷ requests) row at =
      let result = answer_request db box s request in
      let (row', at', up, numbers) = answer_request-Advances s row request at in
      let rest = answer_requests-AreRising result.0 requests row' at' in
      elim (IsTicket-cases l request.call result.1) [
        | inl (urandom, sealed, asks, gives) ↦
            let (above, same) = numbers urandom sealed asks gives in
            subst
              (λ r.
                AreRising l row.nonce (request ∷ requests)
                  (r ∷ (answer_requests db box result.0 requests).1))
              (sym gives)
              (numbered urandom sealed asks (omega (arith, above, same)) (
                subst (λ n. AreRising l n requests (answer_requests db box result.0 requests).1)
                  (sym same) rest))
        | inr not_one ↦ no_ticket not_one (AreRising-below up rest)
      ]
