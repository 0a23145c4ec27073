-- ===== src/Server/Access/Requests.antt =====
-- The requests of webserver/esloq/urls.py that write accesses or give tickets, with the view sets of
-- webserver/esloq/views.py that answer them and their permissions in
-- webserver/esloq/permissions.py. A request has the user that Firebase authenticated, if any, and
-- the number of the user in its URL, which is taken as written without leading zeros.
use esloq.Base.{
  ℕ, List, [], ◌∷◌, Bool, true, false, ◌&&◌, ◌||◌, not, Option, none, some, ◌==◌, if◌then◌else◌,
  Outcome, ok, halted,
}
use esloq.Crypto.{SecretBox}
use esloq.Server.{Esloq, get_lock_ticket}
use esloq.Server.Access.{
  LockAccess, Posted, Objects, on_lock, of_user, has_access, is_admin, has_users,
}

pub data Call : Type 0 where
  post_access : Posted → Call  -- POST users/<id>/lockaccesses/
  delete_access : ℕ → Call  -- DELETE users/<id>/lockaccesses/<pk>/
  delete_accesses : ℕ → Call  -- DELETE users/<id>/locks/<pk>/lockaccesses/
  get_ticket : ℕ → List ℕ → Call  -- GET users/<id>/locks/<pk>/ticket/, and what urandom answers

pub record Request : Type 0 where
  pub user : Option ℕ
  pub url_id : ℕ
  pub call : Call

-- The answers with their HTTP codes; an exception that is not caught is a `server_error`.
pub data Response : Type 0 where
  given : List ℕ × List ℕ → Response  -- 200
  created : Response  -- 201
  no_content : Response  -- 204
  bad_request : Response  -- 400
  forbidden : Response  -- 403
  not_found : Response  -- 404
  server_error : Response  -- 500

pub record Tables (Accesses Locks : Type 0) : Type 0 where
  pub accesses : Accesses
  pub locks : Locks

-- The response with what `getlockticket` returns.
unfoldable pub ticket_response : Outcome (Option (List ℕ × List ℕ)) → Response
ticket_response (ok (some sealed)) = given sealed
ticket_response (ok none) = server_error
ticket_response (halted why) = server_error

module _ {Accesses Locks : Type 0} (db : Objects Accesses Locks) where
  -- `ReadOnlyIfNoAdminAndUsers.has_permission` of a POST; without a lock, the filter finds nothing.
  unfoldable pub may_post : Accesses → ℕ → Posted → Bool
  unfolding has_users is_admin
  may_post t user_id posted = elim posted.posted_lock [
    | none ↦ true
    | some lock_id ↦ if has_users db t lock_id then is_admin db t user_id lock_id else true
  ]

  -- The same of a DELETE; `none` is DoesNotExist.
  unfoldable pub may_delete : Accesses → ℕ → ℕ → Option Bool
  unfolding has_access is_admin
  may_delete t user_id pk = elim (db.get t pk) [
    | none ↦ none
    | some a ↦
        some (if has_access db t user_id a.lock_id then is_admin db t user_id a.lock_id else true)
  ]

  -- `LockAccessViewSet.get_queryset`: whether the row is in it.
  unfoldable pub in_queryset : Accesses → ℕ → LockAccess → Bool
  unfolding is_admin
  in_queryset t user_id a =
      ((a.user_id == user_id) && not a.is_admin) || is_admin db t user_id a.lock_id

  -- The bodies of the view sets, for the user that is in the URL too.
  unfoldable pub create : Accesses → ℕ → Posted → Accesses × Response
  unfolding may_post
  create t user_id posted =
      if may_post t user_id posted
      then elim (db.create t posted) [ none ↦ (t, bad_request) | some t' ↦ (t', created) ]
      else (t, forbidden)

  unfoldable pub destroy : Accesses → ℕ → ℕ → Accesses × Response
  unfolding may_delete in_queryset
  destroy t user_id pk = elim (may_delete t user_id pk) [
    | none ↦ (t, server_error)
    | some false ↦ (t, forbidden)
    | some true ↦ elim (db.get_object t (in_queryset t user_id) pk) [
      | none ↦ (t, not_found)
      | some a ↦ (db.delete_row t pk, no_content)
    ]
  ]

  unfoldable pub destroy_all : Accesses → ℕ → ℕ → Accesses × Response
  unfolding is_admin
  destroy_all t user_id pk =
      if is_admin db t user_id pk then (db.delete t (on_lock pk), no_content) else (t, forbidden)

  -- `getlockticket` with the row that it has read: it is saved before the ticket is sealed.
  unfoldable pub save_and_seal : SecretBox → Locks → ℕ → List ℕ → Esloq → Locks × Response
  unfolding get_lock_ticket ticket_response
  save_and_seal box locks lock_id urandom lock =
      let (lock', answer) = get_lock_ticket box urandom lock in
      (db.save locks lock_id lock', ticket_response answer)

  unfoldable pub give_ticket : SecretBox → Locks → ℕ → List ℕ → Locks × Response
  unfolding save_and_seal
  give_ticket box locks lock_id urandom = elim (db.get_lock locks lock_id) [
    | none ↦ (locks, server_error)
    | some row ↦ save_and_seal box locks lock_id urandom row
  ]

  -- Two calls of it that both read the row before either of them saves it.
  unfoldable pub give_two_tickets :
      SecretBox → Locks → ℕ → List ℕ → List ℕ → Locks × Response × Response
  unfolding save_and_seal
  give_two_tickets box locks lock_id urandom urandom' = elim (db.get_lock locks lock_id) [
    | none ↦ (locks, server_error, server_error)
    | some row ↦
        let (locks', first) = save_and_seal box locks lock_id urandom row in
        let (locks'', second) = save_and_seal box locks' lock_id urandom' row in
        (locks'', first, second)
  ]

  -- `LockTicketViewSet.retrieve`.
  unfoldable pub retrieve : SecretBox → Tables Accesses Locks → ℕ → ℕ → List ℕ → Locks × Response
  unfolding give_ticket
  retrieve box s user_id pk urandom = elim (db.get_object_or_404 s.accesses (of_user user_id pk)) [
    | none ↦ (s.locks, not_found)
    | some a ↦ give_ticket box s.locks pk urandom
  ]

  -- The view set of the URL.
  unfoldable pub view_of_url :
      SecretBox → Tables Accesses Locks → ℕ → Call → Tables Accesses Locks × Response
  unfolding create destroy destroy_all retrieve
  view_of_url box s user_id (post_access posted) =
      let (t, r) = create s.accesses user_id posted in (record s { accesses = t }, r)
  view_of_url box s user_id (delete_access pk) =
      let (t, r) = destroy s.accesses user_id pk in (record s { accesses = t }, r)
  view_of_url box s user_id (delete_accesses pk) =
      let (t, r) = destroy_all s.accesses user_id pk in (record s { accesses = t }, r)
  view_of_url box s user_id (get_ticket pk urandom) =
      let (locks, r) = retrieve box s user_id pk urandom in (record s { locks = locks }, r)

  -- `IsAuthenticated` and `AuthenticatedUserIsURLUser` come first in every view set.
  unfoldable pub answer_request :
      SecretBox → Tables Accesses Locks → Request → Tables Accesses Locks × Response
  unfolding view_of_url
  answer_request box s request = elim request.user [
    | none ↦ (s, forbidden)
    | some user_id ↦
        if request.url_id == user_id then view_of_url box s user_id request.call else (s, forbidden)
  ]

  -- Requests one after another.
  unfoldable pub answer_requests :
      SecretBox → Tables Accesses Locks → List Request → Tables Accesses Locks × List Response
  unfolding answer_request
  answer_requests box s [] = (s, [])
  answer_requests box s (request ∷ requests) =
      let (s', r) = answer_request box s request in
      let (s'', rs) = answer_requests box s' requests in (s'', r ∷ rs)
