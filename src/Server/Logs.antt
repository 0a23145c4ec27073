-- ===== src/Server/Logs.antt =====
-- The log of a lock: `LogViewSet` and `LockLogsViewSet` of webserver/esloq/views.py, with
-- `HasAccessOrNoPost`, `PostOnlyForSelf` and `IsAdmin` of webserver/esloq/permissions.py.
pub mod Genuine
use esloq.Base.{ℕ, ◌≡◌, ◌⊎◌, Bool, true, false, Option, none, some, ◌==◌, if◌then◌else◌}
use esloq.Server.Access.{Objects, has_access, is_admin}
use esloq.Server.Access.Requests.{Response, created, no_content, bad_request, forbidden}

-- A row of the table; its primary key is the number under which it is found.
pub record Log : Type 0 where
  pub lock_id : ℕ
  pub user_id : ℕ
  pub access_time : ℕ
  pub lock_state : Bool

-- The data of a POST, each part of which may be missing.
pub record PostedLog : Type 0 where
  pub posted_lock : Option ℕ
  pub posted_user : Option ℕ
  pub posted_time : Option ℕ
  pub posted_state : Option Bool

-- The calls of Django and of its REST framework: a row by its key, the serializer's validation and
-- creation of a row (`none` is ValidationError), and the deletion of the rows that a filter leaves.
pub record LogObjects (Logs : Type 0) : Type 0 where
  pub get : Logs → ℕ → Option Log
  pub create : Logs → PostedLog → Option Logs
  pub delete : Logs → (Log → Bool) → Logs

-- What is documented of them.
pub record AreLogObjects {Logs : Type 0} (db : LogObjects Logs) : Type 0 where
  pub create-keeps :
      (t : Logs) (posted : PostedLog) (i : ℕ) {t' : Logs} {g : Log}
      → db.create t posted ≡ some t'
      → db.get t i ≡ some g
      → db.get t' i ≡ some g
  pub create-only :
      (t : Logs) (posted : PostedLog) (i : ℕ) {t' : Logs} {g : Log}
      → db.create t posted ≡ some t'
      → db.get t' i ≡ some g
      → (db.get t i ≡ some g)
        ⊎ ((posted.posted_lock ≡ some g.lock_id) × (posted.posted_user ≡ some g.user_id))
  pub delete-keeps :
      (t : Logs) (p : Log → Bool) (i : ℕ) {g : Log}
      → db.get t i ≡ some g
      → p g ≡ false
      → db.get (db.delete t p) i ≡ some g
  pub delete-only :
      (t : Logs) (p : Log → Bool) (i : ℕ) {g : Log}
      → db.get (db.delete t p) i ≡ some g
      → db.get t i ≡ some g

pub data LogCall : Type 0 where
  post_log : PostedLog → LogCall  -- POST users/<id>/logs/
  delete_logs : ℕ → LogCall  -- DELETE users/<id>/locks/<pk>/logs/

pub record LogRequest : Type 0 where
  pub user : Option ℕ
  pub url_id : ℕ
  pub call : LogCall

-- The filter `lock_id=`.
abbrev pub about_lock : ℕ → Log → Bool
about_lock lock_id g = g.lock_id == lock_id

-- `PostOnlyForSelf.has_permission` of a POST.
unfoldable pub posts_for_self : ℕ → PostedLog → Bool
posts_for_self user_id posted = elim posted.posted_user [
  | none ↦ false
  | some posted_user ↦ user_id == posted_user
]

module _ {Accesses Locks : Type 0} (db : Objects Accesses Locks) where
  -- `HasAccessOrNoPost.has_permission` of a POST; without a lock, the filter finds nothing.
  unfoldable pub may_log : Accesses → ℕ → PostedLog → Bool
  may_log t user_id posted = elim posted.posted_lock [
    | none ↦ false
    | some lock_id ↦ has_access db t user_id lock_id
  ]

module _ {Accesses Locks Logs : Type 0} (db : Objects Accesses Locks)
    (logs_db : LogObjects Logs) where
  unfoldable pub create_log : Accesses → ℕ → PostedLog → Logs → Logs × Response
  unfolding may_log posts_for_self
  create_log t user_id posted logs =
      if may_log db t user_id posted
      then (if posts_for_self user_id posted
          then elim (logs_db.create logs posted) [
            | none ↦ (logs, bad_request)
            | some logs' ↦ (logs', created)
          ]
          else (logs, forbidden))
      else (logs, forbidden)

  unfoldable pub destroy_logs : Accesses → ℕ → ℕ → Logs → Logs × Response
  destroy_logs t user_id pk logs =
      if is_admin db t user_id pk
      then (logs_db.delete logs (about_lock pk), no_content)
      else (logs, forbidden)

  -- The view set of the URL.
  unfoldable pub view_of_log_url : Accesses → ℕ → LogCall → Logs → Logs × Response
  unfolding create_log destroy_logs
  view_of_log_url t user_id (post_log posted) logs = create_log t user_id posted logs
  view_of_log_url t user_id (delete_logs pk) logs = destroy_logs t user_id pk logs

  -- `IsAuthenticated` and `AuthenticatedUserIsURLUser` come first in both view sets.
  unfoldable pub answer_log_request : Accesses → LogRequest → Logs → Logs × Response
  unfolding view_of_log_url
  answer_log_request t request logs = elim request.user [
    | none ↦ (logs, forbidden)
    | some user_id ↦
        if request.url_id == user_id
        then view_of_log_url t user_id request.call logs
        else (logs, forbidden)
  ]
