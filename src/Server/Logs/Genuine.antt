-- ===== src/Server/Logs/Genuine.antt =====
-- Who writes the log of a lock: the requests about logs of webserver/esloq/views.py.
use esloq.Base.{
  ℕ, ◌≡◌, ◌⊎◌, refl, sym, ◌∙◌, ap, true, Option, none, some, ◌==◌, ==_iff, Bool-cases, Option-cases,
  inl, inr,
}
use esloq.Server.Access.{Objects, has_access, is_admin}
use esloq.Server.Logs.{
  Log, PostedLog, LogObjects, AreLogObjects, LogCall, LogRequest, about_lock, posts_for_self,
  may_log, create_log, destroy_logs, view_of_log_url, answer_log_request,
}

-- The logs that are new name the user of the request, who has access on their lock, and those that
-- are gone are about locks that he is an admin on.
pub record IsGenuine {Accesses Locks Logs : Type 0} (db : Objects Accesses Locks)
    (logs_db : LogObjects Logs) (t : Accesses) (user : Option ℕ) (logs logs' : Logs) : Type 0 where
  pub added :
      (i : ℕ) (g : Log)
      → logs_db.get logs' i ≡ some g
      → (logs_db.get logs i ≡ some g)
        ⊎ ((user ≡ some g.user_id) × (has_access db t g.user_id g.lock_id ≡ true))
  pub removed :
      (i : ℕ) (g : Log)
      → logs_db.get logs i ≡ some g
      → (logs_db.get logs' i ≡ some g)
        ⊎ ((u : ℕ) × (user ≡ some u) × (is_admin db t u g.lock_id ≡ true))

posts_for_self-user :
    (u : ℕ) (posted : PostedLog) {v : ℕ}
    → posts_for_self u posted ≡ true
    → posted.posted_user ≡ some v
    → u ≡ v
unfolding posts_for_self
posts_for_self-user u posted {v} own is = (==_iff u v).0 (rw (is, posts_for_self) at own)

module _ {Accesses Locks : Type 0} (db : Objects Accesses Locks) where
  may_log-access :
      (t : Accesses) (u : ℕ) (posted : PostedLog) {l : ℕ}
      → may_log db t u posted ≡ true
      → posted.posted_lock ≡ some l
      → has_access db t u l ≡ true
  unfolding may_log
  may_log-access t u posted may is = rw (is, may_log) at may

module _ {Accesses Locks Logs : Type 0} {db : Objects Accesses Locks} {logs_db : LogObjects Logs}
    (laws : AreLogObjects logs_db) (t : Accesses) where
  IsGenuine-same : (user : Option ℕ) (logs : Logs) → IsGenuine db logs_db t user logs logs
  IsGenuine-same user logs = record { added = λ i g at. inl at; removed = λ i g at. inl at }

  create_log-IsGenuine :
      (u : ℕ) (posted : PostedLog) (logs : Logs)
      → IsGenuine db logs_db t (some u) logs (create_log db logs_db t u posted logs).0
  unfolding create_log
  create_log-IsGenuine u posted logs = elim (Bool-cases (may_log db t u posted)) [
    | inr may_not ↦ rw (may_not, create_log) (IsGenuine-same (some u) logs)
    | inl may ↦ elim (Bool-cases (posts_for_self u posted)) [
      | inr for_other ↦ rw (may, create_log, for_other) (IsGenuine-same (some u) logs)
      | inl own ↦ elim (Option-cases (logs_db.create logs posted)) [
        | inl invalid ↦ rw (may, create_log, own, invalid) (IsGenuine-same (some u) logs)
        | inr (logs', made) ↦
            rw (may, create_log, own, made)
              (record {
                added = λ i g at. elim (laws.create-only logs posted i made at) [
                  | inl before ↦ inl before
                  | inr (lock, user) ↦
                      let is_u = posts_for_self-user u posted own user in
                      inr (
                        ap some is_u,
                        ap (λ u. has_access db t u g.lock_id) (sym is_u)
                            ∙ may_log-access db t u posted may lock,
                      )
                ];
                removed = λ i g at. inl (laws.create-keeps logs posted i made at);
              })
      ]
    ]
  ]

  destroy_logs-IsGenuine :
      (u pk : ℕ) (logs : Logs)
      → IsGenuine db logs_db t (some u) logs (destroy_logs db logs_db t u pk logs).0
  unfolding destroy_logs
  destroy_logs-IsGenuine u pk logs = elim (Bool-cases (is_admin db t u pk)) [
    | inr plain ↦ rw (plain, destroy_logs) (IsGenuine-same (some u) logs)
    | inl admin ↦
        rw (admin, destroy_logs)
          (record {
            added = λ i g at. inl (laws.delete-only logs (about_lock pk) i at);
            removed = λ i g at. elim (Bool-cases (g.lock_id == pk)) [
              | inl same ↦
                  inr (u, refl, ap (is_admin db t u) ((==_iff g.lock_id pk).0 same) ∙ admin)
              | inr other ↦ inl (laws.delete-keeps logs (about_lock pk) i at other)
            ];
          })
  ]

  view_of_log_url-IsGenuine :
      (u : ℕ) (call : LogCall) (logs : Logs)
      → IsGenuine db logs_db t (some u) logs (view_of_log_url db logs_db t u call logs).0
  unfolding view_of_log_url
  view_of_log_url-IsGenuine u (LogCall.post_log posted) logs = create_log-IsGenuine u posted logs
  view_of_log_url-IsGenuine u (LogCall.delete_logs pk) logs = destroy_logs-IsGenuine u pk logs

  -- If the database does what Django documents, then whatever a request about logs is answered, each
  -- log that is new names the user that the request is authenticated as, who has access on the lock it
  -- is about, and each log that is gone was about a lock that this user is an admin on.
  pub answer_log_request-IsGenuine :
      (request : LogRequest) (logs : Logs)
      → IsGenuine db logs_db t request.user logs (answer_log_request db logs_db t request logs).0
  unfolding answer_log_request
  answer_log_request-IsGenuine request logs = elim (Option-cases request.user) [
    | inl nobody ↦ rw (nobody, answer_log_request) (IsGenuine-same none logs)
    | inr (u, is_u) ↦ elim (Bool-cases (request.url_id == u)) [
      | inr other_url ↦ rw (is_u, answer_log_request, other_url) (IsGenuine-same (some u) logs)
      | inl in_url ↦
          rw (is_u, answer_log_request, in_url) (view_of_log_url-IsGenuine u request.call logs)
    ]
  ]
