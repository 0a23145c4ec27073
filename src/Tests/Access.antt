-- ===== src/Tests/Access.antt =====
-- Requests to the server about two locks: user 1 is an admin and user 2 has access on lock 1, and
-- user 3 is an admin on lock 2.
use esloq.Base.{some-injective, ℕ, ◌≡◌, refl, subst, List, [], ◌∷◌, true, false, some, replicate}
use esloq.Server.Access.{LockAccess, has_access, is_admin, has_users}
use esloq.Server.Access.Requests.{Call, Request, Tables, forbidden, answer_requests, destroy}
use esloq.Server.Access.Closed.{SameOn}
use esloq.Server.Access.Closed.Delete.{answer_to_delete, destroy-answers}
use esloq.Server.Access.Closed.Strangers.{
  AreBy, NoTicket, answer_requests-SameOn, answer_requests-NoTicket,
}
use esloq.Server.Access.Closed.Reopened.{by, own_admin}
use esloq.Tests.Database.{Table, Locks, database}
use esloq.Tests.Database.Laws.{database-AreObjects}
use esloq.Tests.Setup.{plain_box}

abbrev row : ℕ → ℕ → LockAccess
row lock_id user_id = record { lock_id = lock_id; user_id = user_id; is_admin = true }

abbrev rows : Table
rows =
    some (row 1 1)
    ∷ some (record { lock_id = 1; user_id = 2; is_admin = false })
    ∷ some (row 2 3)
    ∷ []

abbrev both_locks : Locks
both_locks l = some (record { key = replicate 32 l; nonce = 5 })

abbrev pub tables : Tables Table Locks
tables = record { accesses = rows; locks = both_locks }

-- User 2 deletes the admin's access and asks for a ticket, user 3 makes himself an admin, deletes the
-- admin's access, asks for a ticket and deletes his own access.
abbrev intrusions : List Request
intrusions =
    by 2 (Call.delete_access 0)
    ∷ by 2 (Call.get_ticket 1 (replicate 32 9))
    ∷ by 3 (Call.post_access (own_admin 3 1))
    ∷ by 3 (Call.delete_access 0)
    ∷ by 3 (Call.delete_accesses 1)
    ∷ by 3 (Call.delete_access 2)
    ∷ []

users_1 : has_users database rows 1 ≡ true
unfolding has_users
users_1 = refl

not_admin : (is_admin database rows 2 1 ≡ false) × (is_admin database rows 3 1 ≡ false)
unfolding is_admin
not_admin = (refl, refl)

by_user : (P : ℕ → Type 0) (u v : ℕ) → P u → some u ≡ some v → P v
by_user P u v holds same = subst P (some-injective same) holds

intrusions-AreBy : AreBy (λ u. is_admin database rows u 1 ≡ false) intrusions
unfolding AreBy
intrusions-AreBy =
    let two = λ (v : ℕ) (same : some 2 ≡ some v).
      by_user (λ u. is_admin database rows u 1 ≡ false) 2 v not_admin.0 same in
    let three = λ (v : ℕ) (same : some 3 ≡ some v).
      by_user (λ u. is_admin database rows u 1 ≡ false) 3 v not_admin.1 same in
    (two, (two, (three, (three, (three, (three, tt))))))

answer_requests-SameOn_example :
    SameOn database 1 rows (answer_requests database plain_box tables intrusions).0.accesses
answer_requests-SameOn_example =
    answer_requests-SameOn database-AreObjects 1 plain_box tables intrusions users_1
      intrusions-AreBy

-- User 3, who has no access on lock 1.
abbrev strange_requests : List Request
strange_requests =
    by 3 (Call.get_ticket 1 (replicate 32 9)) ∷ by 3 (Call.get_ticket 2 (replicate 32 9)) ∷ []

strangers-AreBy : AreBy (λ u. has_access database rows u 1 ≡ false) strange_requests
unfolding AreBy has_access
strangers-AreBy =
    let three = λ (v : ℕ) (same : some 3 ≡ some v).
      by_user (λ u. has_access database rows u 1 ≡ false) 3 v refl same in
    (three, (three, tt))

answer_requests-NoTicket_example :
    NoTicket 1 strange_requests (answer_requests database plain_box tables strange_requests).1
    × (database.get_lock (answer_requests database plain_box tables strange_requests).0.locks 1
        ≡ database.get_lock both_locks 1)
answer_requests-NoTicket_example =
    answer_requests-NoTicket database-AreObjects 1 plain_box tables strange_requests users_1
      strangers-AreBy

destroy-answers_example : destroy database rows 2 0 ≡ answer_to_delete database rows 2 0
destroy-answers_example = destroy-answers database-AreObjects rows 2 0

-- What that answer is.
forbidden_2 : answer_to_delete database rows 2 0 ≡ (rows, forbidden)
unfolding has_access is_admin
forbidden_2 = refl
