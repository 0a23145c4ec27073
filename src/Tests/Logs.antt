-- ===== src/Tests/Logs.antt =====
-- Requests about logs, in a table that is a list, where a deleted row leaves a gap and a row is created
-- at the end.
use esloq.Base.{
  some-injective, ℕ, ◌≡◌, refl, sym, ◌∙◌, ap, List, [], ◌∷◌, ◌++◌, Bool, true, Option, none, some,
  Option-cases, inl, inr,
}
use esloq.Server.Logs.{
  Log, PostedLog, LogObjects, AreLogObjects, LogCall, LogRequest, answer_log_request,
  view_of_log_url, create_log, may_log, posts_for_self,
}
use esloq.Server.Logs.Genuine.{IsGenuine, answer_log_request-IsGenuine}
use esloq.Server.Access.{has_access}
use esloq.Server.Access.Requests.{created}
use esloq.Tests.Access.{tables}
use esloq.Tests.Database.{row_at, leave_all_out, database}
use esloq.Tests.Database.Laws.{row_at-append, row_at-snoc, row_at-kept, row_at-only}

abbrev Logs : Type 0
Logs = List (Option Log)

-- The time is 0 where none is posted.
abbrev or_zero : Option ℕ → ℕ
or_zero none = 0
or_zero (some n) = n

abbrev complete_log : Option ℕ → Option ℕ → Option ℕ → Option Bool → Option Log
complete_log none u time state = none
complete_log (some l) none time state = none
complete_log (some l) (some u) time none = none
complete_log (some l) (some u) time (some state) =
    some (record { lock_id = l; user_id = u; access_time = or_zero time; lock_state = state })

abbrev log_of : PostedLog → Option Log
log_of posted =
    complete_log posted.posted_lock posted.posted_user posted.posted_time posted.posted_state

abbrev add_log : Logs → PostedLog → Option Logs
add_log t posted = elim (log_of posted) [ none ↦ none | some g ↦ some (t ++ (some g ∷ [])) ]

abbrev log_database : LogObjects Logs
log_database = record { get = row_at; create = add_log; delete = leave_all_out }

complete_log-parts :
    (l u time : Option ℕ) (state : Option Bool) {g : Log}
    → complete_log l u time state ≡ some g
    → (l ≡ some g.lock_id) × (u ≡ some g.user_id)
complete_log-parts none u time state e = cc
complete_log-parts (some l) none time state e = cc
complete_log-parts (some l) (some u) time none e = cc
complete_log-parts (some l) (some u) time (some state) e =
    let same = some-injective e in
    (ap (λ g. some (Log.lock_id g)) same, ap (λ g. some (Log.user_id g)) same)

-- What a creation that succeeds has added.
add_log-some :
    (t : Logs) (posted : PostedLog) {t' : Logs}
    → add_log t posted ≡ some t'
    → (g : Log) × (t' ≡ t ++ (some g ∷ []))
      × (posted.posted_lock ≡ some g.lock_id)
      × (posted.posted_user ≡ some g.user_id)
add_log-some t posted {t'} e = elim (Option-cases (log_of posted)) [
  | inl incomplete ↦ let impossible = rw (incomplete, add_log) at e in cc
  | inr (g, is_row) ↦
      let made : some (t ++ (some g ∷ [])) ≡ some t' = rw (is_row, add_log) at e in
      let (lock, user) =
        complete_log-parts posted.posted_lock posted.posted_user posted.posted_time
          posted.posted_state is_row in
      (g, sym (some-injective made), lock, user)
]

log_database-AreLogObjects : AreLogObjects log_database
log_database-AreLogObjects = record {
  create-keeps = λ t posted i made at.
      let (g, grown, lock, user) = add_log-some t posted made in
      ap (λ t. row_at t i) grown ∙ row_at-append t _ i at;
  create-only = λ t posted i made at.
      let (g, grown, lock, user) = add_log-some t posted made in
      elim (row_at-snoc t g i (sym (ap (λ t. row_at t i) grown) ∙ at)) [
        | inl before ↦ inl before
        | inr same ↦
            inr (
              lock ∙ ap (λ g. some (Log.lock_id g)) same,
              user ∙ ap (λ g. some (Log.user_id g)) same,
            )
      ];
  delete-keeps = row_at-kept;
  delete-only = λ t p i at. (row_at-only t p i at).0;
}

-- User 2 posts that he has locked the door of lock 1.
abbrev posted : PostedLog
posted = record {
  posted_lock = some 1;
  posted_user = some 2;
  posted_time = some 1480000000;
  posted_state = some true;
}

abbrev request : LogRequest
request = record { user = some 2; url_id = 2; call = LogCall.post_log posted }

posted_log : answer_log_request database log_database tables.accesses request [] ≡ (
  some (record { lock_id = 1; user_id = 2; access_time = 1480000000; lock_state = true }) ∷ [],
  created,
)
unfolding answer_log_request view_of_log_url create_log may_log posts_for_self has_access
posted_log = refl

answer_log_request-IsGenuine_example :
    IsGenuine database log_database tables.accesses
      (some 2)
      []
      (answer_log_request database log_database tables.accesses request []).0
answer_log_request-IsGenuine_example =
    answer_log_request-IsGenuine log_database-AreLogObjects tables.accesses request []
