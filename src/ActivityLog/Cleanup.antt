-- ===== src/ActivityLog/Cleanup.antt =====
-- internal/log/cleanup.go. A batch deletes the first expired rows, as many as the limit says, or all of
-- them. The loop is on fuel; `answered` tells of each round whether the database answers.
use graaa_golang_auth_api.Common.{
  ℕ, zero, suc, ◌+◌, ◌-◌, ◌<◌, ◌≡◌, ◌⊎◌, refl, ◌∙◌, ap, inl, inr, Bool, true, false, not, Option,
  none, some, List, [], ◌∷◌, Text, text_eq, length, select, ltb, if◌then◌else◌, arith, Bool-cases,
}
use graaa_golang_auth_api.Redis.Interface.{Reply, ok, nil, failed}
use graaa_golang_auth_api.Database.{Fate, served, delete_where, query, written}
pub mod Completion

pub record ActivityLog : Type 0 where
  pub id : Text
  pub user_id : Text
  pub expires_at : Option ℕ

-- expires_at IS NOT NULL AND expires_at < now
unfoldable pub is_expired : ℕ → ActivityLog → Bool
is_expired now log = elim log.expires_at [ none ↦ false | some at ↦ ltb at now ]

-- The rows that stay of a DELETE that keeps to its LIMIT.
unfoldable pub delete_first : ℕ → ℕ → List ActivityLog → List ActivityLog
delete_first now zero rows = rows
delete_first now (suc limit) [] = []
delete_first now (suc limit) (x ∷ xs) =
    let dropped = delete_first now limit xs in
    let kept = delete_first now (suc limit) xs in if is_expired now x then dropped else x ∷ kept

-- Whether gorm passes the LIMIT of a DELETE on is up to the dialect: `limited` says so. Where it is
-- dropped, all expired rows go at once.
unfoldable pub delete_batch : Bool → ℕ → ℕ → List ActivityLog → List ActivityLog
delete_batch limited now limit rows =
    if limited then delete_first now limit rows else delete_where (is_expired now) rows

-- What the loop ends in: the number of rows deleted, an error after that many, or no more fuel.
pub data CleanupResult : Type 0 where
  completed : ℕ → CleanupResult
  interrupted : ℕ → CleanupResult
  unfinished : CleanupResult

abbrev pub Answered : Type 0
Answered = ℕ → Bool

-- `answered i` tells whether the query of round `i` is answered.
unfoldable pub delete_expired_logs :
    Bool → ℕ → Answered → ℕ → ℕ → ℕ → ℕ → List ActivityLog → CleanupResult × List ActivityLog
delete_expired_logs limited zero answered round batch_size now total rows = (unfinished, rows)
delete_expired_logs limited (suc fuel) answered round batch_size now total rows =
    let rest = delete_batch limited now batch_size rows in
    let deleted = length rows - length rest in
    let later =
      delete_expired_logs limited fuel answered (suc round) batch_size now (total + deleted) rest in
    if not (answered round)
    then (interrupted total, rows)
    else if ltb deleted batch_size
    then (completed (total + deleted), rest)
    else later

pub record CleanupService : Type 0 where
  pub cleanup_batch_size : ℕ
  pub is_running : Bool
  pub last_cleanup_time : ℕ
  pub total_cleaned : ℕ

abbrev after_cleanup :
    ℕ → CleanupResult × List ActivityLog → CleanupService → CleanupService × List ActivityLog
after_cleanup start (completed n, rows) cs =
    (record cs { last_cleanup_time = start; total_cleaned = cs.total_cleaned + n }, rows)
after_cleanup start (interrupted n, rows) cs = (cs, rows)
after_cleanup start (unfinished, rows) cs = (cs, rows)

-- One pass; a pass that runs already makes it a no-op.
unfoldable pub run_cleanup :
    Bool → ℕ → Answered → ℕ → CleanupService → List ActivityLog → CleanupService × List ActivityLog
run_cleanup limited fuel answered now cs rows =
    if cs.is_running
    then (cs, rows)
    else after_cleanup now
        (delete_expired_logs limited fuel answered 0 cs.cleanup_batch_size now 0 rows) cs

-- What ForceCleanup is told: the rows deleted, and the number of all rows deleted so far.
pub data ForcedCleanup : Type 0 where
  cleaned : ℕ → ℕ → ForcedCleanup
  in_progress cleanup_failed out_of_rounds : ForcedCleanup

abbrev forced : CleanupResult → CleanupService → ForcedCleanup
forced (completed n) cs = cleaned n (cs.total_cleaned + n)
forced (interrupted n) cs = cleanup_failed
forced unfinished cs = out_of_rounds

unfoldable pub force_cleanup :
    Bool
    → ℕ
    → Answered
    → ℕ
    → CleanupService
    → List ActivityLog
    → ForcedCleanup × (CleanupService × List ActivityLog)
force_cleanup limited fuel answered now cs rows =
    let pass = delete_expired_logs limited fuel answered 0 cs.cleanup_batch_size now 0 rows in
    if cs.is_running
    then (in_progress, (cs, rows))
    else (forced pass.0 cs, after_cleanup now pass cs)

unfoldable pub get_expired_log_count : Fate → ℕ → List ActivityLog → Reply ℕ
get_expired_log_count fate now rows = query fate (length (select (is_expired now) rows))

-- The rows of one user, expired or not, and their number.
unfoldable pub delete_logs_by_user_id : Fate → Text → List ActivityLog → Reply ℕ × List ActivityLog
delete_logs_by_user_id fate user rows =
    let rest = delete_where (λ log. text_eq log.user_id user) rows in
    (query fate (length rows - length rest), written fate rows rest)
