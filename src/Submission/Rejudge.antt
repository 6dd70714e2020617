-- ===== src/Submission/Rejudge.antt =====
-- services/submission/internal/application/usecase/admin/rejudge_submission.go. The submission is
-- read once without a lock and once, later, under the lock of the transaction: `before` and `t` are
-- the tables at the two moments.
use go_judge_system.Prelude.{
  ℕ, ℤ, is_positive, Text, is_empty, trim_space, Bool, false, not, ◌||◌, [], if◌then◌else◌,
}
use go_judge_system.Submission.Errors.{
  Error, app, wrap, is, is_context_end, submission_unauthenticated, submission_forbidden,
  invalid_submission_id, submission_not_found, submission_rejudge_conflict, internal_server,
  invalid_judge_result, Result, ok, err,
}
use go_judge_system.Submission.Entity.{
  Submission, Status, AttemptTrigger, is_terminal_status, language_text, reset_for_rejudge,
  by_admin_rejudge, new_submission_attempt, JobMessage,
}
use go_judge_system.Submission.Tables.{Tables, Backend}
use go_judge_system.Submission.Store.{
  Db, ◌>>=◌, ◌>>◌, pure, raise, get_by_id, update_submission_row, create_attempt_row, publish_job,
  execute_in_tx,
}
use go_judge_system.Submission.Create.{Role, moderator, other, at_least, Claims, Services}

pub record RejudgeResponse : Type 0 where
  pub submission_id : ℤ
  pub attempt_id : Text
  pub status : Status
  pub attempt_trigger : AttemptTrigger
  pub attempt_triggered_by_user_id : Text
  pub enqueued_at : ℕ

-- `claims.Role == ""`.
unfoldable pub has_no_role : Role → Bool
has_no_role (other s) = is_empty s
has_no_role r = false

unfoldable pub map_rejudge_read_error : Error → Error
map_rejudge_read_error e =
    if is_context_end e || is e submission_not_found then e else wrap internal_server e

-- Errors of the transaction: a missing submission and a conflict are passed on.
unfoldable pub map_rejudge_tx_error : Error → Error
map_rejudge_tx_error e =
    if is e submission_not_found || is e submission_rejudge_conflict
    then e
    else wrap internal_server e

unfoldable pub check_rejudge : Claims → ℤ → Result (Unit {0})
unfolding has_no_role
check_rejudge claims submission_id =
    if is_empty (trim_space claims.user_id) || has_no_role claims.role
    then err (app submission_unauthenticated)
    else if not (at_least claims.role moderator)
    then err (app submission_forbidden)
    else if not (is_positive submission_id)
    then err (app invalid_submission_id)
    else ok tt

-- What is seen before the transaction: the submission has ended.
unfoldable pub check_seen : Result (Submission × Tables) → Result Submission
unfolding map_rejudge_read_error
check_seen (err e) = err (map_rejudge_read_error e)
check_seen (ok (s, _)) =
    if is_terminal_status s.status then ok s else err (app submission_rejudge_conflict)

unfoldable pub rejudge_job : ℕ → Submission → JobMessage
rejudge_job now s = record {
  submission_id = s.id;
  problem_id = s.problem_id;
  problem_slug = [];
  user_id = s.user_id;
  language = language_text s.language;
  source_code = s.source_code;
  attempt_id = s.current_attempt_id;
  enqueued_at = now;
}

unfoldable pub rejudge_outcome : Text → ℤ → Text → ℕ → Result Submission → Result RejudgeResponse
unfolding map_rejudge_tx_error
rejudge_outcome user_id submission_id attempt_id now (err e) = err (map_rejudge_tx_error e)
rejudge_outcome user_id submission_id attempt_id now (ok s) = ok (record {
  submission_id = submission_id;
  attempt_id = attempt_id;
  status = Status.pending;
  attempt_trigger = by_admin_rejudge;
  attempt_triggered_by_user_id = user_id;
  enqueued_at = now;
})

module _ (db : Backend) (svc : Services) where
  open svc use {now, new_attempt_id, job_topic, get_test_case_metadata}

  unfoldable pub rejudge_write : Text → Text → Submission → Db Submission
  rejudge_write user_id attempt_id s =
      let s' = reset_for_rejudge now (record s { current_attempt_id = attempt_id }) in
      do
        update_submission_row db s'
        create_attempt_row db (new_submission_attempt now s.id attempt_id by_admin_rejudge user_id)
        publish_job db job_topic now (rejudge_job now s')
        pure s'

  -- The status is tested again under the lock.
  unfoldable pub rejudge_locked : Text → Text → Submission → Db Submission
  rejudge_locked user_id attempt_id s =
      if is_terminal_status s.status
      then rejudge_write user_id attempt_id s
      else raise (app submission_rejudge_conflict)

  -- The body of the transaction.
  unfoldable pub rejudge_tx : Text → Text → ℤ → Db Submission
  rejudge_tx user_id attempt_id submission_id = do
    s ← get_by_id db submission_id
    rejudge_locked user_id attempt_id s

  unfoldable pub rejudge_seen :
      Claims → ℤ → Result (Unit {0}) → Tables → Result RejudgeResponse × Tables
  unfolding rejudge_outcome
  rejudge_seen claims submission_id (err e) t = (err e, t)
  rejudge_seen claims submission_id (ok _) t =
      let attempt_id = trim_space new_attempt_id in
      let (r, t') = execute_in_tx db (rejudge_tx claims.user_id attempt_id submission_id) t in
      if is_empty attempt_id
      then (err (wrap internal_server (app invalid_judge_result)), t)
      else (rejudge_outcome claims.user_id submission_id attempt_id now r, t')

  unfoldable pub with_seen :
      Claims → ℤ → Result Submission → Tables → Result RejudgeResponse × Tables
  unfolding rejudge_seen
  with_seen claims submission_id (err e) t = (err e, t)
  with_seen claims submission_id (ok s) t =
      rejudge_seen claims submission_id (get_test_case_metadata s.problem_id) t

  unfoldable pub with_check :
      Claims → ℤ → Result (Unit {0}) → Tables → Tables → Result RejudgeResponse × Tables
  unfolding with_seen check_seen
  with_check claims submission_id (err e) before t = (err e, t)
  with_check claims submission_id (ok _) before t =
      with_seen claims submission_id (check_seen (get_by_id db submission_id before)) t

  -- `rejudgeAdminSubmissionUseCase.Execute`.
  unfoldable pub rejudge_submission : Claims → ℤ → Tables → Tables → Result RejudgeResponse × Tables
  unfolding with_check check_rejudge
  rejudge_submission claims submission_id before t =
      with_check claims submission_id (check_rejudge claims submission_id) before t
