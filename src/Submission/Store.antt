-- ===== src/Submission/Store.antt =====
-- The repositories of services/submission/internal/adapter/outbound/persistence/postgres, the
-- transaction manager, and the outbox publisher of adapter/outbound/judge/kafka_judge.go.
use go_judge_system.Prelude.{
  ℕ, suc, ℤ, pos, Text, is_empty, trim_space, Option, none, some, List, [], ◌∷◌, ◌++◌, map,
  if◌then◌else◌,
}
use go_judge_system.Submission.Errors.{
  Fault, Error, fault, app, context, plain, submission_not_found, Result, ok, err, or_fault,
}
use go_judge_system.Submission.Entity.{
  Submission, SubmissionAttempt, SubmissionResult, OutboxMessage, OutboxStatus, JobMessage, Status,
}
use go_judge_system.Submission.Tables.{
  Tables, find_submission, modify_submission, modify_attempt, without_results, result_row_for,
  select_submission, update_submission, insert_submission, insert_attempt, update_attempt,
  delete_results, insert_results, insert_outbox, commit, Backend,
}

-- Code that reads and writes the tables.
abbrev pub Db : Type 0 → Type 0
Db A = Tables → Result (A × Tables)

infixl 5 ◌>>=◌ ◌>>◌
abbrev pub ◌>>=◌ : {A B : Type 0} → Db A → (A → Db B) → Db B
◌>>=◌ m f t = elim (m t) [ err e ↦ err e | ok (a, t') ↦ f a t' ]

abbrev pub ◌>>◌ : {A B : Type 0} → Db A → Db B → Db B
m >> k = m >>= λ _. k

abbrev pub pure : {A : Type 0} → A → Db A
pure a t = ok (a, t)

abbrev pub raise : {A : Type 0} → Error → Db A
raise e t = err e

-- `dao.ID` after an insert, and the row with it.
unfoldable pub insert_row : Submission → Tables → Submission × Tables
insert_row s t =
    let row = record s { id = pos (suc t.submission_seq) } in
    (
      row,
      record t { submissions = t.submissions ++ row ∷ []; submission_seq = suc t.submission_seq },
    )

unfoldable pub insert_attempt_row : SubmissionAttempt → Tables → Tables
insert_attempt_row a t =
    let row = record a { id = pos (suc t.attempt_seq) } in
    record t { attempts = t.attempts ++ row ∷ []; attempt_seq = suc t.attempt_seq }

unfoldable pub insert_outbox_row : OutboxMessage → Tables → Tables
insert_outbox_row m t =
    let row = record m { id = pos (suc t.outbox_seq) } in
    record t { outbox = t.outbox ++ row ∷ []; outbox_seq = suc t.outbox_seq }

or_not_found : Option Submission → Tables → Result (Submission × Tables)
or_not_found none t = err (app submission_not_found)
or_not_found (some s) t = ok (s, t)

-- The columns that `Update` writes.
unfoldable pub updated_row : Submission → Submission → Submission
updated_row s row = record row {
  status = s.status;
  current_attempt_id = s.current_attempt_id;
  execution_time = s.execution_time;
  memory_used = s.memory_used;
  compile_output = s.compile_output;
  error_message = s.error_message;
  updated_at = s.updated_at;
}

unfoldable pub completed_attempt :
    ℕ → Status → Option ℤ → Option ℤ → Option Text → SubmissionAttempt → SubmissionAttempt
completed_attempt now status version count checksum a = record a {
  status = status;
  testcase_version = version;
  test_count = count;
  dataset_checksum = checksum;
  updated_at = now;
}

-- `RowsAffected == 0` is an error.
update_rows : Submission → Option Submission → Tables → Result (Unit {0} × Tables)
update_rows s none t = err (app submission_not_found)
update_rows s (some _) t =
    ok (tt, record t { submissions = modify_submission s.id (updated_row s) t.submissions })

-- The pending message for a job; the id is given by the insert.
unfoldable pub outbox_message : Text → ℕ → JobMessage → OutboxMessage
outbox_message topic now job = record {
  id = pos 0;
  aggregate_id = job.submission_id;
  topic = topic;
  payload = job;
  status = OutboxStatus.pending;
  created_at = now;
  published_at = none;
  retry_count = 0;
  error_reason = none;
}

module _ (db : Backend) where
  open db use {refuses}

  -- `submissionRepository.Create`.
  unfoldable pub create_submission_row : Submission → Db Submission
  create_submission_row s t = or_fault (refuses (insert_submission s) t) (ok (insert_row s t))

  -- `GetByID`, and `GetByIDForUpdate`, which also locks the row: transactions on it are serial.
  unfoldable pub get_by_id : ℤ → Db Submission
  unfolding or_not_found
  get_by_id k t =
      or_fault (refuses (select_submission k) t) (or_not_found (find_submission k t.submissions) t)

  unfoldable pub update_submission_row : Submission → Db (Unit {0})
  unfolding update_rows
  update_submission_row s t =
      or_fault (refuses (update_submission s.id) t)
        (update_rows s (find_submission s.id t.submissions) t)

  -- `submissionAttemptRepository.Create`.
  unfoldable pub create_attempt_row : SubmissionAttempt → Db (Unit {0})
  create_attempt_row a t = or_fault (refuses (insert_attempt a) t) (ok (tt, insert_attempt_row a t))

  -- `submissionAttemptRepository.MarkCompleted`: no row is no error.
  unfoldable pub mark_attempt_completed :
      ℕ → Text → Status → Option ℤ → Option ℤ → Option Text → Db (Unit {0})
  mark_attempt_completed now attempt_id status version count checksum t =
      let k = trim_space attempt_id in
      let f = completed_attempt now status version count checksum in
      if is_empty k
      then err plain
      else or_fault (refuses (update_attempt k) t)
          (ok (tt, record t { attempts = modify_attempt k f t.attempts }))

  insert_result_rows : ℤ → Text → List SubmissionResult → Db (Unit {0})
  insert_result_rows k a [] t = ok (tt, t)
  insert_result_rows k a (r ∷ rs) t =
      or_fault (refuses (insert_results k a) t)
        (ok (tt, record t { results = t.results ++ map (result_row_for k a) (r ∷ rs) }))

  -- `ReplaceBySubmissionIDAndAttemptID`.
  unfoldable pub replace_results : ℤ → Text → List SubmissionResult → Db (Unit {0})
  unfolding insert_result_rows
  replace_results k attempt_id rs t =
      let a = trim_space attempt_id in
      let deleted = record t { results = without_results k a t.results } in
      if is_empty a
      then err plain
      else or_fault (refuses (delete_results k a) t) (insert_result_rows k a rs deleted)

  -- `outboxJudgePublisher.Publish` with `outboxRepository.Create`.
  unfoldable pub publish_job : Text → ℕ → JobMessage → Db (Unit {0})
  publish_job topic now job t =
      let message = outbox_message topic now job in
      if is_empty (trim_space job.attempt_id)
      then err plain
      else or_fault (refuses (insert_outbox message) t) (ok (tt, insert_outbox_row message t))

  unfoldable pub settle : {A : Type 0} → Option Fault → A → Tables → Tables → Result A × Tables
  settle none a t' t = (ok a, t')
  settle (some f) a t' t = (err (context (fault f)), t)

  unfoldable pub conclude : {A : Type 0} → Result (A × Tables) → Tables → Result A × Tables
  conclude (err e) t = (err (context e), t)
  conclude (ok (a, t')) t = settle (refuses commit t') a t' t

  -- `transactionManager.ExecuteInTx`: an error, also of the commit, leaves the tables as they were.
  unfoldable pub execute_in_tx : {A : Type 0} → Db A → Tables → Result A × Tables
  execute_in_tx m t = conclude (m t) t
