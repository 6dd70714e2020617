-- ===== src/Submission/Apply.antt =====
-- services/submission/internal/application/usecase/result/apply_judge_result.go: a result message of
-- the worker is checked and, in one transaction, applied to the submission that it belongs to.
use go_judge_system.Prelude.{
  ℕ, ℤ, is_positive, Text, text_eq, is_empty, trim_space, leb, ◌==◌, length, Bool, true, not, ◌&&◌,
  ◌||◌, Option, none, some, List, [], ◌∷◌, if◌then◌else◌,
}
use go_judge_system.Submission.Errors.{
  app, invalid_judge_result, invalid_submission_status, Result, ok, err,
}
use go_judge_system.Submission.Entity.{
  Submission, Status, parse_status, is_terminal_status, mark_completed, ResultStatus,
  parse_result_status, SubmissionResult, SubmissionEvent, submission_event, TestCaseResultItem,
  ResultMessage,
}
use go_judge_system.Submission.Message.{judge_output_fields}
use go_judge_system.Submission.Tables.{Tables, Backend}
use go_judge_system.Submission.Store.{
  Db, ◌>>=◌, ◌>>◌, pure, get_by_id, update_submission_row, replace_results, mark_attempt_completed,
  execute_in_tx,
}

unfoldable pub terminal_or_error : Option Status → Result Status
terminal_or_error none = err (app invalid_submission_status)
terminal_or_error (some s) =
    if is_terminal_status s then ok s else err (app invalid_submission_status)

-- `mapTerminalSubmissionStatus`.
unfoldable pub map_terminal_status : Text → Result Status
unfolding terminal_or_error
map_terminal_status raw = terminal_or_error (parse_status raw)

is_hex : ℕ → Bool
is_hex c = (leb b'a' c && leb c b'f') || (leb b'0' c && leb c b'9')

all_hex : Text → Bool
all_hex [] = true
all_hex (c ∷ s) = is_hex c && all_hex s

-- The regular expression `^[a-f0-9]{64}$`.
unfoldable pub is_sha256_hex : Text → Bool
unfolding all_hex is_hex
is_sha256_hex s = length s == 64 && all_hex s

unfoldable pub validate_dataset_checksum : Option Text → Result (Unit {0})
validate_dataset_checksum none = ok tt
validate_dataset_checksum (some value) =
    if is_sha256_hex value then ok tt else err (app invalid_judge_result)

unfoldable pub result_row : ℤ → Text → TestCaseResultItem → ResultStatus → SubmissionResult
result_row submission_id attempt_id item status = record {
  submission_id = submission_id;
  attempt_id = attempt_id;
  test_index = item.index;
  status = status;
  actual_output = item.actual_output;
  input = item.input;
  expected_output = item.expected_output;
  execution_time = item.execution_time;
  memory_used = item.memory_used;
}

-- One round of the loop of `mapTestCaseResults`.
unfoldable pub map_test_case :
    ℤ → Text → TestCaseResultItem → Option ResultStatus → Result SubmissionResult
unfolding result_row
map_test_case submission_id attempt_id item none = err (app invalid_judge_result)
map_test_case submission_id attempt_id item (some status) =
    if is_positive item.index
    then ok (result_row submission_id attempt_id item status)
    else err (app invalid_judge_result)

unfoldable pub cons_ok :
    Result SubmissionResult → Result (List SubmissionResult) → Result (List SubmissionResult)
cons_ok (err e) rs = err e
cons_ok (ok r) (err e) = err e
cons_ok (ok r) (ok rs) = ok (r ∷ rs)

unfoldable pub map_test_case_results :
    ℤ → Text → List TestCaseResultItem → Result (List SubmissionResult)
unfolding map_test_case cons_ok
map_test_case_results submission_id attempt_id [] = ok []
map_test_case_results submission_id attempt_id (item ∷ items) =
    cons_ok (map_test_case submission_id attempt_id item (parse_result_status item.status))
      (map_test_case_results submission_id attempt_id items)

-- A checked message.
pub record Checked : Type 0 where
  pub status : Status
  pub results : List SubmissionResult

unfoldable pub checked : Status → Result (List SubmissionResult) → Result Checked
checked status (err e) = err e
checked status (ok rs) = ok (record { status = status; results = rs })

unfoldable pub check_items : ResultMessage → Status → Result (Unit {0}) → Result Checked
unfolding checked
check_items msg status (err e) = err e
check_items msg status (ok _) =
    checked status (map_test_case_results msg.submission_id msg.attempt_id msg.test_cases)

unfoldable pub check_status : ResultMessage → Result Status → Result Checked
unfolding check_items
check_status msg (err e) = err e
check_status msg (ok status) =
    check_items msg status (validate_dataset_checksum msg.dataset_checksum)

-- Everything before the transaction.
unfoldable pub check_result : ResultMessage → Result Checked
unfolding check_status
check_result msg =
    if not (is_positive msg.submission_id) || is_empty (trim_space msg.attempt_id)
    then err (app invalid_judge_result)
    else check_status msg (map_terminal_status msg.status)

-- What the outcome tells the event hub: the event, if the result was applied.
abbrev pub Published : Type 0
Published = Option SubmissionEvent

module _ (db : Backend) (hide_paths : Text → Text) (now : ℕ) where
  -- `submission.MarkCompleted` with the fields of the message.
  unfoldable pub completed : ResultMessage → Status → Submission → Submission
  completed msg status s =
      let (compile_output, error_message) = judge_output_fields hide_paths status msg in
      mark_completed now status msg.execution_time msg.memory_used compile_output error_message s

  unfoldable pub apply_write : ResultMessage → Checked → Submission → Db Published
  apply_write msg c s =
      let s' = completed msg c.status s in
      do
        update_submission_row db s'
        replace_results db msg.submission_id msg.attempt_id c.results
        mark_attempt_completed db now msg.attempt_id c.status msg.testcase_version msg.test_count
            msg.dataset_checksum
        pure (some (submission_event s'))

  -- A message for another attempt, or for a submission that has ended, changes nothing.
  unfoldable pub apply_locked : ResultMessage → Checked → Submission → Db Published
  apply_locked msg c s =
      if is_empty (trim_space s.current_attempt_id)
      then pure none
      else if not (text_eq s.current_attempt_id msg.attempt_id)
      then pure none
      else if is_terminal_status s.status
      then pure none
      else apply_write msg c s

  -- The body of the transaction.
  unfoldable pub apply_tx : ResultMessage → Checked → Db Published
  apply_tx msg c = do s ← get_by_id db msg.submission_id; apply_locked msg c s

  unfoldable pub with_checked : ResultMessage → Result Checked → Tables → Result Published × Tables
  with_checked msg (err e) t = (err e, t)
  with_checked msg (ok c) t = execute_in_tx db (apply_tx msg c) t

  -- `applyJudgeResultUseCase.Execute`; the event is published after the commit.
  unfoldable pub apply_judge_result : ResultMessage → Tables → Result Published × Tables
  unfolding with_checked
  apply_judge_result msg t = with_checked msg (check_result msg) t
