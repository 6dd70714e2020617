-- ===== src/Worker/Job/Laws.antt =====
-- What a judge job leaves: a job without an error has sent a result for its own attempt, and no
-- testcase leaves the worker.
use go_judge_system.Prelude.{
  is_positive, Text, text_dec, is_empty, trim_space, Bool, true, false, ◌≡◌, refl, Option, none,
  some, List, [], ◌∷◌, map,
}
use go_judge_system.Submission.Errors.{ok}
use go_judge_system.Submission.Entity.{
  JobMessage, TestCaseResultItem, ResultMessage, Status, parse_status,
}
use go_judge_system.Submission.Apply.{
  check_result, map_terminal_status, check_status, check_items, checked, terminal_or_error,
  validate_dataset_checksum, map_test_case_results,
}
use go_judge_system.Worker.Execution.{
  WorkerError, ProblemTestCaseMetadata, OfficialTestCaseBundle, TestCaseResult, ExecutionResult,
  Outcome, returns, fails,
}
use go_judge_system.Worker.Job.{
  Ports, Handled, result_item, result_message, answered, system_error_result, publish_result,
  processing_failure, handle_processing_error, with_result, with_bundle, with_metadata,
  process_judge_job,
}

-- No item holds an input, an expected output or an output of the program.
abbrev pub AllHidden : List TestCaseResultItem → Type 0
AllHidden [] = Unit {0}
AllHidden (i ∷ is) =
    ((i.input ≡ none) × (i.expected_output ≡ none) × (i.actual_output ≡ none)) × AllHidden is

-- Either the broker took a result for the attempt of the job, and there is no error, or nothing was
-- sent and there is one.
pub data Settles (job : JobMessage) (h : Handled) : Type 0 where
  took :
      (m : ResultMessage)
      → h.sent ≡ some m
      → h.error ≡ none
      → m.submission_id ≡ job.submission_id
      → m.attempt_id ≡ job.attempt_id
      → AllHidden m.test_cases
      → Settles job h
  left : (e : WorkerError) → h.sent ≡ none → h.error ≡ some e → Settles job h

items-AllHidden : (rs : List TestCaseResult) → AllHidden (map result_item rs)
unfolding result_item
items-AllHidden [] = tt
items-AllHidden (r ∷ rs) = ((refl, refl, refl), items-AllHidden rs)

module _ (ports : Ports) (job : JobMessage) where
  answered-Settles :
      (m : ResultMessage) (o : Option WorkerError)
      → m.submission_id ≡ job.submission_id
      → m.attempt_id ≡ job.attempt_id
      → AllHidden m.test_cases
      → Settles job (answered m o)
  unfolding answered
  answered-Settles m none p q hidden = took m refl refl p q hidden
  answered-Settles m (some e) p q hidden = left e refl refl

  publish_result-Settles : (r : ExecutionResult) → Settles job (publish_result ports job r)
  unfolding publish_result result_message
  publish_result-Settles r = answered-Settles _ _ refl refl (items-AllHidden r.test_cases)

  processing_failure-Settles :
      (b : Bool) (stage : Text) (e : WorkerError)
      → Settles job (processing_failure ports job b stage e)
  unfolding processing_failure
  processing_failure-Settles true stage e = publish_result-Settles _
  processing_failure-Settles false stage e = left e refl refl

  with_result-Settles :
      (bundle : OfficialTestCaseBundle) (o : Outcome ExecutionResult)
      → Settles job (with_result ports job bundle o)
  unfolding with_result handle_processing_error
  with_result-Settles bundle (fails e) = processing_failure-Settles e.non_retryable _ e
  with_result-Settles bundle (returns r) = publish_result-Settles _

  with_bundle-Settles :
      (metadata : ProblemTestCaseMetadata) (o : Outcome OfficialTestCaseBundle)
      → Settles job (with_bundle ports job metadata o)
  unfolding with_bundle handle_processing_error
  with_bundle-Settles metadata (fails e) = processing_failure-Settles e.non_retryable _ e
  with_bundle-Settles metadata (returns bundle) = with_result-Settles bundle _

  with_metadata-Settles :
      (o : Outcome ProblemTestCaseMetadata) → Settles job (with_metadata ports job o)
  unfolding with_metadata handle_processing_error
  with_metadata-Settles (fails e) = processing_failure-Settles e.non_retryable _ e
  with_metadata-Settles (returns metadata) = with_bundle-Settles metadata _

  -- A job that is processed without an error has had a result message for its submission and its attempt
  -- taken by the broker, none of whose testcase items has an input, an expected output or an output of the
  -- program; a job with an error has sent nothing. The error message of the result is its own.
  pub process_judge_job-Settles : Settles job (process_judge_job ports job)
  unfolding process_judge_job
  process_judge_job-Settles = with_metadata-Settles _

-- The message that the worker sends when a stage fails for good passes the checks of the submission
-- service, for a job with a positive submission id and an attempt id,
-- as a system error with no results.
pub system_error_result-checked :
    (job : JobMessage) (stage : Text) (e : WorkerError)
    → is_positive job.submission_id ≡ true
    → is_empty (trim_space job.attempt_id) ≡ false
    → check_result (result_message job.submission_id job.attempt_id (system_error_result stage e))
      ≡ ok (record { status = Status.system_error; results = [] })
unfolding check_result result_message system_error_result map_terminal_status parse_status
    check_status check_items checked validate_dataset_checksum map_test_case_results
    terminal_or_error text_dec
system_error_result-checked job stage e h g = rw (h, g) refl
