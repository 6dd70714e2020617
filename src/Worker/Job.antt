-- ===== src/Worker/Job.antt =====
-- workers/judge/internal/application/usecase/judge/process_judge_job.go, with the message that
-- adapter/outbound/judge/kafka_result_publisher.go builds. The
-- metadata reader, the testcase loader, the sandbox and the Kafka producer are the fields of `Ports`.
pub mod Laws
use go_judge_system.Prelude.{
  ℤ, pos, ℤ_discrete, Text, codes, is_empty, ite, Bool, Option, none, some, List, [], ◌∷◌, ◌++◌,
  map, if◌then◌else◌,
}
use go_judge_system.Worker.Execution.{
  WorkerError, ProblemTestCaseMetadata, OfficialTestCaseBundle, ExecutionRequest, TestCaseResult,
  ExecutionResult, Outcome, returns, fails,
}
use go_judge_system.Submission.Entity.{JobMessage, TestCaseResultItem, ResultMessage}

pub record Ports : Type 0 where
  pub get_test_case_metadata : ℤ → Outcome ProblemTestCaseMetadata
  pub load : ProblemTestCaseMetadata → Outcome OfficialTestCaseBundle
  pub execute : ExecutionRequest → Outcome ExecutionResult
  pub send_error : ResultMessage → Option WorkerError

-- The message that the broker has taken, if any, and the error that is returned.
pub record Handled : Type 0 where
  pub sent : Option ResultMessage
  pub error : Option WorkerError

-- `intPtr` of the publisher: nil for 0.
unfoldable pub non_zero : ℤ → Option ℤ
non_zero v = ite (ℤ_discrete v (pos 0)) none (some v)

unfoldable pub non_empty_string : Text → Option Text
non_empty_string value = if is_empty value then none else some value

unfoldable pub result_item : TestCaseResult → TestCaseResultItem
unfolding non_zero
result_item r = record {
  index = r.index;
  status = r.status;
  actual_output = none;
  input = none;
  expected_output = none;
  execution_time = non_zero r.execution_time;
  memory_used = non_zero r.memory_used;
}

unfoldable pub result_message : ℤ → Text → ExecutionResult → ResultMessage
unfolding result_item non_zero
result_message submission_id attempt_id r = record {
  submission_id = submission_id;
  attempt_id = attempt_id;
  status = r.status;
  compile_output = r.compile_output;
  error_message = r.error_message;
  execution_time = non_zero r.execution_time;
  memory_used = non_zero r.memory_used;
  error = r.error;
  testcase_version = r.testcase_version;
  test_count = r.test_count;
  dataset_checksum = r.dataset_checksum;
  test_cases = map result_item r.test_cases;
}

unfoldable pub answered : ResultMessage → Option WorkerError → Handled
answered m none = record { sent = some m; error = none }
answered m (some e) = record { sent = none; error = some e }

unfoldable pub without_data : TestCaseResult → TestCaseResult
without_data t = record t { input = none; expected_output = none }

-- `sanitizeOfficialResult`.
unfoldable pub sanitize_official_result : ExecutionResult → ExecutionResult
unfolding without_data
sanitize_official_result r = record r { test_cases = map without_data r.test_cases }

abbrev pub public_judge_error : Text
public_judge_error = codes "The judge could not complete this submission."

unfoldable pub system_error_result : Text → WorkerError → ExecutionResult
system_error_result stage e = record {
  status = codes "SYSTEM_ERROR";
  compile_output = none;
  error_message = some public_judge_error;
  diagnostics = [];
  test_cases = [];
  execution_time = pos 0;
  memory_used = pos 0;
  error = some (stage ++ codes " error: " ++ e.message);
  testcase_version = none;
  test_count = none;
  dataset_checksum = none;
}

-- The limits of a job are left at 0.
unfoldable pub official_request :
    JobMessage → ProblemTestCaseMetadata → OfficialTestCaseBundle → ExecutionRequest
official_request job metadata bundle = record {
  language = job.language;
  source_code = job.source_code;
  test_cases = bundle.test_cases;
  limits = record { time_limit_ms = pos 0; memory_limit_kb = pos 0; output_limit_bytes = pos 0 };
  stop_on_first_failure = Bool.true;
  testcase_dataset = some (record {
    problem_id = metadata.problem_id;
    version = bundle.version;
    dataset_checksum = bundle.dataset_checksum;
  });
}

module _ (ports : Ports) (job : JobMessage) where
  -- `PublishResult`.
  unfoldable pub publish_result : ExecutionResult → Handled
  unfolding answered
  publish_result r =
      let m = result_message job.submission_id job.attempt_id r in answered m (ports.send_error m)

  unfoldable pub processing_failure : Bool → Text → WorkerError → Handled
  processing_failure Bool.true stage e = publish_result (system_error_result stage e)
  processing_failure Bool.false stage e = record { sent = none; error = some e }

  -- `handleProcessingError`.
  unfoldable pub handle_processing_error : Text → WorkerError → Handled
  handle_processing_error stage e = processing_failure e.non_retryable stage e

  unfoldable pub judged : OfficialTestCaseBundle → ExecutionResult → ExecutionResult
  unfolding sanitize_official_result non_empty_string
  judged bundle r = record (sanitize_official_result r) {
    testcase_version = some bundle.version;
    test_count = some bundle.test_count;
    dataset_checksum = non_empty_string bundle.dataset_checksum;
  }

  unfoldable pub with_result : OfficialTestCaseBundle → Outcome ExecutionResult → Handled
  with_result bundle (fails e) = handle_processing_error (codes "execute submission") e
  with_result bundle (returns r) = publish_result (judged bundle r)

  unfoldable pub with_bundle : ProblemTestCaseMetadata → Outcome OfficialTestCaseBundle → Handled
  with_bundle metadata (fails e) = handle_processing_error (codes "load official testcases") e
  with_bundle metadata (returns bundle) =
      with_result bundle (ports.execute (official_request job metadata bundle))

  unfoldable pub with_metadata : Outcome ProblemTestCaseMetadata → Handled
  with_metadata (fails e) = handle_processing_error (codes "fetch testcase metadata") e
  with_metadata (returns metadata) = with_bundle metadata (ports.load metadata)

  -- `ProcessJudgeJobUseCase.Execute`.
  unfoldable pub process_judge_job : Handled
  process_judge_job = with_metadata (ports.get_test_case_metadata job.problem_id)
