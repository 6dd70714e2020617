-- ===== src/Worker/Execution.antt =====
-- workers/judge/internal/application/port/outbound/judge.go: what the worker's use cases and adapters
-- hand to one another, and the errors of domain/error.go.
use go_judge_system.Prelude.{ℤ, Text, Bool, Option, List}

-- An error of a stage, and `IsNonRetryable` of it.
pub record WorkerError : Type 0 where
  pub message : Text
  pub non_retryable : Bool

pub data Outcome (A : Type 0) : Type 0 where
  returns : A → Outcome A
  fails : WorkerError → Outcome A

pub record ProblemTestCaseMetadata : Type 0 where
  pub problem_id : ℤ
  pub zip_download_url : Text
  pub test_count : ℤ
  pub version : ℤ

pub record ExecutionTestCase : Type 0 where
  pub index : ℤ
  pub id : Text
  pub kind : Text
  pub stdin : Text
  pub sandbox_input_path : Text
  pub expected_output : Option Text

pub record OfficialTestCaseBundle : Type 0 where
  pub test_cases : List ExecutionTestCase
  pub test_count : ℤ
  pub version : ℤ
  pub dataset_checksum : Text

pub record TestcaseDatasetIdentity : Type 0 where
  pub problem_id : ℤ
  pub version : ℤ
  pub dataset_checksum : Text

pub record ExecutionLimits : Type 0 where
  pub time_limit_ms : ℤ
  pub memory_limit_kb : ℤ
  pub output_limit_bytes : ℤ

pub record ExecutionRequest : Type 0 where
  pub language : Text
  pub source_code : Text
  pub test_cases : List ExecutionTestCase
  pub limits : ExecutionLimits
  pub stop_on_first_failure : Bool
  pub testcase_dataset : Option TestcaseDatasetIdentity

-- `CodeDiagnostic`; its end line and end column are never set.
pub record CodeDiagnostic : Type 0 where
  pub test_case_id : Option Text
  pub kind : Text
  pub severity : Text
  pub message : Text
  pub line : ℤ
  pub column : ℤ

pub record TestCaseResult : Type 0 where
  pub index : ℤ
  pub id : Text
  pub kind : Text
  pub status : Text
  pub actual_output : Option Text
  pub stderr : Option Text
  pub input : Option Text
  pub expected_output : Option Text
  pub execution_time : ℤ
  pub memory_used : ℤ
  pub diagnostics : List CodeDiagnostic

pub record ExecutionResult : Type 0 where
  pub status : Text
  pub compile_output : Option Text
  pub error_message : Option Text
  pub diagnostics : List CodeDiagnostic
  pub test_cases : List TestCaseResult
  pub execution_time : ℤ
  pub memory_used : ℤ
  pub error : Option Text
  pub testcase_version : Option ℤ
  pub test_count : Option ℤ
  pub dataset_checksum : Option Text

pub record RunTestCase : Type 0 where
  pub id : Text
  pub kind : Text
  pub stdin : Text
  pub expected_output : Option Text

pub record RunRequest : Type 0 where
  pub language : Text
  pub source_code : Text
  pub test_cases : List RunTestCase
  pub limits : ExecutionLimits

pub record RunTestCaseResult : Type 0 where
  pub id : Text
  pub kind : Text
  pub status : Text
  pub stdout : Text
  pub stderr : Text
  pub expected_output : Option Text
  pub execution_time_ms : ℤ
  pub memory_used_kb : ℤ
  pub diagnostics : List CodeDiagnostic

pub record RunResult : Type 0 where
  pub status : Text
  pub compile_output : Text
  pub diagnostics : List CodeDiagnostic
  pub test_cases : List RunTestCaseResult
