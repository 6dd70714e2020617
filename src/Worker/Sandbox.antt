-- ===== src/Worker/Sandbox.antt =====
-- workers/judge/internal/adapter/outbound/execute/go_judge_client.go: the judge's client of the sandbox.
-- This file has the messages of the sandbox's RPC, of which the client reads and writes these fields,
-- the limits of a request, and what a result of the sandbox becomes.
pub mod Requests
pub mod Answers
pub mod Execute
pub mod Limits
pub mod Loop
pub mod Batches
pub mod Termination
pub mod Transport
pub mod Carried
pub mod Served
pub mod Verdicts
pub mod Outcomes
pub mod Published
use go_judge_system.Prelude.{
  ℕ, ◌+◌, ◌-◌, ◌/◌, ◌%◌, ltb, length, ℤ, pos, negsuc, ℤ_discrete, is_positive, ltb_ℤ, Text, text_eq,
  codes, is_empty, trim_space, ite, Bool, true, false, not, ◌&&◌, Option, none, some, List, [], ◌∷◌,
  if◌then◌else◌,
}
use go_judge_system.Worker.Execution.{
  ExecutionLimits, ExecutionTestCase, TestCaseResult, CodeDiagnostic,
}
use go_judge_system.Worker.Output.{output_equal}
use go_judge_system.Worker.Diagnostics.{
  Patterns, sanitize_output, parse_runtime_diagnostics, runtime_error_message,
}

-- `Request_File`.
pub data RequestFile : Type 0 where
  memory_file : Text → RequestFile
  cached_file : Text → RequestFile
  local_file : Text → RequestFile
  pipe_collector : Text → ℤ → RequestFile

-- `Request_CmdType`; the limits are of type uint64.
pub record Command : Type 0 where
  pub args : List Text
  pub env : List Text
  pub files : List RequestFile
  pub copy_in : List (Text × RequestFile)
  pub copy_out : List Text
  pub copy_out_cached : List Text
  pub memory_limit : ℕ
  pub cpu_time_limit : ℕ
  pub clock_time_limit : ℕ
  pub proc_limit : ℕ

-- `Response_Result_StatusType`, with the values that the client does not name as one constructor.
pub data JudgeStatus : Type 0 where
  accepted memory_limit_exceeded time_limit_exceeded output_limit_exceeded : JudgeStatus
  file_error non_zero_exit_status signalled internal_error : JudgeStatus
  other : ℕ → JudgeStatus

-- `Response_Result`; the time is in nanoseconds, the memory in bytes.
pub record SandboxResult : Type 0 where
  pub status : JudgeStatus
  pub exit_status : ℤ
  pub error : Text
  pub time : ℕ
  pub memory : ℕ
  pub files : List (Text × Text)
  pub file_ids : List (Text × Text)
  pub file_errors : List Text

-- `Response`; an entry of the results may be nil.
pub record Response : Type 0 where
  pub error : Text
  pub results : List (Option SandboxResult)

-- A lookup in a map of texts, "" for a missing key.
unfoldable pub lookup_text : Text → List (Text × Text) → Text
lookup_text k [] = []
lookup_text k ((j, v) ∷ rows) = let rest = lookup_text k rows in if text_eq j k then v else rest

-- `uint64` of a signed integer.
unfoldable pub to_uint64 : ℤ → ℕ
to_uint64 (pos n) = n % 18446744073709551616
to_uint64 (negsuc n) = 18446744073709551615 - n % 18446744073709551616

-- `maxInt64`.
unfoldable pub max_int64 : ℤ → ℤ → ℤ
max_int64 a b = if ltb_ℤ b a then a else b

unfoldable pub or_default : ℤ → ℤ → ℤ
or_default v default = if is_positive v then v else default

-- `normalizeLimits`.
unfoldable pub normalize_limits : ExecutionLimits → ExecutionLimits
unfolding or_default
normalize_limits l = record {
  time_limit_ms = or_default l.time_limit_ms (pos 2000);
  memory_limit_kb = or_default l.memory_limit_kb (pos 262144);
  output_limit_bytes = or_default l.output_limit_bytes (pos 1048576);
}

abbrev pub expected_output_headroom_bytes : ℕ
expected_output_headroom_bytes = 65536

unfoldable pub expected_size : Option Text → ℤ → ℤ
expected_size none required = required
expected_size (some expected) required =
    let size = pos (length expected + expected_output_headroom_bytes) in
    if ltb_ℤ required size then size else required

-- The loop of `ensureOutputLimitForExpected`.
unfoldable pub required_output : ℤ → List ExecutionTestCase → ℤ
unfolding expected_size
required_output required [] = required
required_output required (t ∷ ts) = required_output (expected_size t.expected_output required) ts

-- `ensureOutputLimitForExpected`.
unfoldable pub ensure_output_limit_for_expected :
    ExecutionLimits → List ExecutionTestCase → ExecutionLimits
unfolding required_output
ensure_output_limit_for_expected l ts = record l {
  output_limit_bytes = required_output l.output_limit_bytes ts;
}

abbrev pub accepted_status : Text
accepted_status = codes "ACCEPTED"

-- `mapJudgeStatus`; `mapOfficialSubmissionStatus` is the identity.
unfoldable pub map_judge_status : JudgeStatus → ℤ → Text
map_judge_status JudgeStatus.accepted exit_status =
    ite (ℤ_discrete exit_status (pos 0)) accepted_status (codes "RUNTIME_ERROR")
map_judge_status JudgeStatus.memory_limit_exceeded exit_status = codes "MEMORY_LIMIT_EXCEEDED"
map_judge_status JudgeStatus.time_limit_exceeded exit_status = codes "TIME_LIMIT_EXCEEDED"
map_judge_status JudgeStatus.output_limit_exceeded exit_status = codes "OUTPUT_LIMIT_EXCEEDED"
map_judge_status JudgeStatus.file_error exit_status = codes "RUNTIME_ERROR"
map_judge_status JudgeStatus.non_zero_exit_status exit_status = codes "RUNTIME_ERROR"
map_judge_status JudgeStatus.signalled exit_status = codes "RUNTIME_ERROR"
map_judge_status JudgeStatus.internal_error exit_status = codes "SYSTEM_ERROR"
map_judge_status (JudgeStatus.other n) exit_status = codes "SYSTEM_ERROR"

unfoldable pub text_option : Text → Option Text
text_option s = if is_empty s then none else some s

unfoldable pub option_text : Option Text → Text
option_text none = []
option_text (some s) = s

-- The status once the output has been compared with the expected one.
unfoldable pub compared_status : Text → Text → Option Text → Text
compared_status status stdout none = status
compared_status status stdout (some expected) =
    if text_eq status accepted_status && not (output_equal stdout expected)
    then codes "WRONG_ANSWER"
    else status

module _ (ps : Patterns) where
  -- `mapTestCaseResult`.
  unfoldable pub map_test_case_result : Text → ExecutionTestCase → SandboxResult → TestCaseResult
  unfolding map_judge_status compared_status text_option
  map_test_case_result language t res =
      let stdout = lookup_text (codes "stdout") res.files in
      let stderr = sanitize_output ps (lookup_text (codes "stderr") res.files) in
      record {
        index = t.index;
        id = t.id;
        kind = t.kind;
        status =
            compared_status (map_judge_status res.status res.exit_status) stdout t.expected_output;
        actual_output = text_option stdout;
        stderr = text_option stderr;
        input = none;
        expected_output = t.expected_output;
        execution_time = pos (res.time / 1000000);
        memory_used = pos (res.memory / 1024);
        diagnostics = parse_runtime_diagnostics ps language t.id stderr;
      }

  unfoldable pub status_message : TestCaseResult → Text
  unfolding option_text
  status_message r =
      if text_eq r.status (codes "RUNTIME_ERROR")
      then runtime_error_message ps (option_text r.stderr) r.diagnostics
      else if text_eq r.status (codes "TIME_LIMIT_EXCEEDED")
      then codes "Execution exceeded the time limit."
      else if text_eq r.status (codes "MEMORY_LIMIT_EXCEEDED")
      then codes "Execution exceeded the memory limit."
      else if text_eq r.status (codes "SYSTEM_ERROR")
      then codes "The judge could not complete this submission."
      else []

  -- `errorMessageForTestCase`.
  unfoldable pub error_message_for_test_case : TestCaseResult → Option Text
  unfolding status_message
  error_message_for_test_case r =
      let message = status_message r in if is_empty (trim_space message) then none else some message
