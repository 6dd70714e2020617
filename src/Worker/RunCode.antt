-- ===== src/Worker/RunCode.antt =====
-- workers/judge/internal/application/usecase/judge/run_code.go: a program is run on testcases of its
-- author, with nothing kept. The sandbox is the argument `execute`.
pub mod Laws
use go_judge_system.Prelude.{
  ℕ, suc, ℤ, pos, Text, text_eq, codes, Bool, false, Option, none, some, List, [], ◌∷◌, ◌++◌, map,
  if◌then◌else◌,
}
use go_judge_system.Worker.Execution.{
  Outcome, returns, fails, ExecutionTestCase, ExecutionRequest, TestCaseResult, ExecutionResult,
  CodeDiagnostic, RunTestCase, RunRequest, RunTestCaseResult, RunResult,
}
use go_judge_system.Worker.Sandbox.{option_text}

unfoldable pub numbered_case : ℕ → RunTestCase → ExecutionTestCase
numbered_case i t = record {
  index = pos i;
  id = t.id;
  kind = t.kind;
  stdin = t.stdin;
  sandbox_input_path = [];
  expected_output = t.expected_output;
}

-- The testcases with their numbers, from `i` on.
unfoldable pub numbered_cases : ℕ → List RunTestCase → List ExecutionTestCase
unfolding numbered_case
numbered_cases i [] = []
numbered_cases i (t ∷ ts) = numbered_case i t ∷ numbered_cases (suc i) ts

unfoldable pub run_execution_request : RunRequest → ExecutionRequest
unfolding numbered_cases
run_execution_request req = record {
  language = req.language;
  source_code = req.source_code;
  test_cases = numbered_cases 1 req.test_cases;
  limits = req.limits;
  stop_on_first_failure = false;
  testcase_dataset = none;
}

unfoldable pub accepted_run_status : Option Text → Text
accepted_run_status none = codes "executed"
accepted_run_status (some expected) = codes "accepted"

-- `mapExecutionStatusToRunStatus`.
unfoldable pub run_status : Text → Option Text → Text
unfolding accepted_run_status
run_status status expected =
    if text_eq status (codes "ACCEPTED")
    then accepted_run_status expected
    else if text_eq status (codes "WRONG_ANSWER")
    then codes "wrong_answer"
    else if text_eq status (codes "TIME_LIMIT_EXCEEDED")
    then codes "time_limit_exceeded"
    else if text_eq status (codes "MEMORY_LIMIT_EXCEEDED")
    then codes "memory_limit_exceeded"
    else if text_eq status (codes "OUTPUT_LIMIT_EXCEEDED")
    then codes "output_limit_exceeded"
    else if text_eq status (codes "RUNTIME_ERROR")
    then codes "runtime_error"
    else codes "system_error"

unfoldable pub run_case_result : TestCaseResult → RunTestCaseResult
unfolding run_status option_text
run_case_result r = record {
  id = r.id;
  kind = r.kind;
  status = run_status r.status r.expected_output;
  stdout = option_text r.actual_output;
  stderr = option_text r.stderr;
  expected_output = r.expected_output;
  execution_time_ms = r.execution_time;
  memory_used_kb = r.memory_used;
  diagnostics = r.diagnostics;
}

unfoldable pub case_diagnostics : List TestCaseResult → List CodeDiagnostic
case_diagnostics [] = []
case_diagnostics (r ∷ rs) = r.diagnostics ++ case_diagnostics rs

-- `mapExecutionResultToRunResult`, for a result that is not nil.
unfoldable pub run_result : ExecutionResult → RunResult
unfolding run_case_result case_diagnostics option_text
run_result r = record {
  status =
      if text_eq r.status (codes "COMPILATION_ERROR")
      then codes "compile_error"
      else codes "completed";
  compile_output = option_text r.compile_output;
  diagnostics = r.diagnostics ++ case_diagnostics r.test_cases;
  test_cases = map run_case_result r.test_cases;
}

unfoldable pub run_outcome : Outcome ExecutionResult → Outcome RunResult
unfolding run_result
run_outcome (fails e) = fails e
run_outcome (returns r) = returns (run_result r)

-- `RunCodeUseCase.Execute`.
unfoldable pub run_code :
    (ExecutionRequest → Outcome ExecutionResult) → RunRequest → Outcome RunResult
unfolding run_outcome run_execution_request
run_code execute req = run_outcome (execute (run_execution_request req))
