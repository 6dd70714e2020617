-- ===== src/Worker/Sandbox/Answers.antt =====
-- go_judge_client.go: what the client makes of the sandbox's responses: the outcome of a call, of a
-- compilation, and of the results of one batch.
use go_judge_system.Prelude.{
  ℕ, ◌==◌, length, pos, show_nat, show_int, Text, text_eq, codes, is_empty, Bool, true, false, not,
  ◌&&◌, ◌||◌, Option, none, some, List, [], ◌∷◌, ◌++◌, if◌then◌else◌,
}
use go_judge_system.Worker.Execution.{
  WorkerError, Outcome, returns, fails, ExecutionTestCase, TestCaseResult, ExecutionResult,
}
use go_judge_system.Worker.Language.{get_exe_file_name}
use go_judge_system.Worker.Diagnostics.{Patterns, sanitize_output, parse_compile_diagnostics}
use go_judge_system.Worker.Sandbox.{
  JudgeStatus, SandboxResult, Response, lookup_text, max_int64, accepted_status,
  map_test_case_result, error_message_for_test_case,
}
use go_judge_system.Worker.Sandbox.Requests.{
  Reply, canceled, transport_failure, no_response, answers, plain_error,
}

unfoldable pub exec_outcome : Text → Reply → Outcome Response
exec_outcome operation (canceled e) =
    fails
      (plain_error (codes "go-judge " ++ operation ++ codes " RPC canceled or timed out: " ++ e))
exec_outcome operation (transport_failure e) =
    fails (plain_error (codes "go-judge " ++ operation ++ codes " gRPC transport failure: " ++ e))
exec_outcome operation no_response =
    fails (plain_error (codes "go-judge " ++ operation ++ codes " RPC returned an empty response"))
exec_outcome operation (answers r) =
    if not (is_empty r.error) && length r.results == 0
    then fails
        (plain_error (codes "go-judge " ++ operation ++ codes " RPC returned an execution error"))
    else returns r

-- `hasFileErrors`.
unfoldable pub has_file_errors : List (Option SandboxResult) → Bool
has_file_errors [] = false
has_file_errors (none ∷ rs) = has_file_errors rs
has_file_errors (some r ∷ rs) = not (length r.file_errors == 0) || has_file_errors rs

-- What `compile` brings: the id of the executable, the result of a program that does not compile, or
-- an error.
pub data Compiled : Type 0 where
  executable : Text → Compiled
  rejected : ExecutionResult → Compiled
  compile_fails : WorkerError → Compiled

unfoldable pub fresh_result : ExecutionResult
fresh_result = record {
  status = accepted_status;
  compile_output = none;
  error_message = none;
  diagnostics = [];
  test_cases = [];
  execution_time = pos 0;
  memory_used = pos 0;
  error = none;
  testcase_version = none;
  test_count = none;
  dataset_checksum = none;
}

unfoldable pub incomplete_result : ExecutionTestCase → WorkerError
unfolding plain_error
incomplete_result t =
    plain_error (codes "go-judge returned an incomplete result for testcase " ++ show_int t.index)

unfoldable pub wrong_count : ℕ → ℕ → WorkerError
unfolding plain_error
wrong_count got wanted = plain_error (
    codes "go-judge returned "
    ++ show_nat got
    ++ codes " results for "
    ++ show_nat wanted
    ++ codes " test cases")

-- What the loop over the results of one batch ends with: the result so far, a result that is returned
-- at once, or an error.
pub data Scan : Type 0 where
  goes_on : ExecutionResult → Scan
  stops : ExecutionResult → Scan
  breaks : WorkerError → Scan

unfoldable pub is_accepted : JudgeStatus → Bool
is_accepted JudgeStatus.accepted = true
is_accepted s = false

unfoldable pub executable_or_error : Text → Compiled
executable_or_error id =
    if is_empty id
    then compile_fails
        (plain_error (codes "compile succeeded but executable file ID was absent from response"))
    else executable id

module _ (ps : Patterns) where
  unfoldable pub compile_output_text : SandboxResult → Text
  compile_output_text res =
      let stderr = lookup_text (codes "stderr") res.files in
      let stdout = lookup_text (codes "stdout") res.files in
      sanitize_output ps (
        if not (is_empty stderr)
        then stderr
        else if not (is_empty stdout)
        then stdout
        else res.error)

  unfoldable pub compilation_error_result : Text → SandboxResult → ExecutionResult
  unfolding compile_output_text fresh_result
  compilation_error_result language res = record fresh_result {
    status = codes "COMPILATION_ERROR";
    compile_output = some (compile_output_text res);
    diagnostics = parse_compile_diagnostics ps language (compile_output_text res);
  }

  -- The first result of the compile request.
  unfoldable pub compiled : Text → List (Option SandboxResult) → Compiled
  unfolding compilation_error_result is_accepted executable_or_error
  compiled language [] =
      compile_fails (plain_error (codes "go-judge compile response did not contain a result"))
  compiled language (none ∷ rs) =
      compile_fails (plain_error (codes "go-judge compile response did not contain a result"))
  compiled language (some res ∷ rs) =
      if is_accepted res.status
      then executable_or_error (lookup_text (get_exe_file_name language) res.file_ids)
      else rejected (compilation_error_result language res)

  unfoldable pub compile_answer : Text → Outcome Response → Compiled
  unfolding compiled
  compile_answer language (fails e) = compile_fails e
  compile_answer language (returns r) = compiled language r.results

  -- The result once that of one more testcase is in.
  unfoldable pub add_result : TestCaseResult → ExecutionResult → ExecutionResult
  add_result tc r =
      let first = not (text_eq tc.status accepted_status) && text_eq r.status accepted_status in
      record r {
        test_cases = r.test_cases ++ tc ∷ [];
        execution_time = max_int64 tc.execution_time r.execution_time;
        memory_used = max_int64 tc.memory_used r.memory_used;
        status = if first then tc.status else r.status;
        error_message = if first then error_message_for_test_case ps tc else r.error_message;
      }

  -- The loop over the results of a batch.
  unfoldable pub scan_results :
      Text → Bool → List ExecutionTestCase → List (Option SandboxResult) → ExecutionResult → Scan
  unfolding add_result incomplete_result
  scan_results language stop [] rs result = goes_on result
  scan_results language stop (t ∷ ts) [] result = goes_on result
  scan_results language stop (t ∷ ts) (none ∷ rs) result = breaks (incomplete_result t)
  scan_results language stop (t ∷ ts) (some raw ∷ rs) result =
      let tc = map_test_case_result ps language t raw in
      let next = add_result tc result in
      let rest = scan_results language stop ts rs next in
      if stop && not (text_eq tc.status accepted_status) then stops next else rest
