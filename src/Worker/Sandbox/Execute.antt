-- ===== src/Worker/Sandbox/Execute.antt =====
-- go_judge_client.go: the calls of the sandbox, and `Execute`, which compiles a program and runs it on
-- its testcases batch by batch.
use go_judge_system.Prelude.{
  ℕ, zero, suc, ◌==◌, length, take, drop, Text, codes, is_empty, trim_space, Bool, true, false,
  Option, none, some, List, [], ◌∷◌, ◌++◌, if◌then◌else◌,
}
use go_judge_system.Worker.Execution.{
  Outcome, returns, fails, ExecutionTestCase, ExecutionRequest, ExecutionResult, ExecutionLimits,
}
use go_judge_system.Worker.Language.{
  LanguageConfig, RunCmd, get_language_config, get_source_file_name, get_exe_file_name,
}
use go_judge_system.Worker.Diagnostics.{Patterns}
use go_judge_system.Worker.Cache.{Binding}
use go_judge_system.Worker.Sandbox.{
  SandboxResult, Response, normalize_limits, ensure_output_limit_for_expected,
}
use go_judge_system.Worker.Sandbox.Requests.{
  Reply, SandboxPorts, RunContext, non_retryable_error, compile_command, Built, built, refused,
  new_run_batch_request,
}
use go_judge_system.Worker.Sandbox.Answers.{
  exec_outcome, has_file_errors, Compiled, executable, rejected, compile_fails, fresh_result,
  wrong_count, Scan, goes_on, stops, breaks, compile_answer, scan_results,
}

unfoldable pub effective_limits : ExecutionRequest → ExecutionLimits
effective_limits req = ensure_output_limit_for_expected (normalize_limits req.limits) req.test_cases

unfoldable pub has_command : Option RunCmd → Bool
has_command none = false
has_command (some cmd) = true

unfoldable pub run_context : ExecutionRequest → LanguageConfig → Text → RunContext
unfolding effective_limits has_command
run_context req cfg exe_file_id = record {
  language = req.language;
  source_code = req.source_code;
  lang_cfg = cfg;
  limits = effective_limits req;
  has_compile = has_command cfg.compile;
  exe_file_id = exe_file_id;
  dataset = req.testcase_dataset;
}

unfoldable pub batch_length : Bool → ℕ
batch_length stop = if stop then 4 else 50

module _ (ps : Patterns) {W : Type 0} (sp : SandboxPorts W) where
  -- `exec` with the operation's name.
  unfoldable pub executed : Text → Reply × W → Outcome Response × W
  executed operation (reply, w) = (exec_outcome operation reply, w)

  unfoldable pub batch_results :
      List Binding → Outcome Response × W → Outcome (List (Option SandboxResult)) × W
  batch_results bs (fails e, w) = (fails e, sp.release bs w)
  batch_results bs (returns r, w) = (returns r.results, sp.release bs w)

  unfoldable pub run_once : Built × W → List Binding × (Outcome (List (Option SandboxResult)) × W)
  unfolding executed batch_results
  run_once (refused e, w) = ([], (fails e, w))
  run_once (built cmds bs, w) =
      (bs, batch_results bs (executed (codes "run_batch") (sp.exec_rpc cmds w)))

  unfoldable pub retry_batch :
      RunContext
      → List ExecutionTestCase
      → List (Option SandboxResult)
      → Bool × W
      → Outcome (List (Option SandboxResult)) × W
  retry_batch rc ts results (false, w) = (returns results, w)
  retry_batch rc ts results (true, w) = (run_once (new_run_batch_request sp rc ts w)).1

  unfoldable pub after_run :
      RunContext
      → List ExecutionTestCase
      → List Binding × (Outcome (List (Option SandboxResult)) × W)
      → Outcome (List (Option SandboxResult)) × W
  unfolding retry_batch
  after_run rc ts (bs, (fails e, w)) = (fails e, w)
  after_run rc ts (bs, (returns results, w)) =
      if has_file_errors results
      then retry_batch rc ts results (sp.invalidate_missing bs w)
      else (returns results, w)

  -- `runBatch`: a batch is built and run again once, where an input was lost from the cache.
  unfoldable pub run_batch :
      RunContext → List ExecutionTestCase → W → Outcome (List (Option SandboxResult)) × W
  unfolding run_once after_run
  run_batch rc ts w = after_run rc ts (run_once (new_run_batch_request sp rc ts w))

  unfoldable pub scan_batch :
      Text
      → Bool
      → List ExecutionTestCase
      → ExecutionResult
      → Outcome (List (Option SandboxResult))
      → Scan
  scan_batch language stop ts result (fails e) = breaks e
  scan_batch language stop ts result (returns rs) =
      if length rs == length ts
      then scan_results ps language stop ts rs result
      else breaks (wrong_count (length rs) (length ts))

  unfoldable pub after_scan :
      (ExecutionResult → W → Option (Outcome ExecutionResult) × W)
      → Scan
      → W
      → Option (Outcome ExecutionResult) × W
  after_scan go_on (goes_on result) w = go_on result w
  after_scan go_on (stops result) w = (some (returns result), w)
  after_scan go_on (breaks e) w = (some (fails e), w)

  -- The loop of `Execute` over the testcases that are left; `none` is the end of the fuel.
  unfoldable pub run_batches :
      ℕ
      → RunContext
      → Bool
      → List ExecutionTestCase
      → ExecutionResult
      → W
      → Option (Outcome ExecutionResult) × W
  unfolding scan_batch after_scan
  run_batches fuel rc stop [] result w = (some (returns result), w)
  run_batches zero rc stop (t ∷ ts) result w = (none, w)
  run_batches (suc fuel) rc stop (t ∷ ts) result w =
      let batch = take (batch_length stop) (t ∷ ts) in
      let left = drop (batch_length stop) (t ∷ ts) in
      let (results, w') = run_batch rc batch w in
      after_scan (run_batches fuel rc stop left) (scan_batch rc.language stop batch result results)
        w'

  unfoldable pub run_all :
      ExecutionRequest → LanguageConfig → Text → W → Option (Outcome ExecutionResult) × W
  unfolding run_batches
  run_all req cfg exe_file_id w =
      run_batches (length req.test_cases) (run_context req cfg exe_file_id)
        req.stop_on_first_failure req.test_cases fresh_result w

  -- The deferred `cleanupExecutableFile`.
  unfoldable pub cleaned_up :
      Text → Option (Outcome ExecutionResult) × W → Option (Outcome ExecutionResult) × W
  cleaned_up id (o, w) = (o, sp.file_delete id w)

  unfoldable pub after_compile :
      ExecutionRequest → LanguageConfig → Compiled → W → Option (Outcome ExecutionResult) × W
  unfolding run_all cleaned_up
  after_compile req cfg (compile_fails e) w = (some (fails e), w)
  after_compile req cfg (rejected r) w = (some (returns r), w)
  after_compile req cfg (executable id) w = cleaned_up id (run_all req cfg id w)

  -- `compile`.
  unfoldable pub compile_program : ExecutionRequest → RunCmd → W → Compiled × W
  unfolding executed
  compile_program req cmd w =
      let (r, w') = executed (codes "compile") (
        sp.exec_rpc (compile_command req.language req.source_code cmd (effective_limits req) ∷ [])
          w) in
      (compile_answer ps req.language r, w')

  unfoldable pub with_compiler :
      ExecutionRequest → LanguageConfig → Option RunCmd → W → Option (Outcome ExecutionResult) × W
  unfolding compile_program run_all
  with_compiler req cfg none w = run_all req cfg [] w
  with_compiler req cfg (some cmd) w =
      let (c, w') = compile_program req cmd w in after_compile req cfg c w'

  unfoldable pub supported :
      ExecutionRequest → Option LanguageConfig → W → Option (Outcome ExecutionResult) × W
  unfolding with_compiler
  supported req none w =
      (some (fails (non_retryable_error (codes "unsupported language: " ++ req.language))), w)
  supported req (some cfg) w = with_compiler req cfg cfg.compile w

  -- `Execute`.
  unfoldable pub execute : ExecutionRequest → W → Option (Outcome ExecutionResult) × W
  unfolding supported
  execute req w =
      if is_empty (trim_space req.language)
      then (some (fails (non_retryable_error (codes "language not specified"))), w)
      else if is_empty req.source_code
      then (some (fails (non_retryable_error (codes "source code is empty"))), w)
      else if length req.test_cases == 0
      then (some (fails (non_retryable_error (codes "no test cases provided"))), w)
      else supported req
          (get_language_config req.language (get_source_file_name req.language)
            (get_exe_file_name req.language))
          w
