-- ===== src/Worker/Sandbox/Outcomes.antt =====
-- What `Execute` returns, for any sandbox.
use go_judge_system.Prelude.{
  ℕ, zero, suc, length, drop, Text, Bool, if_either, refl, inl, inr, Option, none, some, List, [],
  ◌∷◌, is_empty, trim_space, ◌==◌,
}
use go_judge_system.Submission.Entity.{ResultStatus}
use go_judge_system.Worker.Execution.{
  Outcome, returns, fails, ExecutionTestCase, ExecutionResult, ExecutionRequest,
}
use go_judge_system.Worker.Language.{LanguageConfig, RunCmd}
use go_judge_system.Worker.Diagnostics.{Patterns}
use go_judge_system.Worker.Sandbox.{SandboxResult, Response}
use go_judge_system.Worker.Sandbox.Requests.{SandboxPorts, RunContext}
use go_judge_system.Worker.Sandbox.Answers.{
  Compiled, executable, rejected, compile_fails, fresh_result, Scan, goes_on, stops, breaks,
  compilation_error_result, executable_or_error, compiled, compile_answer, is_accepted,
}
use go_judge_system.Worker.Sandbox.Execute.{
  batch_length, scan_batch, after_scan, run_batches, run_all, cleaned_up, after_compile,
  compile_program, with_compiler, supported, execute,
}
use go_judge_system.Worker.Sandbox.Verdicts.{
  AllNumbered, take-AllNumbered, drop-AllNumbered, IsSound, IsScanSound, IsEndSound,
  scan_results-IsScanSound,
}

module _ (ps : Patterns) {W : Type 0} (sp : SandboxPorts W) where
  scan_batch-IsScanSound :
      (language : Text) (stop : Bool) (ts : List ExecutionTestCase) (acc : ExecutionResult)
      (o : Outcome (List (Option SandboxResult)))
      → AllNumbered ts
      → IsSound acc
      → IsScanSound (scan_batch ps sp language stop ts acc o)
  unfolding scan_batch
  scan_batch-IsScanSound language stop ts acc (fails e) h s = tt
  scan_batch-IsScanSound language stop ts acc (returns rs) h s =
      if_either (length rs == length ts) IsScanSound
        (scan_results-IsScanSound ps language stop ts rs acc h s) tt

  after_scan-IsEndSound :
      (go_on : ExecutionResult → W → Option (Outcome ExecutionResult) × W) (s : Scan) (w : W)
      → ((r : ExecutionResult) (w : W) → IsSound r → IsEndSound (go_on r w).0)
      → IsScanSound s
      → IsEndSound (after_scan ps sp go_on s w).0
  unfolding after_scan
  after_scan-IsEndSound go_on (goes_on r) w f s = f r w s
  after_scan-IsEndSound go_on (stops r) w f s = s
  after_scan-IsEndSound go_on (breaks e) w f s = tt

  run_batches-IsEndSound :
      (fuel : ℕ) (rc : RunContext) (stop : Bool) (ts : List ExecutionTestCase)
      (acc : ExecutionResult) (w : W)
      → AllNumbered ts
      → IsSound acc
      → IsEndSound (run_batches ps sp fuel rc stop ts acc w).0
  unfolding run_batches
  run_batches-IsEndSound fuel rc stop [] acc w h s = s
  run_batches-IsEndSound zero rc stop (t ∷ ts) acc w h s = tt
  run_batches-IsEndSound (suc fuel) rc stop (t ∷ ts) acc w h s =
      let n = batch_length stop in
      after_scan-IsEndSound (run_batches ps sp fuel rc stop (drop n (t ∷ ts))) _ _
        (λ r w'. run_batches-IsEndSound fuel rc stop _ r w' (drop-AllNumbered n (t ∷ ts) h))
        (scan_batch-IsScanSound rc.language stop _ acc _ (take-AllNumbered n (t ∷ ts) h) s)

  run_all-IsEndSound :
      (req : ExecutionRequest) (cfg : LanguageConfig) (id : Text) (w : W)
      → AllNumbered req.test_cases
      → IsEndSound (run_all ps sp req cfg id w).0
  unfolding run_all fresh_result
  run_all-IsEndSound req cfg id w h =
      run_batches-IsEndSound _ _ _ req.test_cases _ w h
        (record { known = inl (ResultStatus.accepted, refl); cases = tt })

  IsCompiledSound : Compiled → Type 0
  IsCompiledSound (executable id) = Unit {0}
  IsCompiledSound (rejected r) = IsSound r
  IsCompiledSound (compile_fails e) = Unit {0}

  executable_or_error-IsCompiledSound : (id : Text) → IsCompiledSound (executable_or_error id)
  unfolding executable_or_error IsCompiledSound
  executable_or_error-IsCompiledSound [] = tt
  executable_or_error-IsCompiledSound (c ∷ id) = tt

  compiled-IsCompiledSound :
      (language : Text) (rs : List (Option SandboxResult))
      → IsCompiledSound (compiled ps language rs)
  unfolding compiled compilation_error_result IsCompiledSound fresh_result
  compiled-IsCompiledSound language [] = tt
  compiled-IsCompiledSound language (none ∷ rs) = tt
  compiled-IsCompiledSound language (some res ∷ rs) =
      if_either (is_accepted res.status) IsCompiledSound (executable_or_error-IsCompiledSound _)
        (record { known = inr refl; cases = tt })

  compile_answer-IsCompiledSound :
      (language : Text) (o : Outcome Response) → IsCompiledSound (compile_answer ps language o)
  unfolding compile_answer IsCompiledSound
  compile_answer-IsCompiledSound language (fails e) = tt
  compile_answer-IsCompiledSound language (returns r) = compiled-IsCompiledSound language r.results

  after_compile-IsEndSound :
      (req : ExecutionRequest) (cfg : LanguageConfig) (c : Compiled) (w : W)
      → AllNumbered req.test_cases
      → IsCompiledSound c
      → IsEndSound (after_compile ps sp req cfg c w).0
  unfolding after_compile cleaned_up IsCompiledSound
  after_compile-IsEndSound req cfg (executable id) w h s = run_all-IsEndSound req cfg id w h
  after_compile-IsEndSound req cfg (rejected r) w h s = s
  after_compile-IsEndSound req cfg (compile_fails e) w h s = tt

  with_compiler-IsEndSound :
      (req : ExecutionRequest) (cfg : LanguageConfig) (o : Option RunCmd) (w : W)
      → AllNumbered req.test_cases
      → IsEndSound (with_compiler ps sp req cfg o w).0
  unfolding with_compiler compile_program
  with_compiler-IsEndSound req cfg none w h = run_all-IsEndSound req cfg [] w h
  with_compiler-IsEndSound req cfg (some cmd) w h =
      after_compile-IsEndSound req cfg _ _ h (compile_answer-IsCompiledSound req.language _)

  supported-IsEndSound :
      (req : ExecutionRequest) (o : Option LanguageConfig) (w : W)
      → AllNumbered req.test_cases
      → IsEndSound (supported ps sp req o w).0
  unfolding supported
  supported-IsEndSound req none w h = tt
  supported-IsEndSound req (some cfg) w h = with_compiler-IsEndSound req cfg cfg.compile w h

  -- A result that `Execute` returns for testcases with positive indexes has one of the statuses that the
  -- submission service reads, or that of a program that does not compile, and each of its testcases has
  -- one of those statuses and a positive index, whatever the sandbox and the cache answer.
  pub execute-IsEndSound :
      (req : ExecutionRequest) (w : W)
      → AllNumbered req.test_cases
      → IsEndSound (execute ps sp req w).0
  unfolding execute
  execute-IsEndSound req w h =
      let Sound : Option (Outcome ExecutionResult) × W → Type 0 = λ p. IsEndSound p.0 in
      if_either (is_empty (trim_space req.language)) Sound tt (
        if_either (is_empty req.source_code) Sound tt
          (if_either (length req.test_cases == 0) Sound tt (supported-IsEndSound req _ w h)))
