-- ===== src/Worker/Sandbox/Termination.antt =====
-- `Execute` always ends.
use go_judge_system.Prelude.{
  ℕ, zero, suc, ◌==◌, ◌≤◌, length, Text, Bool, Option, none, some, List, [], ◌∷◌, arith, if_either,
  is_empty, trim_space,
}
use go_judge_system.Worker.Execution.{Outcome, ExecutionTestCase, ExecutionResult, ExecutionRequest}
use go_judge_system.Worker.Language.{LanguageConfig, RunCmd}
use go_judge_system.Worker.Diagnostics.{Patterns}
use go_judge_system.Worker.Sandbox.Requests.{SandboxPorts, RunContext}
use go_judge_system.Worker.Sandbox.Answers.{
  Scan, goes_on, stops, breaks, Compiled, executable, rejected, compile_fails,
}
use go_judge_system.Worker.Sandbox.Execute.{
  after_scan, run_batches, run_all, cleaned_up, after_compile, with_compiler, supported, execute,
}
use go_judge_system.Worker.Sandbox.Batches.{drop_le}

-- A result, or an error, but not the end of the fuel.
unfoldable pub IsEnded : Option (Outcome ExecutionResult) → Type 0
IsEnded none = ⊥
IsEnded (some o) = Unit

module _ (ps : Patterns) {W : Type 0} (sp : SandboxPorts W) where
  after_scan-IsEnded :
      (go_on : ExecutionResult → W → Option (Outcome ExecutionResult) × W) (s : Scan) (w : W)
      → ((r : ExecutionResult) (w : W) → IsEnded (go_on r w).0)
      → IsEnded (after_scan ps sp go_on s w).0
  unfolding after_scan IsEnded
  after_scan-IsEnded go_on (goes_on r) w h = h r w
  after_scan-IsEnded go_on (stops r) w h = tt
  after_scan-IsEnded go_on (breaks e) w h = tt

  run_batches-IsEnded :
      (fuel : ℕ) (rc : RunContext) (stop : Bool) (ts : List ExecutionTestCase)
      (acc : ExecutionResult) (w : W)
      → length ts ≤ fuel
      → IsEnded (run_batches ps sp fuel rc stop ts acc w).0
  unfolding run_batches IsEnded
  run_batches-IsEnded fuel rc stop [] acc w h = tt
  run_batches-IsEnded zero rc stop (t ∷ ts) acc w h = absurd (omega arith)
  run_batches-IsEnded (suc fuel) rc stop (t ∷ ts) acc w h =
      after_scan-IsEnded (run_batches ps sp fuel rc stop _) _ _
        (λ r w'. run_batches-IsEnded fuel rc stop _ r w' (drop_le stop t ts fuel h))

  pub run_all-IsEnded :
      (req : ExecutionRequest) (cfg : LanguageConfig) (id : Text) (w : W)
      → IsEnded (run_all ps sp req cfg id w).0
  unfolding run_all
  run_all-IsEnded req cfg id w = run_batches-IsEnded _ _ _ req.test_cases _ w (omega arith)

  after_compile-IsEnded :
      (req : ExecutionRequest) (cfg : LanguageConfig) (c : Compiled) (w : W)
      → IsEnded (after_compile ps sp req cfg c w).0
  unfolding after_compile cleaned_up IsEnded
  after_compile-IsEnded req cfg (executable id) w = run_all-IsEnded req cfg id w
  after_compile-IsEnded req cfg (rejected r) w = tt
  after_compile-IsEnded req cfg (compile_fails e) w = tt

  with_compiler-IsEnded :
      (req : ExecutionRequest) (cfg : LanguageConfig) (o : Option RunCmd) (w : W)
      → IsEnded (with_compiler ps sp req cfg o w).0
  unfolding with_compiler
  with_compiler-IsEnded req cfg none w = run_all-IsEnded req cfg [] w
  with_compiler-IsEnded req cfg (some cmd) w = after_compile-IsEnded req cfg _ _

  supported-IsEnded :
      (req : ExecutionRequest) (o : Option LanguageConfig) (w : W)
      → IsEnded (supported ps sp req o w).0
  unfolding supported IsEnded
  supported-IsEnded req none w = tt
  supported-IsEnded req (some cfg) w = with_compiler-IsEnded req cfg cfg.compile w

  -- `Execute` ends for every request, with a result or with an error, whatever the sandbox and the cache
  -- answer: the number of the testcases is enough fuel for the loop over the batches.
  pub execute-IsEnded : (req : ExecutionRequest) (w : W) → IsEnded (execute ps sp req w).0
  unfolding execute IsEnded
  execute-IsEnded req w =
      let Ended : Option (Outcome ExecutionResult) × W → Type 0 = λ p. IsEnded p.0 in
      if_either (is_empty (trim_space req.language)) Ended tt (
        if_either (is_empty req.source_code) Ended tt
          (if_either (length req.test_cases == 0) Ended tt (supported-IsEnded req _ w)))
