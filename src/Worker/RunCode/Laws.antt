-- ===== src/Worker/RunCode/Laws.antt =====
-- What a run shows to its author: every testcase, in order, with a status of its own.
use go_judge_system.Prelude.{
  ◌≤◌, Text, codes, text_eq, text_dec, if_either, false, ◌≡◌, refl, ap, sym, ◌∙◌, inr, arith,
  Option, some, List, [], ◌∷◌, map, if◌then◌else◌,
}
use mathlib.Core.Option.{some-injective}
use go_judge_system.Submission.Entity.{ResultStatus, result_status_text}
use go_judge_system.Worker.Execution.{
  Outcome, returns, ExecutionTestCase, ExecutionRequest, TestCaseResult, ExecutionResult,
  RunRequest, RunResult,
}
use go_judge_system.Worker.Language.{LanguageConfig}
use go_judge_system.Worker.Diagnostics.{Patterns}
use go_judge_system.Worker.RunCode.{
  numbered_cases, run_execution_request, run_case_result, run_result, run_code, run_outcome,
}
use go_judge_system.Worker.Sandbox.{RequestFile, Command, SandboxResult, accepted_status}
use go_judge_system.Worker.Sandbox.Requests.{SandboxPorts, safe_request_bytes}
use go_judge_system.Worker.Sandbox.Execute.{run_all, run_context}
use go_judge_system.Worker.Sandbox.Loop.{kept, summary, outcome, verdict_status, first_failure}
use go_judge_system.Worker.Sandbox.Batches.{judged_case}
use go_judge_system.Worker.Sandbox.Transport.{Serves, total_input}
use go_judge_system.Worker.Sandbox.Carried.{program_answer, run_all_served}
use go_judge_system.Worker.Sandbox.Verdicts.{IsVerdict, map_test_case_result-IsVerdict}

kept_all : (rs : List TestCaseResult) → kept false rs ≡ rs
unfolding kept
kept_all [] = refl
kept_all (r ∷ rs) = rw (kept_all rs) refl

verdict_not_compilation :
    (v : ResultStatus) → text_eq (result_status_text v) (codes "COMPILATION_ERROR") ≡ false
unfolding text_eq text_dec
verdict_not_compilation ResultStatus.accepted = refl
verdict_not_compilation ResultStatus.wrong_answer = refl
verdict_not_compilation ResultStatus.time_limit = refl
verdict_not_compilation ResultStatus.memory_limit = refl
verdict_not_compilation ResultStatus.output_limit = refl
verdict_not_compilation ResultStatus.runtime_error = refl
verdict_not_compilation ResultStatus.system_error = refl

-- The result shows each testcase of the request with what the program gives for it.
abbrev pub ShowsAll :
    Patterns → RunRequest → (ExecutionTestCase → SandboxResult) → Outcome RunResult → Type 0
ShowsAll ps req answer o =
    (run : RunResult) × ((o ≡ returns run)
      × ((run.status ≡ codes "completed")
          × (run.test_cases
              ≡ map run_case_result
                  (map (judged_case ps req.language answer) (numbered_cases 1 req.test_cases)))))

module _ (ps : Patterns) where
  verdict_status-IsVerdict :
      (language : Text) (answer : ExecutionTestCase → SandboxResult) (ts : List ExecutionTestCase)
      → IsVerdict (verdict_status ps (first_failure (map (judged_case ps language answer) ts)))
  unfolding verdict_status first_failure judged_case
  verdict_status-IsVerdict language answer [] = (ResultStatus.accepted, refl)
  verdict_status-IsVerdict language answer (t ∷ ts) =
      if_either (text_eq (judged_case ps language answer t).status accepted_status)
        (λ (o : Option TestCaseResult). IsVerdict (verdict_status ps o))
        (verdict_status-IsVerdict language answer ts)
        (map_test_case_result-IsVerdict ps language t (answer t))

  completed_status :
      (s : Text)
      → IsVerdict s
      → (if text_eq s (codes "COMPILATION_ERROR") then codes "compile_error" else codes "completed")
        ≡ codes "completed"
  completed_status s (v, e) =
      ap
        (λ x.
          if text_eq x (codes "COMPILATION_ERROR")
          then codes "compile_error"
          else codes "completed")
        e
      ∙ rw (verdict_not_compilation v) refl

  summary-ShowsAll :
      (req : RunRequest) (answer : ExecutionTestCase → SandboxResult) (o : Outcome ExecutionResult)
      → o
        ≡ returns (
            summary ps (
              kept false
                (map (judged_case ps req.language answer) (numbered_cases 1 req.test_cases))))
      → ShowsAll ps req answer (run_outcome o)
  unfolding run_outcome run_result summary outcome
  summary-ShowsAll req answer o e =
      let rs = map (judged_case ps req.language answer) (numbered_cases 1 req.test_cases) in
      (
        run_result (summary ps rs),
        (
          ap run_outcome (e ∙ ap (λ l. returns (summary ps l)) (kept_all rs)),
          (
            completed_status _
                (verdict_status-IsVerdict req.language answer (numbered_cases 1 req.test_cases)),
            refl,
          ),
        ),
      )

  -- On a sandbox that runs each command on the text of its input file, a run of a program that is ready to
  -- be run, on testcases whose inputs have at most 3 MiB together, is completed and shows every testcase
  -- in order, with what the program gives for it, failures included.
  pub run_code-ShowsAll :
      {W : Type 0} (sp : SandboxPorts W) (resolve : RequestFile → Text)
      (program : Command → Text → SandboxResult) (req : RunRequest) (cfg : LanguageConfig)
      (id : Text) (w : W) (execute : ExecutionRequest → Outcome ExecutionResult)
      → Serves sp resolve program
      → total_input (numbered_cases 1 req.test_cases) ≤ safe_request_bytes
      → (run_all ps sp (run_execution_request req) cfg id w).0
        ≡ some (execute (run_execution_request req))
      → ShowsAll ps req
          (program_answer program (run_context (run_execution_request req) cfg id))
          (run_code execute req)
  unfolding run_code run_execution_request
  run_code-ShowsAll sp resolve program req cfg id w execute serves fits ran =
      summary-ShowsAll req _ _ (
        some-injective _ _ (
          sym ran
          ∙ run_all_served ps sp resolve program (run_execution_request req) cfg id w serves
              (inr (omega arith))))
