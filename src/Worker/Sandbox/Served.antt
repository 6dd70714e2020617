-- ===== src/Worker/Sandbox/Served.antt =====
-- What a request returns where the cache is switched off.
use go_judge_system.Prelude.{Text, ◌≡◌, Option, some, List, [], map}
use go_judge_system.Worker.Execution.{
  TestcaseDatasetIdentity, returns, ExecutionTestCase, ExecutionRequest, WorkerError,
}
use go_judge_system.Worker.Language.{LanguageConfig}
use go_judge_system.Worker.Diagnostics.{Patterns}
use go_judge_system.Worker.Cache.{Binding}
use go_judge_system.Worker.Sandbox.{RequestFile, memory_file, Command, SandboxResult}
use go_judge_system.Worker.Sandbox.Requests.{
  answers, CacheAnswer, cache_fails, cached, not_cached, SandboxPorts,
}
use go_judge_system.Worker.Sandbox.Batches.{judged_case}
use go_judge_system.Worker.Sandbox.Transport.{served_command, Serves, IsCarried}
use go_judge_system.Worker.Sandbox.Execute.{run_context, run_all}
use go_judge_system.Worker.Sandbox.Loop.{kept, summary}
use go_judge_system.Worker.Sandbox.Carried.{program_answer, run_all_served}

-- A sandbox that runs every command on the text that its input file holds, as a program of the command and of
-- that text, and a cache that is switched off.
pub record RunsUncached {W : Type 0} (sp : SandboxPorts W) (resolve : RequestFile → Text)
    (program : Command → Text → SandboxResult) : Type 0 where
  pub exec_serves :
      (cmds : List Command) (w : W)
      → (sp.exec_rpc cmds w).0
        ≡ answers (record { error = []; results = map (served_command resolve program) cmds })
  pub memory_resolves : (s : Text) → resolve (memory_file s) ≡ s
  pub uncached :
      (dataset : Option TestcaseDatasetIdentity) (t : ExecutionTestCase) (w : W)
      → (sp.get_or_add dataset t w).0 ≡ not_cached

not_cached_hit : (a : CacheAnswer) (b : Binding) → a ≡ not_cached → ¬ (a ≡ cached b)
not_cached_hit a b e h = cc

not_cached_failure : (a : CacheAnswer) (x : WorkerError) → a ≡ not_cached → ¬ (a ≡ cache_fails x)
not_cached_failure a x e h = cc

RunsUncached-Serves :
    {W : Type 0} (sp : SandboxPorts W) (resolve : RequestFile → Text)
    (program : Command → Text → SandboxResult)
    → RunsUncached sp resolve program
    → Serves sp resolve program
RunsUncached-Serves sp resolve program runs = record {
  exec_serves = runs.exec_serves;
  memory_resolves = runs.memory_resolves;
  cache_resolves = λ dataset t w b h. absurd (not_cached_hit _ b (runs.uncached dataset t w) h);
  cache_answers = λ dataset t w e h. not_cached_failure _ e (runs.uncached dataset t w) h;
}

-- With the cache switched off, on a sandbox that runs each command on the text of its input file, a request
-- whose inputs can be carried returns the summary of what the program gives for its testcases: in their
-- order, and up to the first failure, that one included, where the request stops there. Neither the
-- batches nor the files of the shared volume leave a trace in it.
pub run_all-summary :
    (ps : Patterns) {W : Type 0} (sp : SandboxPorts W) (resolve : RequestFile → Text)
    (program : Command → Text → SandboxResult) (req : ExecutionRequest) (cfg : LanguageConfig)
    (id : Text) (w : W)
    → RunsUncached sp resolve program
    → IsCarried sp resolve 0 req.test_cases
    → (run_all ps sp req cfg id w).0
      ≡ some (
          returns (
            summary ps (
              kept req.stop_on_first_failure (
                map
                  (judged_case ps req.language (program_answer program (run_context req cfg id)))
                  req.test_cases))))
run_all-summary ps sp resolve program req cfg id w runs c =
    run_all_served ps sp resolve program req cfg id w (RunsUncached-Serves sp resolve program runs)
      c
