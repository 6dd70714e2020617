-- ===== src/Worker/SandboxExamples.antt =====
-- The judge's sandbox and the run of a program at concrete inputs. The program
-- prints its input.
use go_judge_system.Prelude.{
  ℕ, ◌≤◌, replicate, ◌++◌, arith, pos, Text, codes, is_empty, is_positive, trim_space, true, false,
  ◌≡◌, refl, ap, sym, subst, inl, inr, Option, none, some, List, [], ◌∷◌, map,
}
use go_judge_system.Submission.Entity.{JobMessage}
use go_judge_system.Worker.Execution.{
  WorkerError, Outcome, returns, fails, ProblemTestCaseMetadata, ExecutionTestCase, ExecutionLimits,
  ExecutionRequest, ExecutionResult, RunRequest,
}
use go_judge_system.Worker.Language.{LanguageConfig}
use go_judge_system.Worker.Diagnostics.{Patterns}
use go_judge_system.Worker.Job.{Ports, process_judge_job}
use go_judge_system.Submission.Apply.{is_sha256_hex}
use go_judge_system.Worker.Loader.{Disk}
use go_judge_system.Worker.Loader.Archive.{
  Download, bad_request, download_fails, downloads, LoaderPorts,
}
use go_judge_system.Worker.Loader.Load.{load}
use go_judge_system.Worker.Loader.Laws.{IsComplete, load-IsComplete}
use go_judge_system.Worker.RunCode.{numbered_cases, run_execution_request, run_code}
use go_judge_system.Worker.RunCode.Laws.{ShowsAll, run_code-ShowsAll}
use go_judge_system.Worker.Cache.{Key, Binding}
use go_judge_system.Worker.Cache.Names.RoundTrip.{cache_key}
use go_judge_system.Worker.Sandbox.{
  RequestFile, memory_file, cached_file, local_file, pipe_collector, Command, JudgeStatus,
  SandboxResult,
}
use go_judge_system.Worker.Sandbox.Requests.{
  answers, CacheAnswer, cache_fails, cached, not_cached, SandboxPorts, safe_request_bytes,
  new_run_batch_request,
}
use go_judge_system.Worker.Sandbox.Execute.{effective_limits, run_context, run_all, execute}
use go_judge_system.Worker.Sandbox.Limits.{
  AllFit, effective_limits_hold, IsSafe, new_run_batch_request-IsSafe,
}
use go_judge_system.Worker.Sandbox.Loop.{kept, summary}
use go_judge_system.Worker.Sandbox.Batches.{judged_case}
use go_judge_system.Worker.Sandbox.Termination.{IsEnded, run_all-IsEnded, execute-IsEnded}
use go_judge_system.Worker.Sandbox.Transport.{Serves, served_command, total_input}
use go_judge_system.Worker.Sandbox.Carried.{program_answer}
use go_judge_system.Worker.Sandbox.Served.{RunsUncached, run_all-summary}
use go_judge_system.Worker.Sandbox.Verdicts.{IsEndSound}
use go_judge_system.Worker.Sandbox.Outcomes.{execute-IsEndSound}
use go_judge_system.Worker.Sandbox.Published.{IsSentChecked, process_judge_job-IsSentChecked}

abbrev patterns : Patterns
patterns = record {
  compile_matches = λ n s. [];
  runtime_frame = λ n s. none;
  sanitize = λ s. s;
  to_upper = λ s. s;
}

abbrev key : Key
key = cache_key 7 1 (codes "d") (codes "t1") (codes "i")

abbrev held : RequestFile → Text
held (memory_file s) = s
held (cached_file id) = id
held (local_file path) = path
held (pipe_collector n limit) = []

abbrev echo : Command → Text → SandboxResult
echo c input = record {
  status = JudgeStatus.accepted;
  exit_status = pos 0;
  error = [];
  time = 2500000;
  memory = 4096;
  files = (codes "stdout", input) ∷ [];
  file_ids = [];
  file_errors = [];
}

abbrev Nothing : Type 0
Nothing = Unit {0}

-- A file of this sandbox has its content for an id.
abbrev sandbox : SandboxPorts Nothing
sandbox = record {
  exec_rpc =
      λ cmds w. (answers (record { error = []; results = map (served_command held echo) cmds }), w);
  get_or_add = λ dataset t w. (cached (record { key = key; file_id = t.stdin }), w);
  release = λ bs w. w;
  invalidate_missing = λ bs w. (false, w);
  file_delete = λ id w. w;
  clean = λ path. path;
  rel = λ root path. none;
  is_abs = λ path. false;
  eval_symlinks = λ path. none;
}

answer_id : CacheAnswer → Text
answer_id (cached b) = b.file_id
answer_id (cache_fails e) = []
answer_id not_cached = []

hit_ne_failure : (b : Binding) (e : WorkerError) → ¬ (cached b ≡ cache_fails e)
hit_ne_failure b e h = cc

hit-eq_stdin :
    (t : ExecutionTestCase) (b : Binding)
    → cached (record { key = key; file_id = t.stdin }) ≡ cached b
    → b.file_id ≡ t.stdin
unfolding answer_id
hit-eq_stdin t b e = sym (ap answer_id e)

serves : Serves sandbox held echo
serves = record {
  exec_serves = λ cmds w. refl;
  memory_resolves = λ s. refl;
  cache_resolves = λ dataset t w b e. hit-eq_stdin t b e;
  cache_answers = λ dataset t w e h. hit_ne_failure _ e h;
}

abbrev no_limits : ExecutionLimits
no_limits = record { time_limit_ms = pos 0; memory_limit_kb = pos 0; output_limit_bytes = pos 0 }

abbrev tests : List ExecutionTestCase
tests =
    record {
      index = pos 1;
      id = codes "t1";
      kind = codes "official";
      stdin = codes "4";
      sandbox_input_path = [];
      expected_output = some (codes "4");
    }
    ∷ record {
      index = pos 2;
      id = codes "t2";
      kind = codes "official";
      stdin = codes "5";
      sandbox_input_path = [];
      expected_output = some (codes "6");
    }
    ∷ []

abbrev request : ExecutionRequest
request = record {
  language = codes "PYTHON";
  source_code = codes "print(input())";
  test_cases = tests;
  limits = no_limits;
  stop_on_first_failure = true;
  testcase_dataset = none;
}

abbrev python : LanguageConfig
python = record { compile = none; run = record { command = codes "python3" ∷ []; env = [] } }

execute-IsEnded_example : IsEnded (execute patterns sandbox request tt).0
execute-IsEnded_example = execute-IsEnded patterns sandbox request tt

execute-IsEndSound_example : IsEndSound (execute patterns sandbox request tt).0
execute-IsEndSound_example = execute-IsEndSound patterns sandbox request tt (refl, (refl, tt))

-- The same sandbox without a cache.
abbrev uncached_sandbox : SandboxPorts Nothing
uncached_sandbox = record sandbox { get_or_add = λ dataset t w. (not_cached, w) }

runs_uncached : RunsUncached uncached_sandbox held echo
runs_uncached = record {
  exec_serves = λ cmds w. refl;
  memory_resolves = λ s. refl;
  uncached = λ dataset t w. refl;
}

run_all-summary_example :
    (run_all patterns uncached_sandbox request python [] tt).0
    ≡ some (
        returns (
          summary patterns (
            kept true (
              map
                (judged_case patterns
                  (codes "PYTHON")
                  (program_answer echo (run_context request python [])))
                tests))))
run_all-summary_example =
    run_all-summary patterns uncached_sandbox held echo request python [] tt runs_uncached
      (inr (omega arith))

effective_limits_hold_example :
    (is_positive (effective_limits request).time_limit_ms ≡ true)
    × ((is_positive (effective_limits request).memory_limit_kb ≡ true)
        × ((is_positive (effective_limits request).output_limit_bytes ≡ true)
            × AllFit (effective_limits request).output_limit_bytes tests))
effective_limits_hold_example = effective_limits_hold request

new_run_batch_request-IsSafe_example :
    IsSafe (new_run_batch_request sandbox (run_context request python []) tests tt).0
new_run_batch_request-IsSafe_example =
    new_run_batch_request-IsSafe sandbox (run_context request python []) tests tt

settled : Option (Outcome ExecutionResult) → Outcome ExecutionResult
settled none = fails (record { message = []; non_retryable = false })
settled (some o) = o

ended-eq_settled : (o : Option (Outcome ExecutionResult)) → IsEnded o → o ≡ some (settled o)
unfolding IsEnded settled
ended-eq_settled none h = elim h [ ]
ended-eq_settled (some o) h = refl

-- A disk with the testcases in every directory, and no cached version of them.
abbrev disk : Disk
disk = record {
  read_dir = λ dir. inl (
      record { name = codes "1.in"; is_dir = false }
      ∷ record { name = codes "1.out"; is_dir = false }
      ∷ []);
  read_file = λ path. inl (codes "4");
  join = λ dir file. dir ++ codes "/" ++ file;
}

abbrev digest : Text
digest = replicate 64 b'a'

abbrev loader : LoaderPorts Nothing
loader = record {
  disk = λ w. disk;
  sha256_file = λ path w. inr (codes "none");
  fetch = λ url dest limit w. (downloads 200 100 digest, w);
  open_zip = λ path w. inl (
      record { name = codes "1.in"; is_dir = false; is_symlink = false; uncompressed_size = 1 }
      ∷ record { name = codes "1.out"; is_dir = false; is_symlink = false; uncompressed_size = 1 }
      ∷ []);
  write_entry = λ path e w. (none, w);
  mkdir_all = λ path w. (none, w);
  copy_file = λ src dest w. (none, w);
  write_file = λ path data_text w. (none, w);
  remove_all = λ path w. (none, w);
  remove = λ path w. (none, w);
  rename = λ src dest w. (none, w);
  clean = λ path. path;
  is_abs = λ path. false;
  base = λ path. path;
  zip_path = λ m. codes "/tmp/tc.zip";
  tmp_dir = λ dir. dir ++ codes "_tmp";
}

checksum_of : Download → Text
checksum_of (bad_request e) = []
checksum_of (download_fails e) = []
checksum_of (downloads status size checksum) = checksum

digest_hex : is_sha256_hex digest ≡ true
unfolding is_sha256_hex
digest_hex = refl

hashes :
    (url dest : Text) (limit : ℕ) (w : Nothing) (status size : ℕ) (checksum : Text)
    → (loader.fetch url dest limit w).0 ≡ downloads status size checksum
    → is_sha256_hex checksum ≡ true
unfolding checksum_of
hashes url dest limit w status size checksum e =
    subst (λ s. is_sha256_hex s ≡ true) (ap checksum_of e) digest_hex

abbrev metadata : ProblemTestCaseMetadata
metadata = record {
  problem_id = pos 7;
  zip_download_url = codes "http://problems/7.zip";
  test_count = pos 1;
  version = pos 3;
}

load-IsComplete_example : IsComplete metadata (load loader metadata tt).0
load-IsComplete_example = load-IsComplete loader hashes metadata tt

abbrev ports : Ports
ports = record {
  get_test_case_metadata = λ id. returns (record metadata { problem_id = id });
  load = λ m. (load loader m tt).0;
  execute = λ req. settled (execute patterns sandbox req tt).0;
  send_error = λ m. none;
}

abbrev job : JobMessage
job = record {
  submission_id = pos 1;
  attempt_id = codes "a1";
  problem_id = pos 7;
  problem_slug = codes "sum";
  user_id = codes "u1";
  enqueued_at = 0;
  language = codes "PYTHON";
  source_code = codes "print(input())";
}

attempt_named : is_empty (trim_space (codes "a1")) ≡ false
unfolding trim_space
attempt_named = refl

loads : (m : ProblemTestCaseMetadata) → (w : Nothing) × ((load loader m w).0 ≡ ports.load m)
loads m = (tt, refl)

executes :
    (req : ExecutionRequest)
    → (w : Nothing) × ((execute patterns sandbox req w).0 ≡ some (ports.execute req))
executes req = (tt, ended-eq_settled _ (execute-IsEnded patterns sandbox req tt))

process_judge_job-IsSentChecked_example : IsSentChecked (process_judge_job ports job).sent
process_judge_job-IsSentChecked_example =
    process_judge_job-IsSentChecked patterns sandbox ports job refl attempt_named executes loader
      hashes loads

abbrev run_request : RunRequest
run_request = record {
  language = codes "PYTHON";
  source_code = codes "print(input())";
  test_cases =
      record { id = codes "c1"; kind = codes "custom"; stdin = codes "4"; expected_output = none }
      ∷ record {
        id = codes "c2";
        kind = codes "sample";
        stdin = codes "5";
        expected_output = some (codes "6");
      }
      ∷ [];
  limits = no_limits;
}

abbrev run_execute : ExecutionRequest → Outcome ExecutionResult
run_execute req = settled (run_all patterns sandbox req python [] tt).0

run_all_settled :
    (run_all patterns sandbox (run_execution_request run_request) python [] tt).0
    ≡ some (run_execute (run_execution_request run_request))
run_all_settled = ended-eq_settled _ (run_all-IsEnded patterns sandbox _ python [] tt)

run_inputs_fit : total_input (numbered_cases 1 run_request.test_cases) ≤ safe_request_bytes
unfolding numbered_cases
run_inputs_fit = omega arith

run_code-ShowsAll_example :
    ShowsAll patterns run_request
      (program_answer echo (run_context (run_execution_request run_request) python []))
      (run_code run_execute run_request)
run_code-ShowsAll_example =
    run_code-ShowsAll patterns sandbox held echo run_request python [] tt run_execute serves
      run_inputs_fit run_all_settled
