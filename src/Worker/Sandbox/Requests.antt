-- ===== src/Worker/Sandbox/Requests.antt =====
-- go_judge_client.go: the requests that the client sends, with the choice of how the input of each
-- testcase travels. The sandbox's RPC, the testcase cache and the file system are the fields of
-- `SandboxPorts`; each call that changes something takes the world `W` and returns the next one.
use go_judge_system.Prelude.{
  ℕ, ◌+◌, ltb, length, pos, ◌*ℤ◌, Text, text_eq, codes, is_empty, trim_space, Bool, true, false,
  not, ◌&&◌, ◌||◌, Option, none, some, List, [], ◌∷◌, ◌++◌, if◌then◌else◌,
}
use go_judge_system.Worker.Execution.{
  WorkerError, ExecutionLimits, ExecutionTestCase, TestcaseDatasetIdentity,
}
use go_judge_system.Worker.Language.{
  LanguageConfig, RunCmd, get_source_file_name, get_exe_file_name,
}
use go_judge_system.Worker.Diagnostics.{starts_with}
use go_judge_system.Worker.Cache.{Binding}
use go_judge_system.Worker.Sandbox.{
  RequestFile, memory_file, cached_file, local_file, pipe_collector, Command, Response, to_uint64,
  max_int64,
}

-- What a call of `Exec` brings: an error of the context or of the transport, nil, or a response.
pub data Reply : Type 0 where
  canceled : Text → Reply
  transport_failure : Text → Reply
  no_response : Reply
  answers : Response → Reply

-- What `getOrAdd` brings.
pub data CacheAnswer : Type 0 where
  cache_fails : WorkerError → CacheAnswer
  cached : Binding → CacheAnswer
  not_cached : CacheAnswer

-- `clean`, `rel` and `is_abs` are of the package `filepath`; `none` is an error.
pub record SandboxPorts (W : Type 0) : Type 0 where
  pub exec_rpc : List Command → W → Reply × W
  pub get_or_add : Option TestcaseDatasetIdentity → ExecutionTestCase → W → CacheAnswer × W
  pub release : List Binding → W → W
  pub invalidate_missing : List Binding → W → Bool × W
  pub file_delete : Text → W → W
  pub clean : Text → Text
  pub rel : Text → Text → Option Text
  pub is_abs : Text → Bool
  pub eval_symlinks : Text → Option Text

-- What stays the same for all batches of a request.
pub record RunContext : Type 0 where
  pub language : Text
  pub source_code : Text
  pub lang_cfg : LanguageConfig
  pub limits : ExecutionLimits
  pub has_compile : Bool
  pub exe_file_id : Text
  pub dataset : Option TestcaseDatasetIdentity

-- `sandboxGRPCSafeRequestBytes`.
abbrev pub safe_request_bytes : ℕ
safe_request_bytes = 3145728

abbrev pub official_testcase_root : Text
official_testcase_root = codes "/cache/testcases"

unfoldable pub plain_error : Text → WorkerError
plain_error message = record { message = message; non_retryable = false }

-- `MarkNonRetryable`.
unfoldable pub non_retryable_error : Text → WorkerError
non_retryable_error message = record { message = message; non_retryable = true }

abbrev input_too_large_text : Text
input_too_large_text =
    codes
      "official testcase input exceeds the safe sandbox gRPC request budget and has no safe LocalFile path"

unfoldable pub input_too_large : WorkerError
unfolding non_retryable_error
input_too_large = non_retryable_error input_too_large_text

abbrev batch_too_large_text : Text
batch_too_large_text =
    codes
      "official testcase batch exceeds the safe sandbox gRPC request budget and has no safe LocalFile path"

unfoldable pub batch_too_large : WorkerError
unfolding non_retryable_error
batch_too_large = non_retryable_error batch_too_large_text

unfoldable pub compile_command : Text → Text → RunCmd → ExecutionLimits → Command
unfolding max_int64 to_uint64
compile_command language source_code cmd limits =
    let limit_ms = max_int64 limits.time_limit_ms (pos 30000) in
    let memory_kb = max_int64 limits.memory_limit_kb (pos 524288) in
    record {
      args = cmd.command;
      env = cmd.env;
      files =
          memory_file []
          ∷ pipe_collector (codes "stdout") limits.output_limit_bytes
          ∷ pipe_collector (codes "stderr") limits.output_limit_bytes
          ∷ [];
      copy_in = (get_source_file_name language, memory_file source_code) ∷ [];
      copy_out = codes "stdout" ∷ codes "stderr" ∷ [];
      copy_out_cached = get_exe_file_name language ∷ [];
      memory_limit = to_uint64 (memory_kb *ℤ pos 1024);
      cpu_time_limit = to_uint64 (limit_ms *ℤ pos 1000000);
      clock_time_limit = to_uint64 (limit_ms *ℤ pos 1000000 *ℤ pos 2);
      proc_limit = 500;
    }

unfoldable pub run_copy_in : RunContext → List (Text × RequestFile)
run_copy_in rc =
    if rc.has_compile
    then (get_exe_file_name rc.language, cached_file rc.exe_file_id) ∷ []
    else (get_source_file_name rc.language, memory_file rc.source_code) ∷ []

unfoldable pub run_command : RunContext → RequestFile → Command
unfolding to_uint64 run_copy_in
run_command rc stdin = record {
  args = rc.lang_cfg.run.command;
  env = rc.lang_cfg.run.env;
  files =
      stdin
      ∷ pipe_collector (codes "stdout") rc.limits.output_limit_bytes
      ∷ pipe_collector (codes "stderr") rc.limits.output_limit_bytes
      ∷ [];
  copy_in = run_copy_in rc;
  copy_out = codes "stdout" ∷ codes "stderr" ∷ [];
  copy_out_cached = [];
  memory_limit = to_uint64 (rc.limits.memory_limit_kb *ℤ pos 1024);
  cpu_time_limit = to_uint64 (rc.limits.time_limit_ms *ℤ pos 1000000);
  clock_time_limit = to_uint64 (rc.limits.time_limit_ms *ℤ pos 1000000 *ℤ pos 2);
  proc_limit = 50;
}

-- The input of one command, with the bytes of the inputs that are in the request so far and the
-- bindings of the cached ones.
pub data Stdin : Type 0 where
  uses : RequestFile → ℕ → List Binding → Stdin
  rejects : WorkerError → Stdin

pub data Built : Type 0 where
  built : List Command → List Binding → Built
  refused : WorkerError → Built

module _ {W : Type 0} (sp : SandboxPorts W) where
  unfoldable pub contained_rel : Option Text → Bool
  contained_rel none = false
  contained_rel (some rel) =
      not (text_eq rel (codes "."))
      && not (text_eq rel (codes ".."))
      && not (starts_with (codes "../") rel)
      && not (sp.is_abs rel)

  -- `isContainedPath`.
  unfoldable pub is_contained_path : Text → Text → Bool
  unfolding contained_rel
  is_contained_path root path = contained_rel (sp.rel root path)

  unfoldable pub resolved_path : Text → Option Text → Option Text → Option Text
  resolved_path path none target = none
  resolved_path path (some root) none = none
  resolved_path path (some root) (some target) =
      if is_contained_path root target then some path else none

  -- `containedLocalFilePath`.
  unfoldable pub contained_local_file_path : Text → Text → Option Text
  unfolding resolved_path
  contained_local_file_path raw_root candidate =
      let root = sp.clean raw_root in
      let path = sp.clean candidate in
      if is_contained_path root path
      then resolved_path path (sp.eval_symlinks root) (sp.eval_symlinks path)
      else none

  -- `officialSandboxInputPath`.
  unfoldable pub official_sandbox_input_path : ExecutionTestCase → Option Text
  official_sandbox_input_path t =
      if not (text_eq t.kind (codes "official")) || is_empty (trim_space t.sandbox_input_path)
      then none
      else contained_local_file_path official_testcase_root t.sandbox_input_path

  unfoldable pub uncached_stdin : Option Text → ℕ → List Binding → Text → W → Stdin × W
  uncached_stdin (some path) memory bs input w =
      if ltb safe_request_bytes (memory + length input)
      then (uses (local_file path) memory bs, w)
      else (uses (memory_file input) (memory + length input) bs, w)
  uncached_stdin none memory bs input w =
      if ltb safe_request_bytes (memory + length input)
      then (rejects batch_too_large, sp.release bs w)
      else (uses (memory_file input) (memory + length input) bs, w)

  unfoldable pub stdin_after_cache :
      Option Text → ℕ → List Binding → Text → CacheAnswer × W → Stdin × W
  unfolding uncached_stdin
  stdin_after_cache path memory bs input (cache_fails e, w) = (rejects e, sp.release bs w)
  stdin_after_cache path memory bs input (cached b, w) =
      (uses (cached_file b.file_id) memory (bs ++ b ∷ []), w)
  stdin_after_cache path memory bs input (not_cached, w) = uncached_stdin path memory bs input w

  unfoldable pub large_stdin : Option Text → ℕ → List Binding → W → Stdin × W
  large_stdin none memory bs w = (rejects input_too_large, sp.release bs w)
  large_stdin (some path) memory bs w = (uses (local_file path) memory bs, w)

  -- The choice of `stdin` in the loop of `newRunBatchRequest`.
  unfoldable pub choose_stdin : RunContext → ℕ → List Binding → ExecutionTestCase → W → Stdin × W
  unfolding stdin_after_cache large_stdin
  choose_stdin rc memory bs t w =
      let path = official_sandbox_input_path t in
      if ltb safe_request_bytes (length t.stdin)
      then large_stdin path memory bs w
      else stdin_after_cache path memory bs t.stdin (sp.get_or_add rc.dataset t w)

  -- One command is appended, and the loop goes on, or returns.
  unfoldable pub add_command :
      RunContext
      → List Command
      → (List Command → ℕ → List Binding → W → Built × W)
      → Stdin × W
      → Built × W
  add_command rc cmds go_on (rejects e, w) = (refused e, w)
  add_command rc cmds go_on (uses stdin memory bs, w) =
      go_on (cmds ++ run_command rc stdin ∷ []) memory bs w

  -- The loop of `newRunBatchRequest`.
  unfoldable pub build_commands :
      RunContext → List ExecutionTestCase → List Command → ℕ → List Binding → W → Built × W
  unfolding add_command
  build_commands rc [] cmds memory bs w = (built cmds bs, w)
  build_commands rc (t ∷ ts) cmds memory bs w =
      add_command rc cmds (build_commands rc ts) (choose_stdin rc memory bs t w)

  -- `newRunBatchRequest`.
  unfoldable pub new_run_batch_request : RunContext → List ExecutionTestCase → W → Built × W
  unfolding build_commands
  new_run_batch_request rc ts w = build_commands rc ts [] 0 [] w
