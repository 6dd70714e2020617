-- ===== src/Worker/Sandbox/Limits.antt =====
-- The bounds that the client keeps: on the limits of a request, and on the inputs that it carries.
use go_judge_system.Prelude.{
  ℕ, zero, suc, ◌+◌, ◌≤◌, ltb, length, ℤ, pos, negsuc, is_positive, ◌≤ℤ◌, Text, true, ◌≡◌, refl,
  subst, if_either, Option, none, some, List, [], ◌∷◌, ◌++◌, arith,
}
use mathlib.Core.Option.{some-injective}
use go_judge_system.Worker.Execution.{ExecutionTestCase, ExecutionRequest}
use go_judge_system.Worker.Cache.{Binding}
use go_judge_system.Worker.Sandbox.{
  RequestFile, memory_file, cached_file, local_file, pipe_collector, Command, or_default,
  normalize_limits, expected_output_headroom_bytes, expected_size, required_output,
  ensure_output_limit_for_expected,
}
use go_judge_system.Worker.Sandbox.Requests.{
  CacheAnswer, cache_fails, cached, not_cached, SandboxPorts, RunContext, safe_request_bytes,
  run_command, Stdin, uses, rejects, Built, built, refused, official_sandbox_input_path,
  uncached_stdin, stdin_after_cache, large_stdin, choose_stdin, add_command, build_commands,
  new_run_batch_request,
}
use go_judge_system.Worker.Sandbox.Execute.{effective_limits}

-- Every expected output fits, with the headroom.
abbrev pub AllFit : ℤ → List ExecutionTestCase → Type 0
AllFit limit [] = Unit {0}
AllFit limit (t ∷ ts) =
    ((expected : Text)
      → t.expected_output ≡ some expected
      → pos (length expected + expected_output_headroom_bytes) ≤ℤ limit)
    × AllFit limit ts

expected_size_le : (o : Option Text) (required : ℤ) → required ≤ℤ expected_size o required
unfolding expected_size
expected_size_le none required = omega arith
expected_size_le (some expected) required = ground arith

required_output_le : (ts : List ExecutionTestCase) (r : ℤ) → r ≤ℤ required_output r ts
unfolding required_output
required_output_le [] r = omega arith
required_output_le (t ∷ ts) r = omega (
  arith,
  expected_size_le t.expected_output r,
  required_output_le ts (expected_size t.expected_output r),
)

expected_size-fits :
    (o : Option Text) (r : ℤ) (expected : Text)
    → o ≡ some expected
    → pos (length expected + expected_output_headroom_bytes) ≤ℤ expected_size o r
unfolding expected_size
expected_size-fits none r expected e = cc
expected_size-fits (some s) r expected e =
    subst
      (λ (x : Text). pos (length x + expected_output_headroom_bytes) ≤ℤ expected_size (some s) r)
      (some-injective _ _ e) (ground arith)

pub required_output-AllFit :
    (ts : List ExecutionTestCase) (r : ℤ) (limit : ℤ)
    → required_output r ts ≤ℤ limit
    → AllFit limit ts
unfolding required_output
required_output-AllFit [] r limit h = tt
required_output-AllFit (t ∷ ts) r limit h = (
  λ expected e. omega (
    arith,
    expected_size-fits t.expected_output r expected e,
    required_output_le ts (expected_size t.expected_output r),
  ),
  required_output-AllFit ts _ limit h,
)

own_output-AllFit : (ts : List ExecutionTestCase) (r : ℤ) → AllFit (required_output r ts) ts
own_output-AllFit ts r = required_output-AllFit ts r (required_output r ts) (omega arith)

or_default-positive : (v : ℤ) (n : ℕ) → is_positive (or_default v (pos (suc n))) ≡ true
unfolding or_default
or_default-positive (pos zero) n = refl
or_default-positive (pos (suc m)) n = refl
or_default-positive (negsuc m) n = refl

positive_le : (a b : ℤ) → is_positive a ≡ true → a ≤ℤ b → is_positive b ≡ true
positive_le (pos zero) b h le = cc
positive_le (pos (suc m)) (pos zero) h le = absurd (omega arith)
positive_le (pos (suc m)) (pos (suc k)) h le = refl
positive_le (pos (suc m)) (negsuc k) h le = absurd (omega arith)
positive_le (negsuc m) b h le = cc

-- The limits that a request is run with: all three are positive, whatever the request asks for, and
-- the output of a program may be as long as the expected output of any testcase and 64 KiB more.
pub effective_limits_hold :
    (req : ExecutionRequest)
    → (is_positive (effective_limits req).time_limit_ms ≡ true)
      × ((is_positive (effective_limits req).memory_limit_kb ≡ true)
          × ((is_positive (effective_limits req).output_limit_bytes ≡ true)
              × AllFit (effective_limits req).output_limit_bytes req.test_cases))
unfolding effective_limits ensure_output_limit_for_expected normalize_limits
effective_limits_hold req = (
  or_default-positive _ _,
  (
    or_default-positive _ _,
    (
      positive_le _ _ (or_default-positive _ _) (required_output_le req.test_cases _),
      own_output-AllFit req.test_cases _,
    ),
  ),
)

file_bytes : RequestFile → ℕ
file_bytes (memory_file s) = length s
file_bytes (cached_file id) = 0
file_bytes (local_file path) = 0
file_bytes (pipe_collector name max) = 0

files_bytes : List RequestFile → ℕ
unfolding file_bytes
files_bytes [] = 0
files_bytes (f ∷ fs) = file_bytes f + files_bytes fs

-- The bytes of the inputs that a request carries itself.
pub request_bytes : List Command → ℕ
unfolding files_bytes
request_bytes [] = 0
request_bytes (c ∷ cs) = files_bytes c.files + request_bytes cs

request_bytes-append :
    (cs ds : List Command) → request_bytes (cs ++ ds) ≡ request_bytes cs + request_bytes ds
unfolding request_bytes
request_bytes-append [] ds = omega arith
request_bytes-append (c ∷ cs) ds = omega (arith, request_bytes-append cs ds)

IsWithin : ℕ → Stdin → Type 0
IsWithin memory (rejects e) = Unit
IsWithin memory (uses f total bs) = (total ≡ memory + file_bytes f) × (total ≤ safe_request_bytes)

abbrev pub IsSafe : Built → Type 0
IsSafe (refused e) = Unit {0}
IsSafe (built cs bs) = request_bytes cs ≤ safe_request_bytes

module _ {W : Type 0} (sp : SandboxPorts W) (rc : RunContext) where
  uncached_stdin-IsWithin :
      (path : Option Text) (memory : ℕ) (bs : List Binding) (input : Text) (w : W)
      → memory ≤ safe_request_bytes
      → IsWithin memory (uncached_stdin sp path memory bs input w).0
  unfolding uncached_stdin IsWithin file_bytes
  uncached_stdin-IsWithin (some p) memory bs input w h = ground arith
  uncached_stdin-IsWithin none memory bs input w h = ground arith

  stdin_after_cache-IsWithin :
      (path : Option Text) (memory : ℕ) (bs : List Binding) (input : Text) (a : CacheAnswer × W)
      → memory ≤ safe_request_bytes
      → IsWithin memory (stdin_after_cache sp path memory bs input a).0
  unfolding stdin_after_cache IsWithin file_bytes
  stdin_after_cache-IsWithin path memory bs input (cache_fails e, w) h = tt
  stdin_after_cache-IsWithin path memory bs input (cached b, w) h = (omega arith, h)
  stdin_after_cache-IsWithin path memory bs input (not_cached, w) h =
      uncached_stdin-IsWithin path memory bs input w h

  large_stdin-IsWithin :
      (path : Option Text) (memory : ℕ) (bs : List Binding) (w : W)
      → memory ≤ safe_request_bytes
      → IsWithin memory (large_stdin sp path memory bs w).0
  unfolding large_stdin IsWithin file_bytes
  large_stdin-IsWithin none memory bs w h = tt
  large_stdin-IsWithin (some p) memory bs w h = (omega arith, h)

  choose_stdin-IsWithin :
      (memory : ℕ) (bs : List Binding) (t : ExecutionTestCase) (w : W)
      → memory ≤ safe_request_bytes
      → IsWithin memory (choose_stdin sp rc memory bs t w).0
  unfolding choose_stdin
  choose_stdin-IsWithin memory bs t w h =
      let path = official_sandbox_input_path sp t in
      if_either {x = large_stdin sp path memory bs w}
        {y = stdin_after_cache sp path memory bs t.stdin (sp.get_or_add rc.dataset t w)}
        (ltb safe_request_bytes (length t.stdin)) (λ (s : Stdin × W). IsWithin memory s.0)
        (large_stdin-IsWithin path memory bs w h)
        (stdin_after_cache-IsWithin path memory bs t.stdin (sp.get_or_add rc.dataset t w) h)

  command_bytes :
      (cmds : List Command) (f : RequestFile)
      → request_bytes (cmds ++ run_command rc f ∷ []) ≡ request_bytes cmds + file_bytes f
  unfolding run_command files_bytes request_bytes file_bytes
  command_bytes cmds f = omega (arith, request_bytes-append cmds (run_command rc f ∷ []))

  add_command-IsSafe :
      (cmds : List Command) (go_on : List Command → ℕ → List Binding → W → Built × W) (memory : ℕ)
      (s : Stdin × W)
      → ((cs : List Command) (total : ℕ) (bs : List Binding) (w : W)
          → request_bytes cs ≡ total
          → total ≤ safe_request_bytes
          → IsSafe (go_on cs total bs w).0)
      → request_bytes cmds ≡ memory
      → IsWithin memory s.0
      → IsSafe (add_command sp rc cmds go_on s).0
  unfolding add_command IsWithin
  add_command-IsSafe cmds go_on memory (rejects e, w) rest p h = tt
  add_command-IsSafe cmds go_on memory (uses f total bs, w) rest p (q, le) =
      rest _ total bs w (omega (arith, p, q, command_bytes cmds f)) le

  build_commands-IsSafe :
      (ts : List ExecutionTestCase) (cmds : List Command) (memory : ℕ) (bs : List Binding) (w : W)
      → request_bytes cmds ≡ memory
      → memory ≤ safe_request_bytes
      → IsSafe (build_commands sp rc ts cmds memory bs w).0
  unfolding build_commands
  build_commands-IsSafe [] cmds memory bs w p h = omega (arith, p, h)
  build_commands-IsSafe (t ∷ ts) cmds memory bs w p h =
      add_command-IsSafe cmds (build_commands sp rc ts) memory _ (build_commands-IsSafe ts) p
        (choose_stdin-IsWithin memory bs t w h)

  -- The inputs that a request for a batch carries itself are never more than 3 MiB together, whatever
  -- the testcases are and whatever the cache answers.
  pub new_run_batch_request-IsSafe :
      (ts : List ExecutionTestCase) (w : W) → IsSafe (new_run_batch_request sp rc ts w).0
  unfolding new_run_batch_request request_bytes
  new_run_batch_request-IsSafe ts w = build_commands-IsSafe ts [] 0 [] w refl (omega arith)
