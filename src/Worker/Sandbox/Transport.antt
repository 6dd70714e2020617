-- ===== src/Worker/Sandbox/Transport.antt =====
-- How the inputs travel to the sandbox does not show in the result: not the batches, nor the cache, nor
-- the choice between the bytes themselves and a file of the shared volume.
use go_judge_system.Prelude.{
  ℕ, ◌+◌, ◌≤◌, ltb, length, drop, Text, true, if_cases, if_either, ◌≡◌, ap, ◌∙◌, ◌⊎◌, inl, inr,
  Option, none, some, List, [], ◌∷◌, map, arith,
}
use mathlib.Core.Option.{some-injective}
use go_judge_system.Worker.Execution.{ExecutionTestCase, TestcaseDatasetIdentity, WorkerError}
use go_judge_system.Worker.Cache.{Binding}
use go_judge_system.Worker.Sandbox.{
  RequestFile, memory_file, cached_file, local_file, Command, SandboxResult,
}
use go_judge_system.Worker.Sandbox.Requests.{
  answers, cache_fails, cached, SandboxPorts, safe_request_bytes, Stdin, uses, rejects,
  official_sandbox_input_path, uncached_stdin, large_stdin,
}

-- The command without its input.
unfoldable pub without_stdin : Command → Command
without_stdin c = record c { files = drop 1 c.files }

unfoldable pub stdin_text : (RequestFile → Text) → List RequestFile → Text
stdin_text resolve [] = []
stdin_text resolve (f ∷ fs) = resolve f

unfoldable pub served_command :
    (RequestFile → Text) → (Command → Text → SandboxResult) → Command → Option SandboxResult
unfolding without_stdin stdin_text
served_command resolve program c = some (program (without_stdin c) (stdin_text resolve c.files))

-- A sandbox that runs every command on the text that its input file holds, as a program of the command
-- and of that text. A file of the sandbox keeps its content, and the cache gives out files that hold the
-- testcase's input; the cache fails only where the job's context has ended.
pub record Serves {W : Type 0} (sp : SandboxPorts W) (resolve : RequestFile → Text)
    (program : Command → Text → SandboxResult) : Type 0 where
  pub exec_serves :
      (cmds : List Command) (w : W)
      → (sp.exec_rpc cmds w).0
        ≡ answers (record { error = []; results = map (served_command resolve program) cmds })
  pub memory_resolves : (s : Text) → resolve (memory_file s) ≡ s
  pub cache_resolves :
      (dataset : Option TestcaseDatasetIdentity) (t : ExecutionTestCase) (w : W) (b : Binding)
      → (sp.get_or_add dataset t w).0 ≡ cached b
      → resolve (cached_file b.file_id) ≡ t.stdin
  pub cache_answers :
      (dataset : Option TestcaseDatasetIdentity) (t : ExecutionTestCase) (w : W) (e : WorkerError)
      → ¬ ((sp.get_or_add dataset t w).0 ≡ cache_fails e)

abbrev pub total_input : List ExecutionTestCase → ℕ
total_input [] = 0
total_input (t ∷ ts) = length t.stdin + total_input ts

module _ {W : Type 0} (sp : SandboxPorts W) (resolve : RequestFile → Text) where
  -- The path is that of a file that holds the input.
  abbrev pub Holds : Option Text → Text → Type 0
  Holds path input = (p : Text) × ((path ≡ some p) × (resolve (local_file p) ≡ input))

  abbrev pub AllLocal : List ExecutionTestCase → Type 0
  AllLocal [] = Unit {0}
  AllLocal (t ∷ ts) = Holds (official_sandbox_input_path sp t) t.stdin × AllLocal ts

  -- The inputs can be carried, with so many bytes in the request already: each of them has a file of the
  -- shared volume, or they all fit together.
  abbrev pub IsCarried : ℕ → List ExecutionTestCase → Type 0
  IsCarried memory ts = AllLocal ts ⊎ (memory + total_input ts ≤ safe_request_bytes)

  unfoldable pub IsReady : Option Text → ℕ → ExecutionTestCase → List ExecutionTestCase → Type 0
  IsReady path memory t ts =
      (Holds path t.stdin × AllLocal ts)
      ⊎ (memory + (length t.stdin + total_input ts) ≤ safe_request_bytes)

  unfoldable pub IsChosen : ExecutionTestCase → List ExecutionTestCase → Stdin → Type 0
  IsChosen t ts (rejects e) = ⊥
  IsChosen t ts (uses f memory bs) = (resolve f ≡ t.stdin) × IsCarried memory ts

  local_text : (q : Text) (input : Text) → Holds (some q) input → resolve (local_file q) ≡ input
  local_text q input (p, (e, r)) = ap (λ x. resolve (local_file x)) (some-injective _ _ e) ∙ r

  no_local : (input : Text) → ¬ Holds none input
  no_local input (p, (e, r)) = cc

  module _ (memory_resolves : (s : Text) → resolve (memory_file s) ≡ s) where
    pub large_stdin-IsChosen :
        (path : Option Text) (memory : ℕ) (bs : List Binding) (t : ExecutionTestCase)
        (ts : List ExecutionTestCase) (w : W)
        → ltb safe_request_bytes (length t.stdin) ≡ true
        → IsReady path memory t ts
        → IsChosen t ts (large_stdin sp path memory bs w).0
    unfolding large_stdin IsChosen IsReady
    large_stdin-IsChosen none memory bs t ts w big (inl (h, l)) = no_local _ h
    large_stdin-IsChosen none memory bs t ts w big (inr le) = ground arith
    large_stdin-IsChosen (some q) memory bs t ts w big (inl (h, l)) = (local_text q _ h, inl l)
    large_stdin-IsChosen (some q) memory bs t ts w big (inr le) = ground arith

    pub uncached_stdin-IsChosen :
        (path : Option Text) (memory : ℕ) (bs : List Binding) (t : ExecutionTestCase)
        (ts : List ExecutionTestCase) (w : W)
        → IsReady path memory t ts
        → IsChosen t ts (uncached_stdin sp path memory bs t.stdin w).0
    unfolding uncached_stdin IsChosen IsReady
    uncached_stdin-IsChosen none memory bs t ts w (inl (h, l)) = elim (no_local _ h) [ ]
    uncached_stdin-IsChosen none memory bs t ts w (inr le) =
        if_cases (ltb safe_request_bytes (memory + length t.stdin))
          (λ (s : Stdin × W). IsChosen t ts s.0) (λ big. ground arith)
          (λ small. (memory_resolves t.stdin, inr (omega arith)))
    uncached_stdin-IsChosen (some q) memory bs t ts w (inl (h, l)) =
        if_either (ltb safe_request_bytes (memory + length t.stdin))
          (λ (s : Stdin × W). IsChosen t ts s.0) (local_text q _ h, inl l)
          (memory_resolves t.stdin, inl l)
    uncached_stdin-IsChosen (some q) memory bs t ts w (inr le) =
        if_cases (ltb safe_request_bytes (memory + length t.stdin))
          (λ (s : Stdin × W). IsChosen t ts s.0) (λ big. ground arith)
          (λ small. (memory_resolves t.stdin, inr (omega arith)))
