-- ===== src/Worker/Sandbox/Carried.antt =====
-- What the batches of a request give on a sandbox that serves its commands.
use go_judge_system.Prelude.{
  ℕ, zero, suc, ◌≤◌, ltb, length, take, drop, Text, codes, Bool, true, false, if_cases, if_either,
  ◌≡◌, refl, ap, sym, ◌∙◌, inl, inr, Option, some, List, [], ◌∷◌, ◌++◌, map, map-append, arith,
}
use mathlib.Core.List.{append-nil, append_assoc}
use go_judge_system.Worker.Execution.{
  Outcome, returns, fails, ExecutionTestCase, ExecutionRequest, WorkerError,
}
use go_judge_system.Worker.Language.{LanguageConfig}
use go_judge_system.Worker.Diagnostics.{Patterns}
use go_judge_system.Worker.Cache.{Binding}
use go_judge_system.Worker.Sandbox.{RequestFile, memory_file, cached_file, Command, SandboxResult}
use go_judge_system.Worker.Sandbox.Requests.{
  CacheAnswer, cache_fails, cached, not_cached, SandboxPorts, RunContext, safe_request_bytes,
  run_command, Stdin, uses, rejects, Built, built, refused, official_sandbox_input_path,
  stdin_after_cache, large_stdin, choose_stdin, add_command, build_commands, new_run_batch_request,
}
use go_judge_system.Worker.Sandbox.Batches.{judged_case, answered_case, run_batches_joined}
use go_judge_system.Worker.Sandbox.Transport.{
  without_stdin, stdin_text, served_command, Serves, total_input, AllLocal, IsCarried, IsReady,
  IsChosen, large_stdin-IsChosen, uncached_stdin-IsChosen,
}
use go_judge_system.Worker.Sandbox.Answers.{exec_outcome, has_file_errors, fresh_result}
use go_judge_system.Worker.Sandbox.Execute.{
  executed, batch_results, run_once, retry_batch, after_run, run_batch, run_context, run_all,
}
use go_judge_system.Worker.Sandbox.Loop.{
  kept, summary, outcome, verdict_status, verdict_message, first_failure, longest, largest,
  add_results-summary,
}

-- What the program gives for a testcase.
unfoldable pub program_answer :
    (Command → Text → SandboxResult) → RunContext → ExecutionTestCase → SandboxResult
unfolding without_stdin run_command
program_answer program rc t = program (without_stdin (run_command rc (memory_file []))) t.stdin

module _ (ps : Patterns) {W : Type 0} (sp : SandboxPorts W) (resolve : RequestFile → Text)
    (program : Command → Text → SandboxResult) (serves : Serves sp resolve program)
    (rc : RunContext) where
  stdin_after_cache-IsChosen :
      (path : Option Text) (memory : ℕ) (bs : List Binding) (t : ExecutionTestCase)
      (ts : List ExecutionTestCase) (a : CacheAnswer × W)
      → ((b : Binding) → a.0 ≡ cached b → resolve (cached_file b.file_id) ≡ t.stdin)
      → ((e : WorkerError) → ¬ (a.0 ≡ cache_fails e))
      → IsReady sp resolve path memory t ts
      → IsChosen sp resolve t ts (stdin_after_cache sp path memory bs t.stdin a).0
  unfolding stdin_after_cache IsChosen IsReady
  stdin_after_cache-IsChosen path memory bs t ts (cache_fails e, w) c d r = elim (d e refl) [ ]
  stdin_after_cache-IsChosen path memory bs t ts (cached b, w) c d (inl (h, l)) = (c b refl, inl l)
  stdin_after_cache-IsChosen path memory bs t ts (cached b, w) c d (inr le) =
      (c b refl, inr (omega arith))
  stdin_after_cache-IsChosen path memory bs t ts (not_cached, w) c d r =
      uncached_stdin-IsChosen sp resolve serves.memory_resolves path memory bs t ts w r

  is_ready :
      (memory : ℕ) (t : ExecutionTestCase) (ts : List ExecutionTestCase)
      → IsCarried sp resolve memory (t ∷ ts)
      → IsReady sp resolve (official_sandbox_input_path sp t) memory t ts
  unfolding IsReady
  is_ready memory t ts (inl h) = inl h
  is_ready memory t ts (inr h) = inr h

  choose_stdin-IsChosen :
      (memory : ℕ) (bs : List Binding) (t : ExecutionTestCase) (ts : List ExecutionTestCase) (w : W)
      → IsCarried sp resolve memory (t ∷ ts)
      → IsChosen sp resolve t ts (choose_stdin sp rc memory bs t w).0
  unfolding choose_stdin
  choose_stdin-IsChosen memory bs t ts w r =
      let path = official_sandbox_input_path sp t in
      let ready = is_ready memory t ts r in
      if_cases {x = large_stdin sp path memory bs w}
        {y = stdin_after_cache sp path memory bs t.stdin (sp.get_or_add rc.dataset t w)}
        (ltb safe_request_bytes (length t.stdin)) (λ (s : Stdin × W). IsChosen sp resolve t ts s.0)
        (λ big.
          large_stdin-IsChosen sp resolve serves.memory_resolves path memory bs t ts w big ready)
        (λ small.
          stdin_after_cache-IsChosen path memory bs t ts (sp.get_or_add rc.dataset t w)
            (serves.cache_resolves rc.dataset t w) (serves.cache_answers rc.dataset t w) ready)

  abbrev served : List Command → List (Option SandboxResult)
  served cmds = map (served_command resolve program) cmds

  abbrev answered_cases : List ExecutionTestCase → List (Option SandboxResult)
  answered_cases ts = map (answered_case ps rc.language (program_answer program rc)) ts

  IsServed : List Command → List ExecutionTestCase → Built → Type 0
  IsServed cmds ts (refused e) = ⊥
  IsServed cmds ts (built all bs) = served all ≡ served cmds ++ answered_cases ts

  served_one :
      (t : ExecutionTestCase) (f : RequestFile)
      → resolve f ≡ t.stdin
      → served_command resolve program (run_command rc f)
        ≡ answered_case ps rc.language (program_answer program rc) t
  unfolding served_command answered_case program_answer run_command without_stdin stdin_text
  served_one t f e = rw e refl

  shifted-IsServed :
      (cmds : List Command) (t : ExecutionTestCase) (ts : List ExecutionTestCase) (c : Command)
      (b : Built)
      → served_command resolve program c
        ≡ answered_case ps rc.language (program_answer program rc) t
      → IsServed (cmds ++ c ∷ []) ts b
      → IsServed cmds (t ∷ ts) b
  unfolding IsServed
  shifted-IsServed cmds t ts c (refused r) e h = h
  shifted-IsServed cmds t ts c (built all bs) e h =
      h
      ∙ ap (λ l. l ++ answered_cases ts)
          (map-append (served_command resolve program) cmds (c ∷ [])
            ∙ ap (λ x. served cmds ++ x ∷ []) e)
      ∙ append_assoc (served cmds) _ (answered_cases ts)

  add_command-IsServed :
      (cmds : List Command) (t : ExecutionTestCase) (ts : List ExecutionTestCase)
      (go_on : List Command → ℕ → List Binding → W → Built × W) (s : Stdin × W)
      → ((cs : List Command) (m : ℕ) (bs : List Binding) (w : W)
          → IsCarried sp resolve m ts
          → IsServed cs ts (go_on cs m bs w).0)
      → IsChosen sp resolve t ts s.0
      → IsServed cmds (t ∷ ts) (add_command sp rc cmds go_on s).0
  unfolding add_command IsServed IsChosen
  add_command-IsServed cmds t ts go_on (rejects e, w) rest h = elim h [ ]
  add_command-IsServed cmds t ts go_on (uses f m bs, w) rest (e, c) =
      shifted-IsServed cmds t ts (run_command rc f) _ (served_one t f e) (rest _ m bs w c)

  build_commands-IsServed :
      (ts : List ExecutionTestCase) (cmds : List Command) (m : ℕ) (bs : List Binding) (w : W)
      → IsCarried sp resolve m ts
      → IsServed cmds ts (build_commands sp rc ts cmds m bs w).0
  unfolding build_commands IsServed
  build_commands-IsServed [] cmds m bs w c = sym (append-nil (served cmds))
  build_commands-IsServed (t ∷ ts) cmds m bs w c =
      add_command-IsServed cmds t ts (build_commands sp rc ts) (choose_stdin sp rc m bs t w)
        (build_commands-IsServed ts) (choose_stdin-IsChosen m bs t ts w c)

  run_once_served :
      (ts : List ExecutionTestCase) (b : Built × W)
      → IsServed [] ts b.0
      → (run_once ps sp b).1.0 ≡ returns (answered_cases ts)
  unfolding run_once executed batch_results exec_outcome IsServed
  run_once_served ts (refused e, w) h = elim h [ ]
  run_once_served ts (built cmds bs, w) h =
      ap
        (λ r.
          (batch_results ps sp bs (exec_outcome (codes "run_batch") r, (sp.exec_rpc cmds w).1)).0)
        (serves.exec_serves cmds w)
      ∙ ap returns h

  retry_batch_served :
      (ts : List ExecutionTestCase) (rs : List (Option SandboxResult)) (b : Bool × W)
      → IsCarried sp resolve 0 ts
      → returns rs ≡ returns (answered_cases ts)
      → (retry_batch ps sp rc ts rs b).0 ≡ returns (answered_cases ts)
  unfolding retry_batch new_run_batch_request
  retry_batch_served ts rs (true, w) c h =
      run_once_served ts _ (build_commands-IsServed ts [] 0 [] w c)
  retry_batch_served ts rs (false, w) c h = h

  after_run_served :
      (ts : List ExecutionTestCase) (x : List Binding × (Outcome (List (Option SandboxResult)) × W))
      → IsCarried sp resolve 0 ts
      → x.1.0 ≡ returns (answered_cases ts)
      → (after_run ps sp rc ts x).0 ≡ returns (answered_cases ts)
  unfolding after_run
  after_run_served ts (bs, (fails e, w)) c h = cc
  after_run_served ts (bs, (returns rs, w)) c h =
      if_either (has_file_errors rs)
        (λ (x : Outcome (List (Option SandboxResult)) × W). x.0 ≡ returns (answered_cases ts))
        (retry_batch_served ts rs (sp.invalidate_missing bs w) c h) h

  run_batch_served :
      (ts : List ExecutionTestCase) (w : W)
      → IsCarried sp resolve 0 ts
      → (run_batch ps sp rc ts w).0 ≡ returns (answered_cases ts)
  unfolding run_batch new_run_batch_request
  run_batch_served ts w c =
      after_run_served ts _ c (run_once_served ts _ (build_commands-IsServed ts [] 0 [] w c))

take_input : (n : ℕ) (ts : List ExecutionTestCase) → total_input (take n ts) ≤ total_input ts
take_input zero ts = omega arith
take_input (suc n) [] = omega arith
take_input (suc n) (t ∷ ts) = omega (arith, take_input n ts)

drop_input : (n : ℕ) (ts : List ExecutionTestCase) → total_input (drop n ts) ≤ total_input ts
drop_input zero ts = omega arith
drop_input (suc n) [] = omega arith
drop_input (suc n) (t ∷ ts) = omega (arith, drop_input n ts)

module _ {W : Type 0} (sp : SandboxPorts W) (resolve : RequestFile → Text) where
  take-AllLocal :
      (n : ℕ) (ts : List ExecutionTestCase)
      → AllLocal sp resolve ts
      → AllLocal sp resolve (take n ts)
  take-AllLocal zero ts l = tt
  take-AllLocal (suc n) [] l = tt
  take-AllLocal (suc n) (t ∷ ts) (h, l) = (h, take-AllLocal n ts l)

  drop-AllLocal :
      (n : ℕ) (ts : List ExecutionTestCase)
      → AllLocal sp resolve ts
      → AllLocal sp resolve (drop n ts)
  drop-AllLocal zero ts l = l
  drop-AllLocal (suc n) [] l = tt
  drop-AllLocal (suc n) (t ∷ ts) (h, l) = drop-AllLocal n ts l

  take-IsCarried :
      (n : ℕ) (ts : List ExecutionTestCase)
      → IsCarried sp resolve 0 ts
      → IsCarried sp resolve 0 (take n ts)
  take-IsCarried n ts (inl l) = inl (take-AllLocal n ts l)
  take-IsCarried n ts (inr h) = inr (omega (arith, take_input n ts))

  drop-IsCarried :
      (n : ℕ) (ts : List ExecutionTestCase)
      → IsCarried sp resolve 0 ts
      → IsCarried sp resolve 0 (drop n ts)
  drop-IsCarried n ts (inl l) = inl (drop-AllLocal n ts l)
  drop-IsCarried n ts (inr h) = inr (omega (arith, drop_input n ts))

pub run_all_served :
    (ps : Patterns) {W : Type 0} (sp : SandboxPorts W) (resolve : RequestFile → Text)
    (program : Command → Text → SandboxResult) (req : ExecutionRequest) (cfg : LanguageConfig)
    (id : Text) (w : W)
    → Serves sp resolve program
    → IsCarried sp resolve 0 req.test_cases
    → (run_all ps sp req cfg id w).0
      ≡ some (
          returns (
            summary ps (
              kept req.stop_on_first_failure (
                map
                  (judged_case ps req.language (program_answer program (run_context req cfg id)))
                  req.test_cases))))
unfolding run_all run_context summary outcome fresh_result verdict_status verdict_message
    first_failure longest largest
run_all_served ps sp resolve program req cfg id w serves c =
    let rc = run_context req cfg id in
    run_batches_joined ps sp rc (program_answer program rc) req.stop_on_first_failure
      (IsCarried sp resolve 0) (take-IsCarried sp resolve) (drop-IsCarried sp resolve)
      (run_batch_served ps sp resolve program serves rc) (length req.test_cases) req.test_cases
      fresh_result w (omega arith) c
    ∙ ap (λ r. some (returns r)) (add_results-summary ps (kept req.stop_on_first_failure _) [])
