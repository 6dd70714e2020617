-- ===== src/Worker/Sandbox/Published.antt =====
-- The judge's worker and the submission service together: what a job sends after `Execute` has judged it
-- (workers/judge) passes the checks of `applyJudgeResultUseCase` (services/submission).
use go_judge_system.Prelude.{
  ℕ, ℤ, is_positive, Text, codes, is_empty, trim_space, text_dec, Bool, true, false, ◌≡◌, refl, ap,
  sym, subst, ◌∙◌, ◌⊎◌, inl, inr, Option, none, some, List, [], ◌∷◌, map,
}
use go_judge_system.Submission.Errors.{Result, ok}
use go_judge_system.Submission.Entity.{
  JobMessage, ResultMessage, TestCaseResultItem, Status, is_terminal_status, parse_status,
  ResultStatus, result_status_text, parse_result_status, SubmissionResult, find_text,
}
use go_judge_system.Submission.Apply.{
  Checked, check_result, check_status, check_items, checked, map_terminal_status, terminal_or_error,
  is_sha256_hex, validate_dataset_checksum, map_test_case, result_row, cons_ok,
  map_test_case_results,
}
use go_judge_system.Worker.Execution.{
  WorkerError, ProblemTestCaseMetadata, OfficialTestCaseBundle, ExecutionRequest, TestCaseResult,
  ExecutionResult, Outcome, returns, fails,
}
use go_judge_system.Worker.Job.{
  Ports, non_empty_string, result_item, result_message, answered, without_data,
  sanitize_official_result, official_request, publish_result, processing_failure,
  handle_processing_error, judged, with_result, with_bundle, with_metadata, process_judge_job,
}
use go_judge_system.Worker.Job.Laws.{system_error_result-checked}
use go_judge_system.Worker.Diagnostics.{Patterns}
use go_judge_system.Worker.Sandbox.Requests.{SandboxPorts}
use go_judge_system.Worker.Sandbox.Execute.{execute}
use go_judge_system.Worker.Sandbox.Verdicts.{AllNumbered, AllSound, IsSound, IsVerdict, IsEndSound}
use go_judge_system.Worker.Loader.Archive.{LoaderPorts, downloads}
use go_judge_system.Worker.Loader.Load.{load}
use go_judge_system.Worker.Loader.Laws.{IsComplete, load-IsComplete}
use go_judge_system.Worker.Sandbox.Outcomes.{execute-IsEndSound}

-- The message passes the checks, with a terminal status.
abbrev pub IsChecked : ResultMessage → Type 0
IsChecked m = (c : Checked) × ((check_result m ≡ ok c) × (is_terminal_status c.status ≡ true))

-- Nothing was sent, or a message that passes the checks.
abbrev pub IsSentChecked : Option ResultMessage → Type 0
IsSentChecked none = Unit {0}
IsSentChecked (some m) = IsChecked m

-- What the loader returns has positive indexes, and a SHA-256 in hex, or none, for a checksum.
pub record IsLoaded (bundle : OfficialTestCaseBundle) : Type 0 where
  pub numbered : AllNumbered bundle.test_cases
  pub checksum :
      (is_empty bundle.dataset_checksum ≡ true) ⊎ (is_sha256_hex bundle.dataset_checksum ≡ true)

IsItemsOk : Result (List SubmissionResult) → Type 0
IsItemsOk r = (rows : List SubmissionResult) × (r ≡ ok rows)

parse_result_status_text : (v : ResultStatus) → parse_result_status (result_status_text v) ≡ some v
unfolding parse_result_status find_text text_dec
parse_result_status_text ResultStatus.accepted = refl
parse_result_status_text ResultStatus.wrong_answer = refl
parse_result_status_text ResultStatus.time_limit = refl
parse_result_status_text ResultStatus.memory_limit = refl
parse_result_status_text ResultStatus.output_limit = refl
parse_result_status_text ResultStatus.runtime_error = refl
parse_result_status_text ResultStatus.system_error = refl

IsTerminal : Text → Type 0
IsTerminal s = (st : Status) × ((map_terminal_status s ≡ ok st) × (is_terminal_status st ≡ true))

verdict-IsTerminal : (v : ResultStatus) → IsTerminal (result_status_text v)
unfolding IsTerminal map_terminal_status terminal_or_error parse_status find_text text_dec
verdict-IsTerminal ResultStatus.accepted = (Status.accepted, (refl, refl))
verdict-IsTerminal ResultStatus.wrong_answer = (Status.wrong_answer, (refl, refl))
verdict-IsTerminal ResultStatus.time_limit = (Status.time_limit_exceeded, (refl, refl))
verdict-IsTerminal ResultStatus.memory_limit = (Status.memory_limit_exceeded, (refl, refl))
verdict-IsTerminal ResultStatus.output_limit = (Status.output_limit_exceeded, (refl, refl))
verdict-IsTerminal ResultStatus.runtime_error = (Status.runtime_error, (refl, refl))
verdict-IsTerminal ResultStatus.system_error = (Status.system_error, (refl, refl))

compilation_error-IsTerminal : IsTerminal (codes "COMPILATION_ERROR")
unfolding IsTerminal map_terminal_status terminal_or_error parse_status find_text text_dec
compilation_error-IsTerminal = (Status.compilation_error, (refl, refl))

known-IsTerminal : (s : Text) → IsVerdict s ⊎ (s ≡ codes "COMPILATION_ERROR") → IsTerminal s
known-IsTerminal s (inl (v, e)) = subst IsTerminal (sym e) (verdict-IsTerminal v)
known-IsTerminal s (inr e) = subst IsTerminal (sym e) compilation_error-IsTerminal

cons_ok-IsItemsOk :
    (a : Result SubmissionResult) (b : Result (List SubmissionResult)) (row : SubmissionResult)
    → a ≡ ok row
    → IsItemsOk b
    → IsItemsOk (cons_ok a b)
unfolding cons_ok IsItemsOk
cons_ok-IsItemsOk a b row e (rows, f) = (row ∷ rows, rw (e, f) refl)

map_test_case_ok :
    (id : ℤ) (attempt : Text) (item : TestCaseResultItem) (v : ResultStatus)
    → is_positive item.index ≡ true
    → (row : SubmissionResult) × (map_test_case id attempt item (some v) ≡ ok row)
unfolding map_test_case
map_test_case_ok id attempt item v p = (result_row id attempt item v, rw p refl)

items-IsItemsOk :
    (id : ℤ) (attempt : Text) (rs : List TestCaseResult)
    → AllSound rs
    → IsItemsOk (map_test_case_results id attempt (map result_item (map without_data rs)))
unfolding map_test_case_results IsItemsOk result_item without_data
items-IsItemsOk id attempt [] h = ([], refl)
items-IsItemsOk id attempt (r ∷ rs) (((v, e), p), h) =
    let (row, f) = map_test_case_ok id attempt (result_item (without_data r)) v p in
    cons_ok-IsItemsOk _ _ row
      (ap (map_test_case id attempt (result_item (without_data r)))
          (ap parse_result_status e ∙ parse_result_status_text v)
        ∙ f)
      (items-IsItemsOk id attempt rs h)

checks :
    (m : ResultMessage)
    → is_positive m.submission_id ≡ true
    → is_empty (trim_space m.attempt_id) ≡ false
    → IsTerminal m.status
    → validate_dataset_checksum m.dataset_checksum ≡ ok tt
    → IsItemsOk (map_test_case_results m.submission_id m.attempt_id m.test_cases)
    → IsChecked m
unfolding check_result check_status check_items checked IsTerminal IsItemsOk
checks m p a (st, (e, t)) v (rows, f) =
    (record { status = st; results = rows }, (rw (p, a, e, v, f) refl, t))

checksum_valid :
    (s : Text)
    → (is_empty s ≡ true) ⊎ (is_sha256_hex s ≡ true)
    → validate_dataset_checksum (non_empty_string s) ≡ ok tt
unfolding validate_dataset_checksum non_empty_string
checksum_valid [] h = refl
checksum_valid (c ∷ s) (inl e) = cc
checksum_valid (c ∷ s) (inr e) = rw e refl

module _ (ps : Patterns) {W : Type 0} (sp : SandboxPorts W) (ports : Ports) (job : JobMessage)
    (submission_positive : is_positive job.submission_id ≡ true)
    (attempt_named : is_empty (trim_space job.attempt_id) ≡ false) where
  published-IsChecked :
      (bundle : OfficialTestCaseBundle) (r : ExecutionResult)
      → IsLoaded bundle
      → IsSound r
      → IsChecked (result_message job.submission_id job.attempt_id (judged ports job bundle r))
  unfolding judged result_message sanitize_official_result
  published-IsChecked bundle r l s =
      checks _ submission_positive attempt_named (known-IsTerminal r.status s.known)
        (checksum_valid bundle.dataset_checksum l.checksum)
        (items-IsItemsOk job.submission_id job.attempt_id r.test_cases s.cases)

  answered-IsSentChecked :
      (m : ResultMessage) (o : Option WorkerError) → IsChecked m → IsSentChecked (answered m o).sent
  unfolding answered
  answered-IsSentChecked m none c = c
  answered-IsSentChecked m (some e) c = tt

  failure-IsSentChecked :
      (b : Bool) (stage : Text) (e : WorkerError)
      → IsSentChecked (processing_failure ports job b stage e).sent
  unfolding processing_failure publish_result
  failure-IsSentChecked true stage e =
      answered-IsSentChecked _ _
        (_, (system_error_result-checked job stage e submission_positive attempt_named, refl))
  failure-IsSentChecked false stage e = tt

  with_result-IsSentChecked :
      (bundle : OfficialTestCaseBundle) (o : Outcome ExecutionResult)
      → IsLoaded bundle
      → IsEndSound (some o)
      → IsSentChecked (with_result ports job bundle o).sent
  unfolding with_result handle_processing_error publish_result
  with_result-IsSentChecked bundle (fails e) l s = failure-IsSentChecked e.non_retryable _ e
  with_result-IsSentChecked bundle (returns r) l s =
      answered-IsSentChecked _ _ (published-IsChecked bundle r l s)

  module _
      (executes : (req : ExecutionRequest)
        → (w : W) × ((execute ps sp req w).0 ≡ some (ports.execute req)))
      {V : Type 0} (lp : LoaderPorts V)
      (hashes : (url dest : Text) (limit : ℕ) (w : V) (status size : ℕ) (checksum : Text)
        → (lp.fetch url dest limit w).0 ≡ downloads status size checksum
        → is_sha256_hex checksum ≡ true)
      (loads : (metadata : ProblemTestCaseMetadata)
        → (w : V) × ((load lp metadata w).0 ≡ ports.load metadata)) where
    executes-IsEndSound :
        (req : ExecutionRequest)
        → AllNumbered req.test_cases
        → IsEndSound (some (ports.execute req))
    executes-IsEndSound req h =
        subst IsEndSound (executes req).1 (execute-IsEndSound ps sp req (executes req).0 h)

    bundle-IsLoaded :
        (metadata : ProblemTestCaseMetadata) (bundle : OfficialTestCaseBundle)
        → ports.load metadata ≡ returns bundle
        → IsLoaded bundle
    bundle-IsLoaded metadata bundle e =
        let complete : IsComplete metadata (returns bundle) =
          subst (IsComplete metadata) ((loads metadata).1 ∙ e)
            (load-IsComplete lp hashes metadata (loads metadata).0) in
        record { numbered = complete.0; checksum = inr complete.1.1.1.1 }

    with_bundle-IsSentChecked :
        (metadata : ProblemTestCaseMetadata) (o : Outcome OfficialTestCaseBundle)
        → ((bundle : OfficialTestCaseBundle) → o ≡ returns bundle → IsLoaded bundle)
        → IsSentChecked (with_bundle ports job metadata o).sent
    unfolding with_bundle handle_processing_error official_request
    with_bundle-IsSentChecked metadata (fails e) l = failure-IsSentChecked e.non_retryable _ e
    with_bundle-IsSentChecked metadata (returns bundle) l =
        with_result-IsSentChecked bundle _ (l bundle refl)
          (executes-IsEndSound (official_request job metadata bundle) (l bundle refl).numbered)

    with_metadata-IsSentChecked :
        (o : Outcome ProblemTestCaseMetadata) → IsSentChecked (with_metadata ports job o).sent
    unfolding with_metadata handle_processing_error
    with_metadata-IsSentChecked (fails e) = failure-IsSentChecked e.non_retryable _ e
    with_metadata-IsSentChecked (returns metadata) =
        with_bundle-IsSentChecked metadata (ports.load metadata) (bundle-IsLoaded metadata)

    -- For a job with a positive submission id and an attempt id, whose testcases come from `Load` and are
    -- judged by `Execute`, any message that the worker sends passes every check of the submission service
    -- before its transaction, with a terminal status: after a judgement, a compilation error and a failure
    -- of any stage alike, whatever the disk, the sandbox and the cache answer, if the hash of a download
    -- is a SHA-256 in hex.
    pub process_judge_job-IsSentChecked : IsSentChecked (process_judge_job ports job).sent
    unfolding process_judge_job
    process_judge_job-IsSentChecked = with_metadata-IsSentChecked _
