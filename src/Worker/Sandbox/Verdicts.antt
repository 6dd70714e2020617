-- ===== src/Worker/Sandbox/Verdicts.antt =====
-- The statuses that `Execute` gives to testcases and to submissions.
use go_judge_system.Prelude.{
  ℕ, zero, suc, take, drop, ℤ, pos, ℤ_discrete, is_positive, Text, text_eq, codes, Bool, true, not,
  ◌&&◌, if_either, ◌≡◌, refl, ◌⊎◌, inl, Option, none, some, List, [], ◌∷◌, ◌++◌, ite,
}
use go_judge_system.Submission.Entity.{ResultStatus, result_status_text}
use go_judge_system.Worker.Execution.{
  Outcome, returns, fails, ExecutionTestCase, TestCaseResult, ExecutionResult,
}
use go_judge_system.Worker.Diagnostics.{Patterns}
use go_judge_system.Worker.Output.{output_equal}
use go_judge_system.Worker.Sandbox.{
  JudgeStatus, SandboxResult, accepted_status, map_judge_status, compared_status,
  map_test_case_result,
}
use go_judge_system.Worker.Sandbox.Answers.{Scan, goes_on, stops, breaks, add_result, scan_results}

-- The status of a testcase, as the submission service spells it.
abbrev pub IsVerdict : Text → Type 0
IsVerdict s = (v : ResultStatus) × (s ≡ result_status_text v)

ite-IsVerdict :
    {P : Type 0} {a b : Text} (d : Dec P) → IsVerdict a → IsVerdict b → IsVerdict (ite d a b)
ite-IsVerdict (yes p) v w = v
ite-IsVerdict (no h) v w = w

map_judge_status-IsVerdict : (s : JudgeStatus) (exit : ℤ) → IsVerdict (map_judge_status s exit)
unfolding map_judge_status
map_judge_status-IsVerdict JudgeStatus.accepted exit =
    ite-IsVerdict (ℤ_discrete exit (pos 0)) (ResultStatus.accepted, refl)
      (ResultStatus.runtime_error, refl)
map_judge_status-IsVerdict JudgeStatus.memory_limit_exceeded exit =
    (ResultStatus.memory_limit, refl)
map_judge_status-IsVerdict JudgeStatus.time_limit_exceeded exit = (ResultStatus.time_limit, refl)
map_judge_status-IsVerdict JudgeStatus.output_limit_exceeded exit =
    (ResultStatus.output_limit, refl)
map_judge_status-IsVerdict JudgeStatus.file_error exit = (ResultStatus.runtime_error, refl)
map_judge_status-IsVerdict JudgeStatus.non_zero_exit_status exit =
    (ResultStatus.runtime_error, refl)
map_judge_status-IsVerdict JudgeStatus.signalled exit = (ResultStatus.runtime_error, refl)
map_judge_status-IsVerdict JudgeStatus.internal_error exit = (ResultStatus.system_error, refl)
map_judge_status-IsVerdict (JudgeStatus.other n) exit = (ResultStatus.system_error, refl)

compared_status-IsVerdict :
    (status stdout : Text) (expected : Option Text)
    → IsVerdict status
    → IsVerdict (compared_status status stdout expected)
unfolding compared_status
compared_status-IsVerdict status stdout none v = v
compared_status-IsVerdict status stdout (some expected) v =
    if_either (text_eq status accepted_status && not (output_equal stdout expected)) IsVerdict
      (ResultStatus.wrong_answer, refl) v

-- Every index is positive.
abbrev pub AllNumbered : List ExecutionTestCase → Type 0
AllNumbered [] = Unit {0}
AllNumbered (t ∷ ts) = (is_positive t.index ≡ true) × AllNumbered ts

pub take-AllNumbered :
    (n : ℕ) (ts : List ExecutionTestCase) → AllNumbered ts → AllNumbered (take n ts)
take-AllNumbered zero ts h = tt
take-AllNumbered (suc n) [] h = tt
take-AllNumbered (suc n) (t ∷ ts) (p, h) = (p, take-AllNumbered n ts h)

pub drop-AllNumbered :
    (n : ℕ) (ts : List ExecutionTestCase) → AllNumbered ts → AllNumbered (drop n ts)
drop-AllNumbered zero ts h = h
drop-AllNumbered (suc n) [] h = tt
drop-AllNumbered (suc n) (t ∷ ts) (p, h) = drop-AllNumbered n ts h

abbrev pub IsCaseSound : TestCaseResult → Type 0
IsCaseSound r = IsVerdict r.status × (is_positive r.index ≡ true)

abbrev pub AllSound : List TestCaseResult → Type 0
AllSound [] = Unit {0}
AllSound (r ∷ rs) = IsCaseSound r × AllSound rs

-- A result whose status and testcases can be published.
pub record IsSound (r : ExecutionResult) : Type 0 where
  pub known : IsVerdict r.status ⊎ (r.status ≡ codes "COMPILATION_ERROR")
  pub cases : AllSound r.test_cases

snoc-AllSound :
    (rs : List TestCaseResult) (r : TestCaseResult)
    → AllSound rs
    → IsCaseSound r
    → AllSound (rs ++ r ∷ [])
snoc-AllSound [] r h p = (p, tt)
snoc-AllSound (x ∷ xs) r (q, h) p = (q, snoc-AllSound xs r h p)

abbrev pub IsScanSound : Scan → Type 0
IsScanSound (goes_on r) = IsSound r
IsScanSound (stops r) = IsSound r
IsScanSound (breaks e) = Unit {0}

abbrev pub IsEndSound : Option (Outcome ExecutionResult) → Type 0
IsEndSound none = Unit {0}
IsEndSound (some (fails e)) = Unit {0}
IsEndSound (some (returns r)) = IsSound r

module _ (ps : Patterns) (language : Text) where
  pub map_test_case_result-IsVerdict :
      (t : ExecutionTestCase) (raw : SandboxResult)
      → IsVerdict (map_test_case_result ps language t raw).status
  unfolding map_test_case_result
  map_test_case_result-IsVerdict t raw =
      compared_status-IsVerdict _ _ t.expected_output
        (map_judge_status-IsVerdict raw.status raw.exit_status)

  map_test_case_result-IsCaseSound :
      (t : ExecutionTestCase) (raw : SandboxResult)
      → is_positive t.index ≡ true
      → IsCaseSound (map_test_case_result ps language t raw)
  unfolding map_test_case_result
  map_test_case_result-IsCaseSound t raw h = (map_test_case_result-IsVerdict t raw, h)

  add_result-IsSound :
      (tc : TestCaseResult) (r : ExecutionResult)
      → IsCaseSound tc
      → IsSound r
      → IsSound (add_result ps tc r)
  unfolding add_result
  add_result-IsSound tc r (v, p) s = record {
    known =
        if_either (not (text_eq tc.status accepted_status) && text_eq r.status accepted_status)
          (λ (x : Text). IsVerdict x ⊎ (x ≡ codes "COMPILATION_ERROR")) (inl v) s.known;
    cases = snoc-AllSound r.test_cases tc s.cases (v, p);
  }

  pub scan_results-IsScanSound :
      (stop : Bool) (ts : List ExecutionTestCase) (rs : List (Option SandboxResult))
      (acc : ExecutionResult)
      → AllNumbered ts
      → IsSound acc
      → IsScanSound (scan_results ps language stop ts rs acc)
  unfolding scan_results
  scan_results-IsScanSound stop [] rs acc h s = s
  scan_results-IsScanSound stop (t ∷ ts) [] acc h s = s
  scan_results-IsScanSound stop (t ∷ ts) (none ∷ rs) acc h s = tt
  scan_results-IsScanSound stop (t ∷ ts) (some raw ∷ rs) acc (p, h) s =
      let tc = map_test_case_result ps language t raw in
      let next = add_result-IsSound tc acc (map_test_case_result-IsCaseSound t raw p) s in
      if_either (stop && not (text_eq tc.status accepted_status)) IsScanSound next
        (scan_results-IsScanSound stop ts rs (add_result ps tc acc) h next)
