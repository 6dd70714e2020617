-- ===== src/Worker/Sandbox/Batches.antt =====
-- The batches of `Execute`: they add up to the results of all testcases in
-- order, cut at the first failure where the request asks for that.
use go_judge_system.Prelude.{
  ℕ, zero, suc, ◌≤◌, length, take, drop, length-map, length-drop, take-append-drop, ==_iff, Text,
  text_eq, Bool, true, false, not, ◌&&◌, ◌||◌, ◌≡◌, refl, ap, sym, ◌∙◌, Option, some, List, [], ◌∷◌,
  ◌++◌, map, if◌then◌else◌, map-append, arith,
}
use go_judge_system.Worker.Execution.{
  Outcome, returns, ExecutionTestCase, TestCaseResult, ExecutionResult,
}
use go_judge_system.Worker.Diagnostics.{Patterns}
use go_judge_system.Worker.Sandbox.{SandboxResult, accepted_status, map_test_case_result}
use go_judge_system.Worker.Sandbox.Requests.{SandboxPorts, RunContext}
use go_judge_system.Worker.Sandbox.Answers.{Scan, goes_on, stops, add_result, scan_results}
use go_judge_system.Worker.Sandbox.Execute.{
  batch_length, run_batch, scan_batch, after_scan, run_batches,
}
use go_judge_system.Worker.Sandbox.Loop.{kept, add_results, add_results-append}

-- Whether the results stop the loop.
unfoldable pub halts : Bool → List TestCaseResult → Bool
halts stop [] = false
halts stop (r ∷ rs) = (stop && not (text_eq r.status accepted_status)) || halts stop rs

keep_halted :
    (b h : Bool) (x : TestCaseResult) (k l : List TestCaseResult)
    → (b || h) ≡ true
    → (h ≡ true → k ≡ l)
    → (if b then x ∷ [] else x ∷ k) ≡ (if b then x ∷ [] else x ∷ l)
keep_halted true h x k l e f = refl
keep_halted false h x k l e f = rw (f e)

keep_running :
    (b h : Bool) (x : TestCaseResult) (k l m : List TestCaseResult)
    → (b || h) ≡ false
    → (h ≡ false → k ≡ l ++ m)
    → (if b then x ∷ [] else x ∷ k) ≡ (if b then x ∷ [] else x ∷ l) ++ m
keep_running true h x k l m e f = cc
keep_running false h x k l m e f = rw (f e)

kept-append-halts :
    (stop : Bool) (xs ys : List TestCaseResult)
    → halts stop xs ≡ true
    → kept stop (xs ++ ys) ≡ kept stop xs
unfolding kept halts
kept-append-halts stop [] ys h = cc
kept-append-halts stop (x ∷ xs) ys h =
    keep_halted _ (halts stop xs) x _ _ h (kept-append-halts stop xs ys)

kept-append :
    (stop : Bool) (xs ys : List TestCaseResult)
    → halts stop xs ≡ false
    → kept stop (xs ++ ys) ≡ kept stop xs ++ kept stop ys
unfolding kept halts
kept-append stop [] ys h = refl
kept-append stop (x ∷ xs) ys h = keep_running _ (halts stop xs) x _ _ _ h (kept-append stop xs ys)

unfoldable pub scan_end : Bool → ExecutionResult → Scan
scan_end true r = stops r
scan_end false r = goes_on r

module _ (ps : Patterns) (language : Text) (answer : ExecutionTestCase → SandboxResult) where
  -- The result of one testcase.
  unfoldable pub judged_case : ExecutionTestCase → TestCaseResult
  judged_case t = map_test_case_result ps language t (answer t)

  unfoldable pub answered_case : ExecutionTestCase → Option SandboxResult
  answered_case t = some (answer t)

  scan_next :
      (b h : Bool) (rest : Scan) (r : TestCaseResult) (rs : List TestCaseResult)
      (acc : ExecutionResult)
      → rest ≡ scan_end h (add_results ps rs (add_result ps r acc))
      → (if b then stops (add_result ps r acc) else rest)
        ≡ scan_end (b || h) (add_results ps (if b then r ∷ [] else r ∷ rs) acc)
  unfolding scan_end add_results
  scan_next true h rest r rs acc e = refl
  scan_next false h rest r rs acc e = e

  scan_answers :
      (stop : Bool) (ts : List ExecutionTestCase) (acc : ExecutionResult)
      → scan_results ps language stop ts (map answered_case ts) acc
        ≡ scan_end
            (halts stop (map judged_case ts))
            (add_results ps (kept stop (map judged_case ts)) acc)
  unfolding scan_results judged_case answered_case halts kept scan_end add_results
  scan_answers stop [] acc = refl
  scan_answers stop (t ∷ ts) acc =
      scan_next _ _ _ (judged_case t) _ acc
        (scan_answers stop ts (add_result ps (judged_case t) acc))

pub drop_le :
    (stop : Bool) (t : ExecutionTestCase) (ts : List ExecutionTestCase) (fuel : ℕ)
    → length (t ∷ ts) ≤ suc fuel
    → length (drop (batch_length stop) (t ∷ ts)) ≤ fuel
unfolding batch_length
drop_le true t ts fuel h = omega (arith, length-drop 4 (t ∷ ts))
drop_le false t ts fuel h = omega (arith, length-drop 50 (t ∷ ts))

module _ (ps : Patterns) {W : Type 0} (sp : SandboxPorts W) (rc : RunContext)
    (answer : ExecutionTestCase → SandboxResult) (stop : Bool) where
  abbrev results_of : List ExecutionTestCase → List TestCaseResult
  results_of ts = map (judged_case ps rc.language answer) ts

  scan_batch-answers :
      (ts : List ExecutionTestCase) (acc : ExecutionResult)
      → scan_batch ps sp rc.language stop ts acc
          (returns (map (answered_case ps rc.language answer) ts))
        ≡ scan_end (halts stop (results_of ts)) (add_results ps (kept stop (results_of ts)) acc)
  unfolding scan_batch
  scan_batch-answers ts acc =
      rw ((==_iff _ _).1 (length-map ts (answered_case ps rc.language answer)))
        (scan_answers ps rc.language answer stop ts acc)

  after_scan-end :
      (b : Bool) (go_on : ExecutionResult → W → Option (Outcome ExecutionResult) × W)
      (r : ExecutionResult) (w : W)
      → (after_scan ps sp go_on (scan_end b r) w).0
        ≡ (if b then some (returns r) else (go_on r w).0)
  unfolding after_scan scan_end
  after_scan-end true go_on r w = refl
  after_scan-end false go_on r w = refl

  joined :
      (b : Bool) (xs ys : List TestCaseResult) (acc : ExecutionResult)
      (rest : Option (Outcome ExecutionResult))
      → halts stop xs ≡ b
      → rest ≡ some (returns (add_results ps (kept stop ys) (add_results ps (kept stop xs) acc)))
      → (if b then some (returns (add_results ps (kept stop xs) acc)) else rest)
        ≡ some (returns (add_results ps (kept stop (xs ++ ys)) acc))
  joined true xs ys acc rest h e = rw (kept-append-halts stop xs ys h) refl
  joined false xs ys acc rest h e =
      rw (kept-append stop xs ys h, add_results-append ps (kept stop xs) (kept stop ys) acc) e

  module _ (IsServed : List ExecutionTestCase → Type 0)
      (take-IsServed : (n : ℕ) (ts : List ExecutionTestCase) → IsServed ts → IsServed (take n ts))
      (drop-IsServed : (n : ℕ) (ts : List ExecutionTestCase) → IsServed ts → IsServed (drop n ts))
      (run_batch_served : (ts : List ExecutionTestCase) (w : W)
        → IsServed ts
        → (run_batch ps sp rc ts w).0
          ≡ returns (map (answered_case ps rc.language answer) ts)) where
    pub run_batches_joined :
        (fuel : ℕ) (ts : List ExecutionTestCase) (acc : ExecutionResult) (w : W)
        → length ts ≤ fuel
        → IsServed ts
        → (run_batches ps sp fuel rc stop ts acc w).0
          ≡ some (returns (add_results ps (kept stop (results_of ts)) acc))
    unfolding run_batches kept add_results
    run_batches_joined fuel [] acc w h s = refl
    run_batches_joined zero (t ∷ ts) acc w h s = absurd (omega arith)
    run_batches_joined (suc fuel) (t ∷ ts) acc w h s =
        let all : List ExecutionTestCase = t ∷ ts in
        let n = batch_length stop in
        let w' : W = (run_batch ps sp rc (take n all) w).1 in
        let go_on : ExecutionResult → W → Option (Outcome ExecutionResult) × W =
          run_batches ps sp fuel rc stop (drop n all) in
        let acc' = add_results ps (kept stop (results_of (take n all))) acc in
        ap
          (λ o.
            (after_scan ps sp go_on (scan_batch ps sp rc.language stop (take n all) acc o) w').0)
          (run_batch_served (take n all) w (take-IsServed n all s))
        ∙ ap (λ sc. (after_scan ps sp go_on sc w').0) (scan_batch-answers (take n all) acc)
        ∙ after_scan-end (halts stop (results_of (take n all))) go_on acc' w'
        ∙ joined (halts stop (results_of (take n all))) (results_of (take n all))
            (results_of (drop n all)) acc _ refl
            (run_batches_joined fuel (drop n all) acc' w' (drop_le stop t ts fuel h)
              (drop-IsServed n all s))
        ∙ ap (λ l. some (returns (add_results ps (kept stop l) acc)))
            (sym (map-append (judged_case ps rc.language answer) (take n all) (drop n all))
              ∙ ap results_of (take-append-drop n all))
