-- ===== src/Worker/Sandbox/Loop.antt =====
-- The loops of `Execute`: what the results of the testcases, batch by batch, add up to.
use go_judge_system.Prelude.{
  ℤ, pos, Text, text_eq, Bool, true, false, not, ◌&&◌, ◌≡◌, refl, ap, sym, ◌∙◌, Option, none, some,
  List, [], ◌∷◌, ◌++◌, if◌then◌else◌, arith, eq_of_parts, text_dec,
}
use mathlib.Core.List.{append-nil, append_assoc}
use go_judge_system.Worker.Execution.{TestCaseResult, ExecutionResult}
use go_judge_system.Worker.Diagnostics.{Patterns}
use go_judge_system.Worker.Sandbox.{max_int64, accepted_status, error_message_for_test_case}
use go_judge_system.Worker.Sandbox.Answers.{fresh_result, add_result}

-- The results that are kept: all of them, or those up to the first one that is not accepted.
unfoldable pub kept : Bool → List TestCaseResult → List TestCaseResult
kept stop [] = []
kept stop (r ∷ rs) =
    let rest = kept stop rs in
    if stop && not (text_eq r.status accepted_status) then r ∷ [] else r ∷ rest

-- The status of the first result that is not accepted, and its message.
unfoldable pub first_failure : List TestCaseResult → Option TestCaseResult
first_failure [] = none
first_failure (r ∷ rs) =
    let rest = first_failure rs in if text_eq r.status accepted_status then rest else some r

unfoldable pub longest : List TestCaseResult → ℤ
longest [] = pos 0
longest (r ∷ rs) = max_int64 r.execution_time (longest rs)

unfoldable pub largest : List TestCaseResult → ℤ
largest [] = pos 0
largest (r ∷ rs) = max_int64 r.memory_used (largest rs)

module _ (ps : Patterns) where
  -- The outcome of a list of results, with nothing said of how it is computed.
  unfoldable pub verdict_status : Option TestCaseResult → Text
  verdict_status none = accepted_status
  verdict_status (some r) = r.status

  unfoldable pub verdict_message : Option TestCaseResult → Option Text
  verdict_message none = none
  verdict_message (some r) = error_message_for_test_case ps r

  unfoldable pub outcome : List TestCaseResult → Option TestCaseResult → ℤ → ℤ → ExecutionResult
  unfolding fresh_result verdict_status verdict_message
  outcome rs failure time memory = record fresh_result {
    status = verdict_status failure;
    error_message = verdict_message failure;
    test_cases = rs;
    execution_time = time;
    memory_used = memory;
  }

  unfoldable pub summary : List TestCaseResult → ExecutionResult
  unfolding outcome first_failure longest largest
  summary rs = outcome rs (first_failure rs) (longest rs) (largest rs)

  -- The results that are added one by one to the result so far.
  unfoldable pub add_results : List TestCaseResult → ExecutionResult → ExecutionResult
  add_results [] acc = acc
  add_results (r ∷ rs) acc = add_results rs (add_result ps r acc)

  pub add_results-append :
      (xs ys : List TestCaseResult) (acc : ExecutionResult)
      → add_results (xs ++ ys) acc ≡ add_results ys (add_results xs acc)
  unfolding add_results
  add_results-append [] ys acc = refl
  add_results-append (x ∷ xs) ys acc = add_results-append xs ys (add_result ps x acc)

max_int64_left_comm : (a b c : ℤ) → max_int64 a (max_int64 b c) ≡ max_int64 b (max_int64 a c)
unfolding max_int64
max_int64_left_comm a b c = ground (arith, eq_of_parts a b)

longest-snoc :
    (rs : List TestCaseResult) (r : TestCaseResult)
    → longest (rs ++ r ∷ []) ≡ max_int64 r.execution_time (longest rs)
unfolding longest
longest-snoc [] r = refl
longest-snoc (x ∷ xs) r =
    ap (max_int64 x.execution_time) (longest-snoc xs r) ∙ max_int64_left_comm _ _ _

largest-snoc :
    (rs : List TestCaseResult) (r : TestCaseResult)
    → largest (rs ++ r ∷ []) ≡ max_int64 r.memory_used (largest rs)
unfolding largest
largest-snoc [] r = refl
largest-snoc (x ∷ xs) r =
    ap (max_int64 x.memory_used) (largest-snoc xs r) ∙ max_int64_left_comm _ _ _

-- The first failure once one more result is in.
or_failure : Option TestCaseResult → TestCaseResult → Option TestCaseResult
or_failure none r = if text_eq r.status accepted_status then none else some r
or_failure (some f) r = some f

or_failure-if :
    (b : Bool) (x : TestCaseResult) (o : Option TestCaseResult) (r : TestCaseResult)
    → (if b then or_failure o r else some x) ≡ or_failure (if b then o else some x) r
unfolding or_failure
or_failure-if true x o r = refl
or_failure-if false x o r = refl

first_failure-snoc :
    (rs : List TestCaseResult) (r : TestCaseResult)
    → first_failure (rs ++ r ∷ []) ≡ or_failure (first_failure rs) r
unfolding first_failure or_failure
first_failure-snoc [] r = refl
first_failure-snoc (x ∷ xs) r =
    rw (first_failure-snoc xs r) (or_failure-if _ x (first_failure xs) r)

HasFailed : Option TestCaseResult → Type 0
HasFailed none = Unit
HasFailed (some f) = text_eq f.status accepted_status ≡ false

failure_if-HasFailed :
    (b : Bool) (r : TestCaseResult) (o : Option TestCaseResult)
    → text_eq r.status accepted_status ≡ b
    → HasFailed o
    → HasFailed (if b then o else some r)
unfolding HasFailed
failure_if-HasFailed true r o e h = h
failure_if-HasFailed false r o e h = e

first_failure-HasFailed : (rs : List TestCaseResult) → HasFailed (first_failure rs)
unfolding first_failure HasFailed
first_failure-HasFailed [] = tt
first_failure-HasFailed (r ∷ rs) = failure_if-HasFailed _ r _ refl (first_failure-HasFailed rs)

accepted_self : text_eq accepted_status accepted_status ≡ true
unfolding text_eq text_dec
accepted_self = refl

module _ (ps : Patterns) where
  unfoldable status_next : Bool → Bool → TestCaseResult → Text → Text
  status_next accepted running r status = if not accepted && running then r.status else status

  unfoldable message_next : Bool → Bool → TestCaseResult → Option Text → Option Text
  message_next accepted running r message =
      if not accepted && running then error_message_for_test_case ps r else message

  status_failed :
      (b : Bool) (r : TestCaseResult) (status : Text) → status_next b false r status ≡ status
  unfolding status_next
  status_failed true r status = refl
  status_failed false r status = refl

  message_failed :
      (b : Bool) (r : TestCaseResult) (message : Option Text)
      → message_next b false r message ≡ message
  unfolding message_next
  message_failed true r message = refl
  message_failed false r message = refl

  status_first :
      (b : Bool) (r : TestCaseResult)
      → status_next b true r accepted_status ≡ verdict_status ps (if b then none else some r)
  unfolding status_next verdict_status
  status_first true r = refl
  status_first false r = refl

  message_first :
      (b : Bool) (r : TestCaseResult)
      → message_next b true r none ≡ verdict_message ps (if b then none else some r)
  unfolding message_next verdict_message
  message_first true r = refl
  message_first false r = refl

  verdict_status_next :
      (o : Option TestCaseResult) (r : TestCaseResult)
      → HasFailed o
      → status_next
          (text_eq r.status accepted_status)
          (text_eq (verdict_status ps o) accepted_status)
          r
          (verdict_status ps o)
        ≡ verdict_status ps (or_failure o r)
  unfolding verdict_status or_failure HasFailed
  verdict_status_next none r h = rw accepted_self (status_first _ r)
  verdict_status_next (some f) r h = rw h (status_failed _ r f.status)

  verdict_message_next :
      (o : Option TestCaseResult) (r : TestCaseResult)
      → HasFailed o
      → message_next
          (text_eq r.status accepted_status)
          (text_eq (verdict_status ps o) accepted_status)
          r
          (verdict_message ps o)
        ≡ verdict_message ps (or_failure o r)
  unfolding verdict_status verdict_message or_failure HasFailed
  verdict_message_next none r h = rw accepted_self (message_first _ r)
  verdict_message_next (some f) r h = rw h (message_failed _ r (error_message_for_test_case ps f))

  add_result-summary :
      (rs : List TestCaseResult) (r : TestCaseResult)
      → add_result ps r (summary ps rs) ≡ summary ps (rs ++ r ∷ [])
  unfolding add_result summary outcome status_next message_next
  add_result-summary rs r =
      rw
        (
          first_failure-snoc rs r,
          longest-snoc rs r,
          largest-snoc rs r,
          ← verdict_status_next (first_failure rs) r (first_failure-HasFailed rs),
          ← verdict_message_next (first_failure rs) r (first_failure-HasFailed rs),
        )
        refl

  pub add_results-summary :
      (rs qs : List TestCaseResult) → add_results ps rs (summary ps qs) ≡ summary ps (qs ++ rs)
  unfolding add_results
  add_results-summary [] qs = ap (summary ps) (sym (append-nil qs))
  add_results-summary (r ∷ rs) qs =
      ap (add_results ps rs) (add_result-summary qs r)
      ∙ add_results-summary rs (qs ++ r ∷ [])
      ∙ ap (summary ps) (append_assoc qs (r ∷ []) rs)
