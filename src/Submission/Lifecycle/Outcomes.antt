-- ===== src/Submission/Lifecycle/Outcomes.antt =====
-- How the tables leave an operation: as they were, or as a success of its transaction leaves them.
use go_judge_system.Prelude.{
  ℕ, ℤ, Text, is_empty, trim_space, trim_space_idem, true, Bool-cases, ◌≡◌, refl, subst, ap, not,
  ◌||◌, is_positive, List, inl, inr, Option, none, some,
}
use go_judge_system.Submission.Errors.{Fault, Result, ok, err, ok-injective}
use go_judge_system.Submission.Entity.{
  Language, Submission, Status, is_terminal_status, new_submission, ResultMessage, parse_status,
  SubmissionResult,
}
use go_judge_system.Submission.Tables.{Tables, Backend, commit}
use go_judge_system.Submission.Store.{Db, settle, conclude, execute_in_tx}
use go_judge_system.Submission.Create.{
  Claims, ProblemMetadata, Services, CreateSubmissionRequest, create_tx, store_submission, admit,
  with_problem, with_language, create_submission,
}
use go_judge_system.Submission.Rejudge.{
  rejudge_tx, rejudge_seen, with_seen, with_check, rejudge_submission,
}
use go_judge_system.Submission.Apply.{
  terminal_or_error, map_terminal_status, Checked, checked, check_result, check_status, check_items,
  apply_tx, with_checked, apply_judge_result,
}
use go_judge_system.Submission.Effects.{Ensures}

settle_state :
    {A : Type 0} (db : Backend) (f : Option Fault) (a : A) (t' t : Tables) (P : Tables → Type 0)
    → P t
    → P t'
    → P (settle db f a t' t).1
unfolding settle
settle_state db none a t' t P before after = after
settle_state db (some f) a t' t P before after = before

conclude_state :
    {A : Type 0} (db : Backend) (r : Result (A × Tables)) (t : Tables) (P : Tables → Type 0)
    → P t
    → ((a : A) (t' : Tables) → r ≡ ok (a, t') → P t')
    → P (conclude db r t).1
unfolding conclude
conclude_state db (err e) t P before after = before
conclude_state db (ok (a, t')) t P before after =
    settle_state db (db.refuses commit t') a t' t P before (after a t' refl)

-- The tables after a transaction are those before, or those that its success leaves.
pub execute_in_tx_state :
    {A : Type 0} (db : Backend) (m : Db A) (t : Tables) (P : Tables → Type 0)
    → P t
    → Ensures m t (λ _. P)
    → P (execute_in_tx db m t).1
unfolding execute_in_tx
execute_in_tx_state db m t P before after = conclude_state db (m t) t P before after

terminal_or_error_terminal :
    (r : Option Status) (s : Status) → terminal_or_error r ≡ ok s → is_terminal_status s ≡ true
unfolding terminal_or_error
terminal_or_error_terminal none s h = cc h
terminal_or_error_terminal (some a) s h = elim (Bool-cases (is_terminal_status a)) [
  | inl e ↦ subst (λ x. is_terminal_status x ≡ true) (ok-injective _ _ (rw e at h)) e
  | inr e ↦ cc (rw e at h)
]

checked_status :
    (s : Status) (rs : Result (List SubmissionResult)) (k : Checked)
    → checked s rs ≡ ok k
    → s ≡ k.status
unfolding checked
checked_status s (err e) k h = cc h
checked_status s (ok rs) k h = ap (λ x. x.status) (ok-injective _ _ h)

check_items_status :
    (msg : ResultMessage) (s : Status) (v : Result (Unit {0})) (k : Checked)
    → check_items msg s v ≡ ok k
    → s ≡ k.status
unfolding check_items
check_items_status msg s (err e) k h = cc h
check_items_status msg s (ok _) k h = checked_status s _ k h

check_status_terminal :
    (msg : ResultMessage) (r : Option Status) (k : Checked)
    → check_status msg (terminal_or_error r) ≡ ok k
    → is_terminal_status k.status ≡ true
unfolding check_status
check_status_terminal msg r k h = go (terminal_or_error r) refl h
  where
    go :
        (q : Result Status)
        → terminal_or_error r ≡ q
        → check_status msg q ≡ ok k
        → is_terminal_status k.status ≡ true
    go (err e) same g = cc g
    go (ok s) same g =
        subst (λ x. is_terminal_status x ≡ true) (check_items_status msg s _ k g)
          (terminal_or_error_terminal r s same)

-- A message that passes the checks has a terminal status.
pub check_result_terminal :
    (msg : ResultMessage) (k : Checked)
    → check_result msg ≡ ok k
    → is_terminal_status k.status ≡ true
unfolding check_result map_terminal_status
check_result_terminal msg k h =
    let unusable = not (is_positive msg.submission_id) || is_empty (trim_space msg.attempt_id) in
    elim (Bool-cases unusable) [
      | inl e ↦ cc (rw e at h)
      | inr e ↦ check_status_terminal msg (parse_status msg.status) k (rw e at h)
    ]

module _ (db : Backend) (svc : Services) (claims : Claims) (req : CreateSubmissionRequest)
    (t : Tables) (P : Tables → Type 0) (before : P t)
    (after : (slug : Text) (draft : Submission)
      → trim_space draft.current_attempt_id ≡ draft.current_attempt_id
      → draft.status ≡ Status.pending
      → Ensures (create_tx db svc slug claims.user_id draft) t (λ _. P)) where
  store_submission_state :
      (language : Language) (problem : ProblemMetadata)
      → P (store_submission db svc claims req language problem t).1
  unfolding store_submission new_submission
  store_submission_state language problem =
      elim (Bool-cases (is_empty (trim_space svc.new_attempt_id))) [
        | inl e ↦ rw e before
        | inr e ↦ rw e (
            execute_in_tx_state db _ t P before
              (after problem.slug _ (trim_space_idem svc.new_attempt_id) refl))
      ]

  admit_state :
      (language : Language) (problem : ProblemMetadata) (r : Result (Unit {0}))
      → P (admit db svc claims req language problem r t).1
  unfolding admit
  admit_state language problem (err e) = before
  admit_state language problem (ok _) = store_submission_state language problem

  with_problem_state :
      (language : Language) (r : Result ProblemMetadata)
      → P (with_problem db svc claims req language r t).1
  unfolding with_problem
  with_problem_state language (err e) = before
  with_problem_state language (ok problem) = admit_state language problem _

  with_language_state : (r : Result Language) → P (with_language db svc claims req r t).1
  unfolding with_language
  with_language_state (err e) = before
  with_language_state (ok language) = with_problem_state language _

  pub create_submission_state : P (create_submission db svc claims req t).1
  unfolding create_submission
  create_submission_state = with_language_state _

module _ (db : Backend) (svc : Services) (claims : Claims) (k : ℤ) (t : Tables)
    (P : Tables → Type 0) (unchanged : P t)
    (after : (attempt_id : Text)
      → trim_space attempt_id ≡ attempt_id
      → Ensures (rejudge_tx db svc claims.user_id attempt_id k) t (λ _. P)) where
  rejudge_seen_state : (r : Result (Unit {0})) → P (rejudge_seen db svc claims k r t).1
  unfolding rejudge_seen
  rejudge_seen_state (err e) = unchanged
  rejudge_seen_state (ok _) = elim (Bool-cases (is_empty (trim_space svc.new_attempt_id))) [
    | inl e ↦ rw e unchanged
    | inr e ↦
        rw e (execute_in_tx_state db _ t P unchanged (after _ (trim_space_idem svc.new_attempt_id)))
  ]

  with_seen_state : (r : Result Submission) → P (with_seen db svc claims k r t).1
  unfolding with_seen
  with_seen_state (err e) = unchanged
  with_seen_state (ok s) = rejudge_seen_state _

  with_check_state :
      (r : Result (Unit {0})) (before : Tables) → P (with_check db svc claims k r before t).1
  unfolding with_check
  with_check_state (err e) before = unchanged
  with_check_state (ok _) before = with_seen_state _

  pub rejudge_submission_state :
      (before : Tables) → P (rejudge_submission db svc claims k before t).1
  unfolding rejudge_submission
  rejudge_submission_state before = with_check_state _ before

module _ (db : Backend) (hide_paths : Text → Text) (now : ℕ) (msg : ResultMessage) (t : Tables)
    (P : Tables → Type 0) (before : P t)
    (after : (k : Checked)
      → check_result msg ≡ ok k
      → Ensures (apply_tx db hide_paths now msg k) t (λ _. P)) where
  with_checked_state :
      (r : Result Checked) → check_result msg ≡ r → P (with_checked db hide_paths now msg r t).1
  unfolding with_checked
  with_checked_state (err e) same = before
  with_checked_state (ok k) same = execute_in_tx_state db _ t P before (after k same)

  pub apply_judge_result_state : P (apply_judge_result db hide_paths now msg t).1
  unfolding apply_judge_result
  apply_judge_result_state = with_checked_state (check_result msg) refl
