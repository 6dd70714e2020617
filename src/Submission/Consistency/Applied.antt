-- ===== src/Submission/Consistency/Applied.antt =====
-- Applying a result keeps the tables consistent.
use mathlib.Core.Option.{some-injective}
use go_judge_system.Prelude.{
  ℕ, ◌<◌, ℤ, ℤ_discrete, pos, Text, trim_space, true, ◌≡◌, refl, sym, ap, subst, ◌∙◌, ◌≢◌, none,
  some, [],
}
use go_judge_system.Submission.Entity.{
  Submission, is_terminal_status, mark_completed, SubmissionAttempt, ResultMessage,
}
use go_judge_system.Submission.Tables.{
  Tables, find_submission, modify_submission, find_attempt, modify_attempt, results_of, Backend,
}
use go_judge_system.Submission.Tables.Laws.{
  find_submission-id, find_submission-modify, find_submission-modify_ne,
  find_submission-modify_none, find_attempt-modify, find_attempt-modify_ne,
  find_attempt-of_modify_none, results_of-replaced_ne,
}
use go_judge_system.Submission.Store.{updated_row, completed_attempt}
use go_judge_system.Submission.Apply.{Checked, completed}
use go_judge_system.Submission.Effects.{replaced}
use go_judge_system.Submission.Effects.Applying.{applied_tables}
use go_judge_system.Submission.Consistency.{IsLinked, IsLinked-keep, IsConsistent}

module _ (db : Backend) (hide_paths : Text → Text) (now : ℕ) (msg : ResultMessage) (c : Checked)
    (s : Submission) (t : Tables) (ok : IsConsistent t)
    (found : find_submission msg.submission_id t.submissions ≡ some s)
    (current : s.current_attempt_id ≡ msg.attempt_id)
    (ended : is_terminal_status c.status ≡ true) where
  s' : Submission
  s' = completed db hide_paths now msg c.status s

  after : Tables
  after = applied_tables db hide_paths now msg c s t

  keeps_id : (x : Submission) → (updated_row s' x).id ≡ x.id
  unfolding updated_row
  keeps_id x = refl

  finish : SubmissionAttempt → SubmissionAttempt
  finish = completed_attempt now c.status msg.testcase_version msg.test_count msg.dataset_checksum

  keeps_attempt_id : (a : SubmissionAttempt) → (finish a).attempt_id ≡ a.attempt_id
  unfolding finish completed_attempt
  keeps_attempt_id a = refl

  link : IsLinked t s
  link = ok.linked msg.submission_id s found

  -- The key that the attempt and the results are updated at.
  same_key : trim_space msg.attempt_id ≡ s.current_attempt_id
  same_key = subst (λ a. trim_space a ≡ s.current_attempt_id) current link.trimmed

  same_id : s'.id ≡ msg.submission_id
  unfolding s' completed mark_completed
  same_id = find_submission-id msg.submission_id t.submissions s found

  applied_fresh :
      (n : ℕ) → after.submission_seq < n → find_submission (pos n) after.submissions ≡ none
  unfolding after s' applied_tables
  applied_fresh n h =
      find_submission-modify_none s'.id (updated_row s') keeps_id (pos n) t.submissions
        (ok.fresh n h)

  at_attempt :
      (a : Text)
      → find_attempt a after.attempts
        ≡ find_attempt a (modify_attempt s.current_attempt_id finish t.attempts)
  unfolding after finish applied_tables
  at_attempt a = ap (λ k. find_attempt a (modify_attempt k finish t.attempts)) same_key

  attempt_other :
      (a : Text)
      → a ≢ s.current_attempt_id
      → find_attempt a after.attempts ≡ find_attempt a t.attempts
  attempt_other a ne =
      at_attempt a
      ∙ find_attempt-modify_ne s.current_attempt_id finish keeps_attempt_id a t.attempts ne

  results_other :
      (k : ℤ) (a : Text)
      → a ≢ s.current_attempt_id
      → results_of k a after.results ≡ results_of k a t.results
  unfolding after applied_tables replaced
  results_other k a ne =
      results_of-replaced_ne msg.submission_id k (trim_space msg.attempt_id) a c.results t.results
        (λ e. ne (e ∙ same_key))

  applied_self : IsLinked after (updated_row s' s)
  unfolding after s' finish applied_tables completed mark_completed completed_attempt updated_row
  applied_self = record {
    attempt = finish link.attempt;
    trimmed = link.trimmed;
    recorded =
        at_attempt s.current_attempt_id
        ∙ find_attempt-modify s.current_attempt_id finish keeps_attempt_id t.attempts link.attempt
            link.recorded;
    owner = link.owner;
    agrees = refl;
    queued = link.queued;
    clean = λ h. cc;
  }

  -- Another submission has another attempt.
  other_attempt :
      (j : ℤ) (x : Submission)
      → find_submission j t.submissions ≡ some x
      → j ≢ msg.submission_id
      → x.current_attempt_id ≢ s.current_attempt_id
  other_attempt j x e ne same =
      let l = ok.linked j x e in
      let one : l.attempt ≡ link.attempt =
        some-injective _ _
          (sym l.recorded ∙ ap (λ a. find_attempt a t.attempts) same ∙ link.recorded) in
      ne (
        sym (find_submission-id j t.submissions x e)
        ∙ sym l.owner
        ∙ ap (λ a. a.submission_id) one
        ∙ link.owner
        ∙ find_submission-id msg.submission_id t.submissions s found)

  applied_other :
      (j : ℤ) (x : Submission)
      → find_submission j t.submissions ≡ some x
      → j ≢ msg.submission_id
      → IsLinked after x
  unfolding after applied_tables
  applied_other j x e ne =
      let l = ok.linked j x e in
      let differs = other_attempt j x e ne in
      IsLinked-keep t after x l (attempt_other _ differs ∙ l.recorded) l.queued
        (λ _. results_other _ _ differs)

  at_key :
      (j : ℤ)
      → find_submission j after.submissions
        ≡ find_submission j (modify_submission msg.submission_id (updated_row s') t.submissions)
  unfolding after applied_tables s'
  at_key j =
      ap (λ i. find_submission j (modify_submission i (updated_row s') t.submissions)) same_id

  at_self : find_submission msg.submission_id after.submissions ≡ some (updated_row s' s)
  at_self =
      at_key msg.submission_id
      ∙ find_submission-modify msg.submission_id (updated_row s') keeps_id t.submissions s found

  applied-IsLinked :
      (j : ℤ) (x : Submission) → find_submission j after.submissions ≡ some x → IsLinked after x
  applied-IsLinked j x h = elim (ℤ_discrete j msg.submission_id) [
    | yes e ↦
        subst (IsLinked after)
          (some-injective _ _
            (sym at_self ∙ subst (λ i. find_submission i after.submissions ≡ some x) e h))
          applied_self
    | no ne ↦
        applied_other j x
          (sym (
              find_submission-modify_ne msg.submission_id (updated_row s') keeps_id j t.submissions
                ne)
            ∙ sym (at_key j)
            ∙ h)
          ne
  ]

  applied_orphans :
      (j : ℤ) (a : Text) → find_attempt a after.attempts ≡ none → results_of j a after.results ≡ []
  applied_orphans j a h =
      let absent =
        find_attempt-of_modify_none s.current_attempt_id finish keeps_attempt_id a t.attempts
          (sym (at_attempt a) ∙ h) in
      results_other j a
        (λ e. cc (sym absent ∙ ap (λ b. find_attempt b t.attempts) e ∙ link.recorded))
      ∙ ok.orphans j a absent

  pub applied_tables-IsConsistent : IsConsistent (applied_tables db hide_paths now msg c s t)
  unfolding after
  applied_tables-IsConsistent = record {
    fresh = applied_fresh;
    linked = applied-IsLinked;
    orphans = applied_orphans;
  }
