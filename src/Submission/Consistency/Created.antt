-- ===== src/Submission/Consistency/Created.antt =====
-- Creating a submission keeps the tables consistent.
use go_judge_system.Prelude.{
  ℕ, suc, ◌<◌, ℤ, pos, Text, trim_space, Option-cases, ◌≡◌, refl, sym, subst, inl, inr, none, some,
  [], arith,
}
use go_judge_system.Submission.Entity.{
  Submission, Status, SubmissionAttempt, new_submission_attempt,
}
use go_judge_system.Submission.Tables.{Tables, find_submission, find_attempt, results_of}
use go_judge_system.Submission.Tables.Laws.{
  find_submission-append, find_submission-append_new, find_attempt-append, find_attempt-append_new,
  has_job-append, has_job-append_self,
}
use go_judge_system.Submission.Store.{
  insert_row, insert_attempt_row, insert_outbox_row, outbox_message,
}
use go_judge_system.Submission.Create.{Services, create_job}
use go_judge_system.Submission.Effects.Creating.{created_attempt, created_tables}
use go_judge_system.Submission.Consistency.{IsLinked, IsLinked-keep, IsConsistent}

module _ (svc : Services) (slug user_id : Text) (draft : Submission) (t : Tables)
    (c : IsConsistent t) (trimmed : trim_space draft.current_attempt_id ≡ draft.current_attempt_id)
    (waiting : draft.status ≡ Status.pending)
    (unused : find_attempt draft.current_attempt_id t.attempts ≡ none) where
  row : Submission
  row = (insert_row draft t).0

  after : Tables
  after = created_tables svc slug user_id draft t

  created_fresh :
      (n : ℕ) → after.submission_seq < n → find_submission (pos n) after.submissions ≡ none
  unfolding after created_tables insert_row insert_attempt_row insert_outbox_row
  created_fresh n h =
      ground
        (arith, c.fresh n, find_submission-append_new (pos n) t.submissions (insert_row draft t).0)

  row_attempt : SubmissionAttempt
  row_attempt = record (created_attempt svc user_id draft t) { id = pos (suc t.attempt_seq) }

  created_row-IsLinked : IsLinked after row
  unfolding after row row_attempt created_tables created_attempt insert_row insert_attempt_row
      insert_outbox_row new_submission_attempt outbox_message create_job
  created_row-IsLinked = record {
    attempt = row_attempt;
    trimmed = trimmed;
    recorded = ground (
      arith,
      trimmed,
      unused,
      find_attempt-append_new draft.current_attempt_id t.attempts row_attempt,
    );
    owner = refl;
    agrees = sym waiting;
    queued = has_job-append_self t.outbox _;
    clean = λ h. c.orphans (pos (suc t.submission_seq)) draft.current_attempt_id unused;
  }

  created-IsLinked :
      (k : ℤ) (s : Submission) → find_submission k after.submissions ≡ some s → IsLinked after s
  unfolding after row created_tables insert_row insert_attempt_row insert_outbox_row
  created-IsLinked k s h = elim (Option-cases (find_submission k t.submissions)) [
    | inl new ↦
        let found = find_submission-append_new k t.submissions row new in
        let same : row ≡ s = ground (arith, found) in
        subst (IsLinked after) same created_row-IsLinked
    | inr (old, e) ↦
        let l = c.linked k old e in
        let same : old ≡ s = ground (arith, find_submission-append k t.submissions row old e) in
        subst (IsLinked after) same (
          IsLinked-keep t after old l (find_attempt-append _ t.attempts _ l.attempt l.recorded)
            (has_job-append _ _ t.outbox _ l.queued) (λ _. refl))
  ]

  created_orphans :
      (k : ℤ) (a : Text) → find_attempt a after.attempts ≡ none → results_of k a after.results ≡ []
  unfolding after created_tables insert_row insert_attempt_row insert_outbox_row
  created_orphans k a h = elim (Option-cases (find_attempt a t.attempts)) [
    | inl e ↦ c.orphans k a e
    | inr (x, e) ↦ cc (find_attempt-append a t.attempts _ x e)
  ]

  pub created_tables-IsConsistent : IsConsistent (created_tables svc slug user_id draft t)
  unfolding after
  created_tables-IsConsistent = record {
    fresh = created_fresh;
    linked = created-IsLinked;
    orphans = created_orphans;
  }
