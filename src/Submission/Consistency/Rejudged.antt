-- ===== src/Submission/Consistency/Rejudged.antt =====
-- Sending a submission back to the judge keeps the tables consistent.
use mathlib.Core.Option.{some-injective}
use go_judge_system.Prelude.{
  ℕ, suc, ◌<◌, ℤ, ℤ_discrete, pos, Text, trim_space, Option-cases, ◌≡◌, refl, sym, ap, subst, ◌∙◌,
  ◌≢◌, inl, inr, none, some, [], arith,
}
use go_judge_system.Submission.Entity.{
  Submission, reset_for_rejudge, SubmissionAttempt, new_submission_attempt,
}
use go_judge_system.Submission.Tables.{
  Tables, find_submission, modify_submission, find_attempt, results_of,
}
use go_judge_system.Submission.Tables.Laws.{
  find_submission-id, find_submission-modify, find_submission-modify_ne,
  find_submission-modify_none, find_attempt-append, find_attempt-append_new, has_job-append,
  has_job-append_self,
}
use go_judge_system.Submission.Store.{
  updated_row, insert_attempt_row, insert_outbox_row, outbox_message,
}
use go_judge_system.Submission.Create.{Services}
use go_judge_system.Submission.Rejudge.{rejudge_job}
use go_judge_system.Submission.Effects.Rejudging.{requeued, rejudge_attempt, rejudged_tables}
use go_judge_system.Submission.Consistency.{IsLinked, IsLinked-keep, IsConsistent}

module _ (svc : Services) (user_id attempt_id : Text) (k : ℤ) (s : Submission) (t : Tables)
    (c : IsConsistent t) (found : find_submission k t.submissions ≡ some s)
    (trimmed : trim_space attempt_id ≡ attempt_id)
    (unused : find_attempt attempt_id t.attempts ≡ none) where
  s' : Submission
  s' = requeued svc attempt_id s

  after : Tables
  after = rejudged_tables svc user_id attempt_id s t

  keeps_id : (x : Submission) → (updated_row s' x).id ≡ x.id
  unfolding updated_row
  keeps_id x = refl

  rejudged_fresh :
      (n : ℕ) → after.submission_seq < n → find_submission (pos n) after.submissions ≡ none
  unfolding after s' rejudged_tables insert_attempt_row insert_outbox_row
  rejudged_fresh n h =
      find_submission-modify_none s'.id (updated_row s') keeps_id (pos n) t.submissions
        (c.fresh n h)

  attempt : SubmissionAttempt
  attempt = record (rejudge_attempt svc user_id attempt_id s) { id = pos (suc t.attempt_seq) }

  rejudged_self : IsLinked after (updated_row s' s)
  unfolding after s' attempt rejudged_tables rejudge_attempt requeued insert_attempt_row
      insert_outbox_row new_submission_attempt outbox_message rejudge_job reset_for_rejudge
      updated_row
  rejudged_self = record {
    attempt = attempt;
    trimmed = trimmed;
    recorded =
        ground (arith, trimmed, unused, find_attempt-append_new attempt_id t.attempts attempt);
    owner = refl;
    agrees = refl;
    queued = has_job-append_self t.outbox _;
    clean = λ h. c.orphans s.id attempt_id unused;
  }

  rejudged_other :
      (j : ℤ) (x : Submission) → find_submission j t.submissions ≡ some x → IsLinked after x
  unfolding after rejudged_tables insert_attempt_row insert_outbox_row
  rejudged_other j x e =
      let l = c.linked j x e in
      IsLinked-keep t after x l (find_attempt-append _ t.attempts _ l.attempt l.recorded)
        (has_job-append _ _ t.outbox _ l.queued) (λ _. refl)

  same_id : s'.id ≡ k
  unfolding s' requeued reset_for_rejudge
  same_id = find_submission-id k t.submissions s found

  at_key :
      (j : ℤ)
      → find_submission j after.submissions
        ≡ find_submission j (modify_submission k (updated_row s') t.submissions)
  unfolding after rejudged_tables insert_attempt_row insert_outbox_row s'
  at_key j =
      ap (λ i. find_submission j (modify_submission i (updated_row s') t.submissions)) same_id

  at_self : find_submission k after.submissions ≡ some (updated_row s' s)
  at_self = at_key k ∙ find_submission-modify k (updated_row s') keeps_id t.submissions s found

  at_other : (j : ℤ) → j ≢ k → find_submission j after.submissions ≡ find_submission j t.submissions
  at_other j ne =
      at_key j ∙ find_submission-modify_ne k (updated_row s') keeps_id j t.submissions ne

  rejudged-IsLinked :
      (j : ℤ) (x : Submission) → find_submission j after.submissions ≡ some x → IsLinked after x
  rejudged-IsLinked j x h = elim (ℤ_discrete j k) [
    | yes e ↦
        subst (IsLinked after)
          (some-injective _ _
            (sym at_self ∙ subst (λ i. find_submission i after.submissions ≡ some x) e h))
          rejudged_self
    | no ne ↦ rejudged_other j x (sym (at_other j ne) ∙ h)
  ]

  rejudged_orphans :
      (j : ℤ) (a : Text) → find_attempt a after.attempts ≡ none → results_of j a after.results ≡ []
  unfolding after rejudged_tables insert_attempt_row insert_outbox_row
  rejudged_orphans j a h = elim (Option-cases (find_attempt a t.attempts)) [
    | inl e ↦ c.orphans j a e
    | inr (x, e) ↦ cc (find_attempt-append a t.attempts _ x e)
  ]

  pub rejudged_tables-IsConsistent : IsConsistent (rejudged_tables svc user_id attempt_id s t)
  unfolding after
  rejudged_tables-IsConsistent = record {
    fresh = rejudged_fresh;
    linked = rejudged-IsLinked;
    orphans = rejudged_orphans;
  }
