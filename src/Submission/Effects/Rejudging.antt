-- ===== src/Submission/Effects/Rejudging.antt =====
-- What the transaction of `rejudge_submission` does when it succeeds.
use go_judge_system.Prelude.{
  ℤ, Text, trim_space, true, Bool-cases, ◌≡◌, inl, inr, none, some, arith,
}
use go_judge_system.Submission.Entity.{
  Submission, is_terminal_status, reset_for_rejudge, SubmissionAttempt, by_admin_rejudge,
  new_submission_attempt,
}
use go_judge_system.Submission.Tables.{
  Tables, find_submission, modify_submission, find_attempt, Backend,
}
use go_judge_system.Submission.Store.{
  updated_row, insert_attempt_row, insert_outbox_row, outbox_message, get_by_id,
  update_submission_row, create_attempt_row, publish_job,
}
use go_judge_system.Submission.Create.{Services}
use go_judge_system.Submission.Rejudge.{rejudge_job, rejudge_write, rejudge_locked, rejudge_tx}
use go_judge_system.Submission.Effects.{
  Ensures, >>=-Ensures, get_by_id-eq_ok, update_submission_row-eq_ok, create_attempt_row-eq_ok,
  publish_job-eq_ok,
}

module _ (svc : Services) where
  -- The submission with its new attempt, as it goes back to the queue.
  unfoldable pub requeued : Text → Submission → Submission
  requeued attempt_id s = reset_for_rejudge svc.now (record s { current_attempt_id = attempt_id })

  unfoldable pub rejudge_attempt : Text → Text → Submission → SubmissionAttempt
  rejudge_attempt user_id attempt_id s =
      new_submission_attempt svc.now s.id attempt_id by_admin_rejudge user_id

  unfoldable pub rejudged_tables : Text → Text → Submission → Tables → Tables
  unfolding requeued rejudge_attempt
  rejudged_tables user_id attempt_id s t =
      let s' = requeued attempt_id s in
      let updated = record t {
        submissions = modify_submission s'.id (updated_row s') t.submissions;
      } in
      insert_outbox_row (outbox_message svc.job_topic svc.now (rejudge_job svc.now s'))
        (insert_attempt_row (rejudge_attempt user_id attempt_id s) updated)

module _ (db : Backend) (svc : Services) where
  rejudge_write-eq_ok :
      (user_id attempt_id : Text) (s : Submission) (t : Tables)
      → Ensures (rejudge_write db svc user_id attempt_id s) t λ s' t'.
        (t' ≡ rejudged_tables svc user_id attempt_id s t)
        × (find_attempt (trim_space attempt_id) t.attempts ≡ none)
  unfolding rejudge_write rejudged_tables new_submission_attempt
  rejudge_write-eq_ok user_id attempt_id s t =
      >>=-Ensures (update_submission_row db _) _ t _ λ u t1 h1.
        >>=-Ensures (create_attempt_row db _) _ t1 _ λ v t2 h2.
          >>=-Ensures (publish_job db _ _ _) _ t2 _ λ w t3 h3 s' t' k. ground (
            arith,
            update_submission_row-eq_ok db _ t u t1 h1,
            create_attempt_row-eq_ok db _ t1 v t2 h2,
            publish_job-eq_ok db _ _ _ t2 w t3 h3,
          )

  rejudge_locked-eq_ok :
      (user_id attempt_id : Text) (s : Submission) (t : Tables)
      → Ensures (rejudge_locked db svc user_id attempt_id s) t λ s' t'.
        (is_terminal_status s.status ≡ true)
        × (t' ≡ rejudged_tables svc user_id attempt_id s t)
        × (find_attempt (trim_space attempt_id) t.attempts ≡ none)
  unfolding rejudge_locked
  rejudge_locked-eq_ok user_id attempt_id s t s' t' h =
      elim (Bool-cases (is_terminal_status s.status)) [
        | inl e ↦
            let r = rejudge_write-eq_ok user_id attempt_id s t s' t' (rw e at h) in (e, r.0, r.1)
        | inr e ↦ cc (rw e at h)
      ]

  -- The submission had ended, under the lock, and the attempt is new.
  pub rejudge_tx-eq_ok :
      (user_id attempt_id : Text) (k : ℤ) (t : Tables)
      → Ensures (rejudge_tx db svc user_id attempt_id k) t λ s' t'.
        (s : Submission) × (find_submission k t.submissions ≡ some s)
        × (is_terminal_status s.status ≡ true)
        × (t' ≡ rejudged_tables svc user_id attempt_id s t)
        × (find_attempt (trim_space attempt_id) t.attempts ≡ none)
  unfolding rejudge_tx
  rejudge_tx-eq_ok user_id attempt_id k t = >>=-Ensures (get_by_id db k) _ t _ λ s t1 h1 s' t' h.
      let (found, same) = get_by_id-eq_ok db k t s t1 h1 in
      let r = rejudge_locked-eq_ok user_id attempt_id s t s' t' (rw same at h) in
      (s, found, r.0, r.1, r.2)
