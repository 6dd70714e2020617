-- ===== src/Submission/Effects/Creating.antt =====
-- What the transaction of `create_submission` does when it succeeds.
use go_judge_system.Prelude.{Text, trim_space, ◌≡◌, none, arith}
use go_judge_system.Submission.Entity.{
  Submission, SubmissionAttempt, by_submission, new_submission_attempt,
}
use go_judge_system.Submission.Tables.{Tables, find_attempt, Backend}
use go_judge_system.Submission.Store.{
  insert_row, insert_attempt_row, insert_outbox_row, outbox_message, create_submission_row,
  create_attempt_row, publish_job,
}
use go_judge_system.Submission.Create.{Services, create_tx, create_job}
use go_judge_system.Submission.Effects.{
  Ensures, >>=-Ensures, create_submission_row-eq_ok, create_attempt_row-eq_ok, publish_job-eq_ok,
}

module _ (svc : Services) where
  -- The attempt that goes with a draft that is inserted at `t`.
  unfoldable pub created_attempt : Text → Submission → Tables → SubmissionAttempt
  created_attempt user_id draft t =
      let s = (insert_row draft t).0 in
      new_submission_attempt svc.now s.id s.current_attempt_id by_submission user_id

  unfoldable pub created_tables : Text → Text → Submission → Tables → Tables
  unfolding created_attempt
  created_tables slug user_id draft t =
      let (s, t1) = insert_row draft t in
      let job = create_job slug svc.now s in
      insert_outbox_row (outbox_message svc.job_topic svc.now job)
        (insert_attempt_row (created_attempt user_id draft t) t1)

module _ (db : Backend) (svc : Services) where
  pub create_tx-eq_ok :
      (slug user_id : Text) (draft : Submission) (t : Tables)
      → Ensures (create_tx db svc slug user_id draft) t λ s t'.
        (t' ≡ created_tables svc slug user_id draft t)
        × (s ≡ (insert_row draft t).0)
        × (find_attempt (trim_space draft.current_attempt_id) t.attempts ≡ none)
  unfolding create_tx created_tables insert_row new_submission_attempt
  create_tx-eq_ok slug user_id draft t =
      >>=-Ensures (create_submission_row db draft) _ t _ λ row t1 h1.
        >>=-Ensures (create_attempt_row db _) _ t1 _ λ u t2 h2.
          >>=-Ensures (publish_job db _ _ _) _ t2 _ λ v t3 h3 s t' k. ground (
            arith,
            create_submission_row-eq_ok db draft t row t1 h1,
            create_attempt_row-eq_ok db _ t1 u t2 h2,
            publish_job-eq_ok db _ _ _ t2 v t3 h3,
          )
