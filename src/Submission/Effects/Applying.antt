-- ===== src/Submission/Effects/Applying.antt =====
-- What the transaction of `apply_judge_result` does when it succeeds.
use go_judge_system.Prelude.{
  ℕ, Text, text_eq, text_eq_iff, is_empty, trim_space, false, Bool-cases, ◌≡◌, ◌⊎◌, inl, inr, none,
  some, arith,
}
use go_judge_system.Submission.Errors.{ok}
use go_judge_system.Submission.Entity.{
  Submission, is_terminal_status, submission_event, ResultMessage,
}
use go_judge_system.Submission.Tables.{
  Tables, find_submission, modify_submission, modify_attempt, Backend,
}
use go_judge_system.Submission.Store.{
  pure, updated_row, completed_attempt, get_by_id, update_submission_row, mark_attempt_completed,
  replace_results,
}
use go_judge_system.Submission.Apply.{
  Checked, Published, completed, apply_write, apply_locked, apply_tx,
}
use go_judge_system.Submission.Effects.{
  Ensures, >>=-Ensures, get_by_id-eq_ok, update_submission_row-eq_ok, mark_attempt_completed-eq_ok,
  replaced, replace_results-eq_ok,
}

module _ (db : Backend) (hide_paths : Text → Text) (now : ℕ) where
  unfoldable pub applied_tables : ResultMessage → Checked → Submission → Tables → Tables
  applied_tables msg c s t =
      let s' = completed db hide_paths now msg c.status s in
      let k = trim_space msg.attempt_id in
      record t {
        submissions = modify_submission s'.id (updated_row s') t.submissions;
        attempts =
            modify_attempt k
              (completed_attempt now c.status msg.testcase_version msg.test_count
                msg.dataset_checksum)
              t.attempts;
        results = replaced msg.submission_id k c.results t.results;
      }

  apply_write-eq_ok :
      (msg : ResultMessage) (c : Checked) (s : Submission) (t : Tables)
      → Ensures (apply_write db hide_paths now msg c s) t λ p t'.
        (p ≡ some (submission_event (completed db hide_paths now msg c.status s)))
        × (t' ≡ applied_tables msg c s t)
  unfolding apply_write applied_tables
  apply_write-eq_ok msg c s t = >>=-Ensures (update_submission_row db _) _ t _ λ u t1 h1.
      >>=-Ensures (replace_results db _ _ _) _ t1 _ λ v t2 h2.
        >>=-Ensures (mark_attempt_completed db _ _ _ _ _ _) _ t2 _ λ w t3 h3 p t' k. ground (
          arith,
          update_submission_row-eq_ok db _ t u t1 h1,
          replace_results-eq_ok db _ _ _ t1 v t2 h2,
          mark_attempt_completed-eq_ok db _ _ _ _ _ _ t2 w t3 h3,
        )

  -- A submission that a message applies to: it waits for this attempt.
  abbrev pub Awaits : ResultMessage → Submission → Type 0
  Awaits msg s = (s.current_attempt_id ≡ msg.attempt_id) × (is_terminal_status s.status ≡ false)

  abbrev pub Applied : ResultMessage → Checked → Submission → Published → Tables → Tables → Type 0
  Applied msg c s p t t' =
      ((p ≡ none) × (t' ≡ t))
      ⊎ (Awaits msg s
          × ((p ≡ some (submission_event (completed db hide_paths now msg c.status s)))
              × (t' ≡ applied_tables msg c s t)))

  untouched :
      (msg : ResultMessage) (c : Checked) (s : Submission) (t : Tables) (p : Published)
      (t' : Tables)
      → pure {A = Published} none t ≡ ok (p, t')
      → Applied msg c s p t t'
  untouched msg c s t p t' h = ground arith

  apply_locked-eq_ok :
      (msg : ResultMessage) (c : Checked) (s : Submission) (t : Tables)
      → Ensures (apply_locked db hide_paths now msg c s) t λ p t'. Applied msg c s p t t'
  unfolding apply_locked
  apply_locked-eq_ok msg c s t p t' h =
      elim (Bool-cases (is_empty (trim_space s.current_attempt_id))) [
        | inl blank ↦ untouched msg c s t p t' (rw blank at h)
        | inr set ↦ elim (Bool-cases (text_eq s.current_attempt_id msg.attempt_id)) [
          | inr other ↦ untouched msg c s t p t' (rw (set, other) at h)
          | inl same ↦ elim (Bool-cases (is_terminal_status s.status)) [
            | inl ended ↦ untouched msg c s t p t' (rw (set, same, ended) at h)
            | inr waits ↦ inr (
              ((text_eq_iff _ _).0 same, waits),
              apply_write-eq_ok msg c s t p t' (rw (set, same, waits) at h),
            )
          ]
        ]
      ]

  pub apply_tx-eq_ok :
      (msg : ResultMessage) (c : Checked) (t : Tables)
      → Ensures (apply_tx db hide_paths now msg c) t λ p t'.
        (s : Submission) × (find_submission msg.submission_id t.submissions ≡ some s)
        × Applied msg c s p t t'
  unfolding apply_tx
  apply_tx-eq_ok msg c t = >>=-Ensures (get_by_id db msg.submission_id) _ t _ λ s t1 h1 p t' h.
      let (found, same) = get_by_id-eq_ok db msg.submission_id t s t1 h1 in
      (s, found, apply_locked-eq_ok msg c s t p t' (rw same at h))
