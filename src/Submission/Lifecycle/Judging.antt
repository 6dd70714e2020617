-- ===== src/Submission/Lifecycle/Judging.antt =====
-- What a result message does to the submission that it names: it ends a submission that waits for its
-- attempt, once, and changes nothing else.
use mathlib.Core.Option.{some-injective}
use go_judge_system.Prelude.{
  ℕ, Text, trim_space, true, ◌≡◌, ◌≢◌, refl, sym, ap, ◌∙◌, ◌⊎◌, inl, inr, Option, none, some, map,
}
use go_judge_system.Submission.Errors.{Fault, Result, ok, err, ok-injective}
use go_judge_system.Submission.Entity.{
  Submission, is_terminal_status, mark_completed, ResultMessage, submission_event, SubmissionEvent,
}
use go_judge_system.Submission.Tables.{
  Tables, find_submission, modify_submission, without_results, results_of, result_row_for, Backend,
  commit,
}
use go_judge_system.Submission.Tables.Laws.{
  find_submission-id, find_submission-modify, results_of-append, results_of-without_results,
}
use go_judge_system.Submission.Store.{Db, updated_row, settle, conclude, execute_in_tx}
use go_judge_system.Submission.Apply.{
  Checked, Published, check_result, completed, apply_tx, with_checked, apply_judge_result,
}
use go_judge_system.Submission.Effects.{replaced}
use go_judge_system.Submission.Effects.Applying.{apply_tx-eq_ok, applied_tables, Awaits, Applied}
use go_judge_system.Submission.Lifecycle.Outcomes.{check_result_terminal, apply_judge_result_state}

module _ {A : Type 0} (db : Backend) where
  settle-eq_ok :
      (f : Option Fault) (a b : A) (t' t u : Tables)
      → settle db f a t' t ≡ (ok b, u)
      → (a ≡ b) × (t' ≡ u)
  unfolding settle
  settle-eq_ok none a b t' t u h = (ok-injective _ _ (ap (λ x. x.0) h), ap (λ x. x.1) h)
  settle-eq_ok (some f) a b t' t u h = cc (ap (λ x. x.0) h)

  conclude-eq_ok :
      (r : Result (A × Tables)) (t : Tables) (b : A) (u : Tables)
      → conclude db r t ≡ (ok b, u)
      → r ≡ ok (b, u)
  unfolding conclude
  conclude-eq_ok (err e) t b u h = cc (ap (λ x. x.0) h)
  conclude-eq_ok (ok (a, t')) t b u h =
      let (e, e') = settle-eq_ok (db.refuses commit t') a b t' t u h in
      ap ok (ap (λ x. (x, t')) e ∙ ap (λ y. (b, y)) e')

  pub execute_in_tx-eq_ok :
      (m : Db A) (t : Tables) (b : A) (u : Tables)
      → execute_in_tx db m t ≡ (ok b, u)
      → m t ≡ ok (b, u)
  unfolding execute_in_tx
  execute_in_tx-eq_ok m t b u h = conclude-eq_ok (m t) t b u h

module _ (db : Backend) (hide_paths : Text → Text) (now : ℕ) (msg : ResultMessage) where
  with_checked-eq_ok :
      (r : Result Checked) (t : Tables) (p : Published) (u : Tables)
      → with_checked db hide_paths now msg r t ≡ (ok p, u)
      → (k : Checked) × (r ≡ ok k) × (apply_tx db hide_paths now msg k t ≡ ok (p, u))
  unfolding with_checked
  with_checked-eq_ok (err e) t p u h = cc (ap (λ x. x.0) h)
  with_checked-eq_ok (ok k) t p u h = (k, refl, execute_in_tx-eq_ok db _ t p u h)

  apply_judge_result-eq_ok :
      (t : Tables) (p : Published) (u : Tables)
      → apply_judge_result db hide_paths now msg t ≡ (ok p, u)
      → (k : Checked) × (check_result msg ≡ ok k)
        × (s : Submission) × (find_submission msg.submission_id t.submissions ≡ some s)
        × Applied db hide_paths now msg k s p t u
  unfolding apply_judge_result
  apply_judge_result-eq_ok t p u h =
      let (k, checked, run) = with_checked-eq_ok (check_result msg) t p u h in
      let (s, found, change) = apply_tx-eq_ok db hide_paths now msg k t p u run in
      (k, checked, s, found, change)

  -- A message for an ended submission, or for an attempt that is no longer the submission's current
  -- one, changes no table, whatever else it holds and whatever the database refuses.
  pub apply_judge_result-ignored :
      (t : Tables) (s : Submission)
      → find_submission msg.submission_id t.submissions ≡ some s
      → (is_terminal_status s.status ≡ true) ⊎ (s.current_attempt_id ≢ msg.attempt_id)
      → (apply_judge_result db hide_paths now msg t).1 ≡ t
  apply_judge_result-ignored t s found over =
      apply_judge_result_state db hide_paths now msg t (λ u. u ≡ t) refl
        λ k checked p t' h.
          let (x, here, change) = apply_tx-eq_ok db hide_paths now msg k t p t' h in
          let one : x ≡ s = some-injective _ _ (sym here ∙ found) in
          elim change [
            | inl (_, same) ↦ same
            | inr (awaits, _) ↦ elim over [
              | inl ended ↦ cc (sym awaits.1 ∙ ap (λ y. is_terminal_status y.status) one ∙ ended)
              | inr other ↦ elim (other (sym (ap (λ y. y.current_attempt_id) one) ∙ awaits.0)) [ ]
            ]
          ]

  applied_row :
      (k : Checked) (s : Submission) (t : Tables)
      → find_submission msg.submission_id t.submissions ≡ some s
      → find_submission msg.submission_id (applied_tables db hide_paths now msg k s t).submissions
        ≡ some (updated_row (completed db hide_paths now msg k.status s) s)
  unfolding applied_tables completed mark_completed updated_row
  applied_row k s t found =
      let f = updated_row (completed db hide_paths now msg k.status s) in
      let at = find_submission-id msg.submission_id t.submissions s found in
      ap (λ i. find_submission msg.submission_id (modify_submission i f t.submissions)) at
      ∙ find_submission-modify msg.submission_id f (λ y. refl) t.submissions s found

  applied_results :
      (k : Checked) (s : Submission) (t : Tables)
      → let a = trim_space msg.attempt_id in
        results_of msg.submission_id a (applied_tables db hide_paths now msg k s t).results
        ≡ results_of msg.submission_id a (map (result_row_for msg.submission_id a) k.results)
  unfolding applied_tables replaced
  applied_results k s t =
      rw
        (
          results_of-append msg.submission_id (trim_space msg.attempt_id)
              (without_results msg.submission_id (trim_space msg.attempt_id) t.results)
              (map (result_row_for msg.submission_id (trim_space msg.attempt_id)) k.results),
          results_of-without_results msg.submission_id (trim_space msg.attempt_id) t.results,
        )
        refl

  -- The tables before and after, and the event, of a message that was applied.
  abbrev pub IsApplication : Tables → Tables → SubmissionEvent → Type 0
  IsApplication t u e =
      (s s' : Submission) × (k : Checked) × (check_result msg ≡ ok k)
      × (find_submission msg.submission_id t.submissions ≡ some s)
      × Awaits db hide_paths now msg s
      × (find_submission msg.submission_id u.submissions ≡ some s')
      × (s'.status ≡ k.status)
      × (is_terminal_status s'.status ≡ true)
      × (e ≡ submission_event s')
      × (results_of msg.submission_id (trim_space msg.attempt_id) u.results
          ≡ results_of msg.submission_id (trim_space msg.attempt_id)
              (map (result_row_for msg.submission_id (trim_space msg.attempt_id)) k.results))

  -- The event that the operation publishes, and what the tables hold when it does: the submission
  -- waited for the attempt of the message, it has ended with the checked status, the event names it
  -- with that status, and the stored results of the attempt are exactly the checked rows of the message.
  pub apply_judge_result-IsApplication :
      (t u : Tables) (e : SubmissionEvent)
      → apply_judge_result db hide_paths now msg t ≡ (ok (some e), u)
      → IsApplication t u e
  unfolding completed mark_completed updated_row submission_event
  apply_judge_result-IsApplication t u e h =
      let (k, checked, s, found, change) = apply_judge_result-eq_ok t (some e) u h in
      elim change [
        | inl (none_sent, _) ↦ cc none_sent
        | inr (awaits, (sent, same)) ↦ (
          s,
          updated_row (completed db hide_paths now msg k.status s) s,
          k,
          checked,
          found,
          awaits,
          ap (λ w. find_submission msg.submission_id w.submissions) same ∙ applied_row k s t found,
          refl,
          check_result_terminal msg k checked,
          some-injective _ _ sent,
          ap (λ w. results_of msg.submission_id (trim_space msg.attempt_id) w.results) same
              ∙ applied_results k s t,
        )
      ]
