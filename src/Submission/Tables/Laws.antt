-- ===== src/Submission/Tables/Laws.antt =====
-- Laws of the statements on rows: what a lookup finds after an insert or an update.
use mathlib.Core.List.{append-nil, map}
use go_judge_system.Prelude.{
  ℤ, ℤ_discrete, Text, text_dec, ite, true, ◌≡◌, ◌≢◌, refl, none, some, List, [], ◌∷◌, ◌++◌, arith,
}
use go_judge_system.Submission.Entity.{
  Submission, SubmissionAttempt, SubmissionResult, OutboxMessage,
}
use go_judge_system.Submission.Tables.{
  find_submission, modify_submission, find_attempt, modify_attempt, results_of, without_results,
  modify_outbox, result_row_for, has_job,
}

pub find_submission-id :
    (k : ℤ) (rows : List Submission) (s : Submission) → find_submission k rows ≡ some s → s.id ≡ k
unfolding find_submission
find_submission-id k [] s h = cc
find_submission-id k (r ∷ rows) s h = ground (arith, find_submission-id k rows s)

pub find_submission-append :
    (k : ℤ) (rows : List Submission) (row : Submission) (s : Submission)
    → find_submission k rows ≡ some s
    → find_submission k (rows ++ row ∷ []) ≡ some s
unfolding find_submission
find_submission-append k [] row s h = cc
find_submission-append k (r ∷ rows) row s h = ground (arith, find_submission-append k rows row s)

pub find_submission-append_new :
    (k : ℤ) (rows : List Submission) (row : Submission)
    → find_submission k rows ≡ none
    → find_submission k (rows ++ row ∷ []) ≡ ite (ℤ_discrete row.id k) (some row) none
unfolding find_submission
find_submission-append_new k [] row h = refl
find_submission-append_new k (r ∷ rows) row h =
    ground (arith, find_submission-append_new k rows row)

module _ (k : ℤ) (f : Submission → Submission) (keeps : (s : Submission) → (f s).id ≡ s.id) where
  pub find_submission-modify :
      (rows : List Submission) (s : Submission)
      → find_submission k rows ≡ some s
      → find_submission k (modify_submission k f rows) ≡ some (f s)
  unfolding find_submission modify_submission
  find_submission-modify [] s h = cc
  find_submission-modify (r ∷ rows) s h = ground (arith, find_submission-modify rows s, keeps r)

  pub find_submission-modify_ne :
      (j : ℤ) (rows : List Submission)
      → j ≢ k
      → find_submission j (modify_submission k f rows) ≡ find_submission j rows
  unfolding find_submission modify_submission
  find_submission-modify_ne j [] h = refl
  find_submission-modify_ne j (r ∷ rows) h =
      ground (arith, find_submission-modify_ne j rows, keeps r)

  pub find_submission-modify_none :
      (j : ℤ) (rows : List Submission)
      → find_submission j rows ≡ none
      → find_submission j (modify_submission k f rows) ≡ none
  unfolding find_submission modify_submission
  find_submission-modify_none j [] h = refl
  find_submission-modify_none j (r ∷ rows) h =
      ground (arith, find_submission-modify_none j rows, keeps r)

pub find_attempt-id :
    (k : Text) (rows : List SubmissionAttempt) (a : SubmissionAttempt)
    → find_attempt k rows ≡ some a
    → a.attempt_id ≡ k
unfolding find_attempt
find_attempt-id k [] a h = cc
find_attempt-id k (r ∷ rows) a h = ground (arith, find_attempt-id k rows a)

pub find_attempt-append :
    (k : Text) (rows : List SubmissionAttempt) (row : SubmissionAttempt) (a : SubmissionAttempt)
    → find_attempt k rows ≡ some a
    → find_attempt k (rows ++ row ∷ []) ≡ some a
unfolding find_attempt
find_attempt-append k [] row a h = cc
find_attempt-append k (r ∷ rows) row a h = ground (arith, find_attempt-append k rows row a)

pub find_attempt-append_new :
    (k : Text) (rows : List SubmissionAttempt) (row : SubmissionAttempt)
    → find_attempt k rows ≡ none
    → find_attempt k (rows ++ row ∷ []) ≡ ite (text_dec row.attempt_id k) (some row) none
unfolding find_attempt
find_attempt-append_new k [] row h = refl
find_attempt-append_new k (r ∷ rows) row h = ground (arith, find_attempt-append_new k rows row)

module _ (k : Text) (f : SubmissionAttempt → SubmissionAttempt)
    (keeps : (a : SubmissionAttempt) → (f a).attempt_id ≡ a.attempt_id) where
  pub find_attempt-modify :
      (rows : List SubmissionAttempt) (a : SubmissionAttempt)
      → find_attempt k rows ≡ some a
      → find_attempt k (modify_attempt k f rows) ≡ some (f a)
  unfolding find_attempt modify_attempt
  find_attempt-modify [] a h = cc
  find_attempt-modify (r ∷ rows) a h = ground (arith, find_attempt-modify rows a, keeps r)

  pub find_attempt-modify_ne :
      (j : Text) (rows : List SubmissionAttempt)
      → j ≢ k
      → find_attempt j (modify_attempt k f rows) ≡ find_attempt j rows
  unfolding find_attempt modify_attempt
  find_attempt-modify_ne j [] h = refl
  find_attempt-modify_ne j (r ∷ rows) h = ground (arith, find_attempt-modify_ne j rows, keeps r)

  pub find_attempt-of_modify_none :
      (j : Text) (rows : List SubmissionAttempt)
      → find_attempt j (modify_attempt k f rows) ≡ none
      → find_attempt j rows ≡ none
  unfolding find_attempt modify_attempt
  find_attempt-of_modify_none j [] h = refl
  find_attempt-of_modify_none j (r ∷ rows) h =
      ground (arith, find_attempt-of_modify_none j rows, keeps r)

pub results_of-append :
    (k : ℤ) (a : Text) (xs ys : List SubmissionResult)
    → results_of k a (xs ++ ys) ≡ results_of k a xs ++ results_of k a ys
unfolding results_of
results_of-append k a [] ys = refl
results_of-append k a (r ∷ xs) ys = ground (arith, results_of-append k a xs ys)

pub results_of-without_results :
    (k : ℤ) (a : Text) (rows : List SubmissionResult)
    → results_of k a (without_results k a rows) ≡ []
unfolding results_of without_results
results_of-without_results k a [] = refl
results_of-without_results k a (r ∷ rows) = ground (arith, results_of-without_results k a rows)

pub results_of-without_results_ne :
    (k j : ℤ) (a b : Text) (rows : List SubmissionResult)
    → b ≢ a
    → results_of j b (without_results k a rows) ≡ results_of j b rows
unfolding results_of without_results
results_of-without_results_ne k j a b [] h = refl
results_of-without_results_ne k j a b (r ∷ rows) h =
    ground (arith, results_of-without_results_ne k j a b rows)

pub has_job-append :
    (k : ℤ) (a : Text) (rows : List OutboxMessage) (m : OutboxMessage)
    → has_job k a rows ≡ true
    → has_job k a (rows ++ m ∷ []) ≡ true
unfolding has_job
has_job-append k a [] m h = cc
has_job-append k a (r ∷ rows) m h = ground (arith, has_job-append k a rows m)

pub has_job-append_self :
    (rows : List OutboxMessage) (m : OutboxMessage)
    → has_job m.payload.submission_id m.payload.attempt_id (rows ++ m ∷ []) ≡ true
unfolding has_job
has_job-append_self [] m = ground arith
has_job-append_self (r ∷ rows) m = ground (arith, has_job-append_self rows m)

pub has_job-modify_outbox :
    (k : ℤ) (a : Text) (j : ℤ) (f : OutboxMessage → OutboxMessage) (rows : List OutboxMessage)
    → ((m : OutboxMessage) → (f m).payload ≡ m.payload)
    → has_job k a (modify_outbox j f rows) ≡ has_job k a rows
unfolding has_job modify_outbox
has_job-modify_outbox k a j f [] keeps = refl
has_job-modify_outbox k a j f (r ∷ rows) keeps =
    ground (arith, has_job-modify_outbox k a j f rows keeps, keeps r)

pub results_of-result_row_for_ne :
    (k j : ℤ) (a b : Text) (rs : List SubmissionResult)
    → b ≢ a
    → results_of j b (map (result_row_for k a) rs) ≡ []
unfolding results_of result_row_for
results_of-result_row_for_ne k j a b [] h = refl
results_of-result_row_for_ne k j a b (r ∷ rs) h =
    ground (arith, results_of-result_row_for_ne k j a b rs)

-- Replacing the results of an attempt leaves those of another.
pub results_of-replaced_ne :
    (k j : ℤ) (a b : Text) (rs rows : List SubmissionResult)
    → b ≢ a
    → results_of j b (without_results k a rows ++ map (result_row_for k a) rs) ≡ results_of j b rows
results_of-replaced_ne k j a b rs rows h =
    rw
      (
        results_of-append j b (without_results k a rows) (map (result_row_for k a) rs),
        results_of-without_results_ne k j a b rows h,
        results_of-result_row_for_ne k j a b rs h,
      )
      (append-nil _)
