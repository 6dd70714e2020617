-- ===== src/Submission/Tables.antt =====
-- The tables of submission_db (services/submission/internal/adapter/outbound/persistence/postgres):
-- each table is the list of its rows, and each statement that the repositories send is a function on
-- rows. A sequence holds the last id that it gave out.
pub mod Laws
use go_judge_system.Prelude.{
  ℕ, suc, ℤ, ℤ_discrete, pos, Text, text_dec, ite, Bool, true, false, Option, none, some, List, [],
  ◌∷◌, ◌++◌, ◌≢◌,
}
use go_judge_system.Submission.Errors.{Fault}
use go_judge_system.Submission.Entity.{
  Submission, SubmissionAttempt, SubmissionResult, OutboxMessage,
}

pub record Tables : Type 0 where
  pub submissions : List Submission
  pub attempts : List SubmissionAttempt
  pub results : List SubmissionResult
  pub outbox : List OutboxMessage
  pub submission_seq : ℕ
  pub attempt_seq : ℕ
  pub outbox_seq : ℕ

abbrev pub empty_tables : Tables
empty_tables = record {
  submissions = [];
  attempts = [];
  results = [];
  outbox = [];
  submission_seq = 0;
  attempt_seq = 0;
  outbox_seq = 0;
}

-- SELECT ... WHERE id = k LIMIT 1.
unfoldable pub find_submission : ℤ → List Submission → Option Submission
find_submission k [] = none
find_submission k (s ∷ rows) = ite (ℤ_discrete s.id k) (some s) (find_submission k rows)

-- UPDATE ... WHERE id = k.
unfoldable pub modify_submission : ℤ → (Submission → Submission) → List Submission → List Submission
modify_submission k f [] = []
modify_submission k f (s ∷ rows) = ite (ℤ_discrete s.id k) (f s) s ∷ modify_submission k f rows

-- SELECT ... WHERE attempt_id = k LIMIT 1.
unfoldable pub find_attempt : Text → List SubmissionAttempt → Option SubmissionAttempt
find_attempt k [] = none
find_attempt k (a ∷ rows) = ite (text_dec a.attempt_id k) (some a) (find_attempt k rows)

-- UPDATE ... WHERE attempt_id = k.
unfoldable pub modify_attempt :
    Text → (SubmissionAttempt → SubmissionAttempt) → List SubmissionAttempt → List SubmissionAttempt
modify_attempt k f [] = []
modify_attempt k f (a ∷ rows) = ite (text_dec a.attempt_id k) (f a) a ∷ modify_attempt k f rows

-- SELECT ... WHERE submission_id = k AND attempt_id = a.
unfoldable pub results_of : ℤ → Text → List SubmissionResult → List SubmissionResult
results_of k a [] = []
results_of k a (r ∷ rows) =
    ite (ℤ_discrete r.submission_id k)
      (ite (text_dec r.attempt_id a) (r ∷ results_of k a rows) (results_of k a rows))
      (results_of k a rows)

-- DELETE ... WHERE submission_id = k AND attempt_id = a: the rows that stay.
unfoldable pub without_results : ℤ → Text → List SubmissionResult → List SubmissionResult
without_results k a [] = []
without_results k a (r ∷ rows) =
    ite (ℤ_discrete r.submission_id k)
      (ite (text_dec r.attempt_id a) (without_results k a rows) (r ∷ without_results k a rows))
      (r ∷ without_results k a rows)

-- `SubmissionResultDAO` of an item.
unfoldable pub result_row_for : ℤ → Text → SubmissionResult → SubmissionResult
result_row_for k a r = record r { submission_id = k; attempt_id = a }

-- UPDATE ... WHERE id = k on the outbox.
unfoldable pub modify_outbox :
    ℤ → (OutboxMessage → OutboxMessage) → List OutboxMessage → List OutboxMessage
modify_outbox k f [] = []
modify_outbox k f (m ∷ rows) = ite (ℤ_discrete m.id k) (f m) m ∷ modify_outbox k f rows

-- Whether the outbox holds a job for the attempt `a` of submission `k`, sent or not.
unfoldable pub has_job : ℤ → Text → List OutboxMessage → Bool
has_job k a [] = false
has_job k a (m ∷ rows) =
    ite (ℤ_discrete m.payload.submission_id k)
      (ite (text_dec m.payload.attempt_id a) true (has_job k a rows)) (has_job k a rows)

-- What is sent to the server.
pub data Query : Type 0 where
  select_submission update_submission : ℤ → Query
  insert_submission : Submission → Query
  insert_attempt : SubmissionAttempt → Query
  update_attempt : Text → Query
  delete_results insert_results : ℤ → Text → Query
  insert_outbox : OutboxMessage → Query
  select_outbox update_outbox commit : Query

-- GORM and PostgreSQL, as far as they may refuse a statement: `refuses q t` is the error, if any,
-- of `q` at the tables `t`. The unique index on `attempt_id` makes a second row an error.
pub record Backend : Type 0 where
  pub refuses : Query → Tables → Option Fault
  pub unique_attempt :
      (a : SubmissionAttempt) (t : Tables)
      → find_attempt a.attempt_id t.attempts ≢ none
      → refuses (insert_attempt a) t ≢ none
