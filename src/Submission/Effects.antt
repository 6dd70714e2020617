-- ===== src/Submission/Effects.antt =====
-- Rules for code on the tables, and what each statement does when it succeeds. The children say it
-- of the transactions.
pub mod Creating
pub mod Rejudging
pub mod Applying
use mathlib.Core.List.{append-nil}
use go_judge_system.Prelude.{
  ℕ, ℤ, Text, trim_space, ◌≡◌, refl, Option, none, some, List, [], ◌∷◌, ◌++◌, map, arith,
}
use go_judge_system.Submission.Errors.{Result, ok, err}
use go_judge_system.Submission.Entity.{
  Submission, SubmissionAttempt, SubmissionResult, JobMessage, Status,
}
use go_judge_system.Submission.Tables.{
  Tables, find_submission, modify_submission, find_attempt, modify_attempt, without_results,
  result_row_for, Backend, insert_attempt,
}
use go_judge_system.Submission.Store.{
  Db, ◌>>=◌, insert_row, insert_attempt_row, insert_outbox_row, outbox_message, updated_row,
  completed_attempt, create_submission_row, get_by_id, update_submission_row, create_attempt_row,
  mark_attempt_completed, replace_results, publish_job,
}

-- An insert that is not refused meets no row with its attempt id.
not_recorded :
    (db : Backend) (a : SubmissionAttempt) (t : Tables)
    → db.refuses (insert_attempt a) t ≡ none
    → find_attempt a.attempt_id t.attempts ≡ none
not_recorded db a t h = ground (arith, db.unique_attempt a t)

-- What holds of every success of `m` at `t`.
abbrev pub Ensures : {A : Type 0} → Db A → Tables → (A → Tables → Type 0) → Type 0
Ensures {A} m t P = (a : A) (t' : Tables) → m t ≡ ok (a, t') → P a t'

-- The rule for a sequence.
pub >>=-Ensures :
    {A B : Type 0} (m : Db A) (f : A → Db B) (t : Tables) (P : B → Tables → Type 0)
    → ((a : A) (t' : Tables) → m t ≡ ok (a, t') → Ensures (f a) t' P)
    → Ensures (m >>= f) t P
>>=-Ensures {A} {B} m f t P step b t'' h = go (m t) refl h
  where
    go :
        (r : Result (A × Tables))
        → m t ≡ r
        → ◌>>=◌ {A = A} {B = B} (λ _. r) f t ≡ ok (b, t'')
        → P b t''
    go (ok (a, t')) e k = step a t' e b t'' k
    go (err x) e k = cc

module _ (db : Backend) where
  pub create_submission_row-eq_ok :
      (draft : Submission) (t : Tables) (s : Submission) (t' : Tables)
      → create_submission_row db draft t ≡ ok (s, t')
      → insert_row draft t ≡ (s, t')
  unfolding create_submission_row
  create_submission_row-eq_ok draft t s t' h = ground arith

  pub create_attempt_row-eq_ok :
      (a : SubmissionAttempt) (t : Tables) (u : Unit {0}) (t' : Tables)
      → create_attempt_row db a t ≡ ok (u, t')
      → (t' ≡ insert_attempt_row a t) × (find_attempt a.attempt_id t.attempts ≡ none)
  unfolding create_attempt_row
  create_attempt_row-eq_ok a t u t' h = ground (arith, not_recorded db a t)

  pub publish_job-eq_ok :
      (topic : Text) (now : ℕ) (job : JobMessage) (t : Tables) (u : Unit {0}) (t' : Tables)
      → publish_job db topic now job t ≡ ok (u, t')
      → t' ≡ insert_outbox_row (outbox_message topic now job) t
  unfolding publish_job
  publish_job-eq_ok topic now job t u t' h = ground arith

  pub get_by_id-eq_ok :
      (k : ℤ) (t : Tables) (s : Submission) (t' : Tables)
      → get_by_id db k t ≡ ok (s, t')
      → (find_submission k t.submissions ≡ some s) × (t' ≡ t)
  unfolding get_by_id
  get_by_id-eq_ok k t s t' h = ground arith

  pub update_submission_row-eq_ok :
      (s : Submission) (t : Tables) (u : Unit {0}) (t' : Tables)
      → update_submission_row db s t ≡ ok (u, t')
      → t' ≡ record t { submissions = modify_submission s.id (updated_row s) t.submissions }
  unfolding update_submission_row
  update_submission_row-eq_ok s t u t' h = ground arith

  pub mark_attempt_completed-eq_ok :
      (now : ℕ) (a : Text) (status : Status) (version count : Option ℤ) (checksum : Option Text)
      (t : Tables) (u : Unit {0}) (t' : Tables)
      → mark_attempt_completed db now a status version count checksum t ≡ ok (u, t')
      → t' ≡ record t {
        attempts =
            modify_attempt
              (trim_space a)
              (completed_attempt now status version count checksum)
              t.attempts;
      }
  unfolding mark_attempt_completed
  mark_attempt_completed-eq_ok now a status version count checksum t u t' h = ground arith

-- The rows that replace the results of an attempt, in the table.
unfoldable pub replaced :
    ℤ → Text → List SubmissionResult → List SubmissionResult → List SubmissionResult
replaced k a rs rows = without_results k a rows ++ map (result_row_for k a) rs

pub replace_results-eq_ok :
    (db : Backend) (k : ℤ) (a : Text) (rs : List SubmissionResult) (t : Tables) (u : Unit {0})
    (t' : Tables)
    → replace_results db k a rs t ≡ ok (u, t')
    → t' ≡ record t { results = replaced k (trim_space a) rs t.results }
unfolding replace_results replaced
replace_results-eq_ok db k a [] t u t' h =
    ground (arith, append-nil (without_results k (trim_space a) t.results))
replace_results-eq_ok db k a (r ∷ rs) t u t' h = ground arith
