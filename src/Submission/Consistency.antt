-- ===== src/Submission/Consistency.antt =====
-- The invariant of submission_db: what holds between the tables after every transaction. The children
-- prove it of each operation.
pub mod Created
pub mod Rejudged
pub mod Applied
pub mod Relayed
use go_judge_system.Prelude.{
  ℕ, ◌<◌, ℤ, pos, Text, trim_space, Bool, true, false, ◌≡◌, refl, ◌∙◌, Option, none, some, [],
  arith,
}
use go_judge_system.Submission.Entity.{Submission, is_terminal_status, SubmissionAttempt}
use go_judge_system.Submission.Tables.{
  Tables, empty_tables, find_submission, find_attempt, results_of, has_job,
}

-- A submission agrees with the record of its current attempt, the job of that attempt was queued,
-- and there are results of it only once it has ended.
pub record IsLinked (t : Tables) (s : Submission) : Type 0 where
  pub attempt : SubmissionAttempt
  pub trimmed : trim_space s.current_attempt_id ≡ s.current_attempt_id
  pub recorded : find_attempt s.current_attempt_id t.attempts ≡ some attempt
  pub owner : attempt.submission_id ≡ s.id
  pub agrees : attempt.status ≡ s.status
  pub queued : has_job s.id s.current_attempt_id t.outbox ≡ true
  pub clean :
      is_terminal_status s.status ≡ false → results_of s.id s.current_attempt_id t.results ≡ []

pub record IsConsistent (t : Tables) : Type 0 where
  pub fresh : (n : ℕ) → t.submission_seq < n → find_submission (pos n) t.submissions ≡ none
  pub linked : (k : ℤ) (s : Submission) → find_submission k t.submissions ≡ some s → IsLinked t s
  pub orphans :
      (k : ℤ) (a : Text) → find_attempt a t.attempts ≡ none → results_of k a t.results ≡ []

pub empty_tables-IsConsistent : IsConsistent empty_tables
unfolding find_submission results_of
empty_tables-IsConsistent = record {
  fresh = λ n h. refl;
  linked = λ k s h. cc;
  orphans = λ k a h. refl;
}

-- A link survives where the attempt, the job and the results of it are still found.
pub IsLinked-keep :
    (t t' : Tables) (s : Submission) (l : IsLinked t s)
    → find_attempt s.current_attempt_id t'.attempts ≡ some l.attempt
    → has_job s.id s.current_attempt_id t'.outbox ≡ true
    → (is_terminal_status s.status ≡ false
        → results_of s.id s.current_attempt_id t'.results
          ≡ results_of s.id s.current_attempt_id t.results)
    → IsLinked t' s
IsLinked-keep t t' s l found job same = record {
  attempt = l.attempt;
  trimmed = l.trimmed;
  recorded = found;
  owner = l.owner;
  agrees = l.agrees;
  queued = job;
  clean = λ h. same h ∙ l.clean h;
}
