-- ===== src/Submission/Lifecycle.antt =====
-- The life of the tables: every operation of the service as a step, in any order and interleaving of
-- whole transactions, from the empty database.
use go_judge_system.Prelude.{ℕ, ℤ, Text, List}
use go_judge_system.Submission.Entity.{ResultMessage, OutboxMessage}
use go_judge_system.Submission.Tables.{Tables, empty_tables, Backend}
use go_judge_system.Submission.Create.{Claims, Services, CreateSubmissionRequest, create_submission}
use go_judge_system.Submission.Rejudge.{rejudge_submission}
use go_judge_system.Submission.Apply.{apply_judge_result}
use go_judge_system.Submission.Relay.{Round, process_pending_messages}
pub mod Outcomes
pub mod Consistency
pub mod Transitions
pub mod Judging
pub mod Atomicity
pub mod Creation
pub mod Requeueing

-- `before` is what an administrator's rejudge saw earlier, which may be out of date.
pub data Step (db : Backend) (t : Tables) : Tables → Type 0 where
  creates :
      (svc : Services) (claims : Claims) (req : CreateSubmissionRequest)
      → Step db t (create_submission db svc claims req t).1
  rejudges :
      (svc : Services) (claims : Claims) (k : ℤ) (before : Tables)
      → Step db t (rejudge_submission db svc claims k before t).1
  applies :
      (hide_paths : Text → Text) (now : ℕ) (msg : ResultMessage)
      → Step db t (apply_judge_result db hide_paths now msg t).1
  relays :
      (round : Round) (sent : List OutboxMessage)
      → Step db t (process_pending_messages db round (record { tables = t; sent = sent })).tables

pub data Reachable (db : Backend) : Tables → Type 0 where
  start : Reachable db empty_tables
  next : {t u : Tables} → Reachable db t → Step db t u → Reachable db u
