-- ===== src/Submission/Create.antt =====
-- services/submission/internal/application/usecase/user/create_submission.go, with the roles of
-- pkg/rbac/role.go and the claims of pkg/auth/claims.go. Problem service, cooldown, clock and
-- identifier generator are arguments.
use go_judge_system.Prelude.{
  ℕ, suc, ℤ, is_positive, leb, length, Text, is_empty, trim_space, Bool, not, Option, none, some,
  if◌then◌else◌,
}
use go_judge_system.Submission.Errors.{
  app, wrap, unauthorized, invalid_problem_id, invalid_language, invalid_source_code,
  source_code_too_large, submission_cooldown_unavailable, rate_limited, internal_server,
  invalid_judge_result, Result, ok, err,
}
use go_judge_system.Submission.Entity.{
  Language, is_executable, language_text, parse_language, max_source_code_bytes, Submission, Status,
  new_submission, by_submission, new_submission_attempt, JobMessage,
}
use go_judge_system.Submission.Tables.{Tables, Backend}
use go_judge_system.Submission.Store.{
  Db, ◌>>=◌, ◌>>◌, pure, create_submission_row, create_attempt_row, publish_job, execute_in_tx,
}

-- `rbac.Role`; any other string has level 0.
pub data Role : Type 0 where
  user contributor moderator admin : Role
  other : Text → Role

unfoldable pub role_level : Role → ℕ
role_level user = 1
role_level contributor = 2
role_level moderator = 3
role_level admin = 4
role_level (other s) = 0

unfoldable pub at_least : Role → Role → Bool
unfolding role_level
at_least r min = leb (role_level min) (role_level r)

pub record Claims : Type 0 where
  pub user_id : Text
  pub username : Text
  pub role : Role

pub record ProblemMetadata : Type 0 where
  pub id : ℤ
  pub title : Text
  pub slug : Text

pub record CooldownResult : Type 0 where
  pub allowed : Bool
  pub retry_after : ℕ

pub record CreateSubmissionRequest : Type 0 where
  pub problem_id : ℤ
  pub language : Text
  pub source_code : Text

pub record CreateSubmissionResponse : Type 0 where
  pub id : ℤ
  pub problem_id : ℤ
  pub problem_title : Text
  pub language : Text
  pub status : Status
  pub created_at : ℕ

-- What a call of the use case meets outside: the clock, the next identifier, the topic of the jobs,
-- the Problem service, and the cooldown, which may be missing.
pub record Services : Type 0 where
  pub now : ℕ
  pub new_attempt_id : Text
  pub job_topic : Text
  pub get_problem : ℤ → Text → Role → Result ProblemMetadata
  pub get_test_case_metadata : ℤ → Result (Unit {0})
  pub cooldown : Option (Text → ℤ → Result CooldownResult)

-- The checks of the request, in the order of the source.
unfoldable pub check_create : Claims → CreateSubmissionRequest → Result Language
check_create claims req =
    if is_empty claims.user_id
    then err (app unauthorized)
    else if not (is_positive req.problem_id)
    then err (app invalid_problem_id)
    else elim (parse_language req.language) [
      | none ↦ err (app invalid_language)
      | some l ↦
          if not (is_executable l)
          then err (app invalid_language)
          else if is_empty (trim_space req.source_code)
          then err (app invalid_source_code)
          else if leb (suc max_source_code_bytes) (length req.source_code)
          then err (app source_code_too_large)
          else ok l
    ]

acquired : Result CooldownResult → Result (Unit {0})
acquired (err e) = err (wrap submission_cooldown_unavailable e)
acquired (ok r) = if r.allowed then ok tt else err (app (rate_limited r.retry_after))

-- `uc.cooldown.Acquire`.
unfoldable pub pass_cooldown :
    Option (Text → ℤ → Result CooldownResult) → Text → ℤ → Result (Unit {0})
unfolding acquired
pass_cooldown none user_id problem_id = err (app submission_cooldown_unavailable)
pass_cooldown (some acquire) user_id problem_id = acquired (acquire user_id problem_id)

create_response : Submission → CreateSubmissionResponse
create_response s = record {
  id = s.id;
  problem_id = s.problem_id;
  problem_title = s.problem_name;
  language = language_text s.language;
  status = s.status;
  created_at = s.created_at;
}

-- An error inside the transaction becomes an internal error with a cause.
unfoldable pub create_outcome : Result Submission → Result CreateSubmissionResponse
unfolding create_response
create_outcome (ok s) = ok (create_response s)
create_outcome (err e) = err (wrap internal_server e)

unfoldable pub create_job : Text → ℕ → Submission → JobMessage
create_job slug now s = record {
  submission_id = s.id;
  problem_id = s.problem_id;
  problem_slug = slug;
  user_id = s.user_id;
  language = language_text s.language;
  source_code = s.source_code;
  attempt_id = s.current_attempt_id;
  enqueued_at = now;
}

module _ (db : Backend) (svc : Services) where
  open svc use {now, new_attempt_id, job_topic, get_problem, cooldown}

  -- The body of the transaction.
  unfoldable pub create_tx : Text → Text → Submission → Db Submission
  unfolding create_job
  create_tx slug user_id draft = do
    s ← create_submission_row db draft
    create_attempt_row db
        (new_submission_attempt now s.id s.current_attempt_id by_submission user_id)
    publish_job db job_topic now (create_job slug now s)
    pure s

  unfoldable pub store_submission :
      Claims
      → CreateSubmissionRequest
      → Language
      → ProblemMetadata
      → Tables
      → Result CreateSubmissionResponse × Tables
  unfolding create_outcome
  store_submission claims req language problem t =
      let attempt_id = trim_space new_attempt_id in
      let draft =
        new_submission now problem.id problem.title claims.user_id claims.username language
          req.source_code attempt_id in
      let (r, t') = execute_in_tx db (create_tx problem.slug claims.user_id draft) t in
      if is_empty attempt_id
      then (err (wrap internal_server (app invalid_judge_result)), t)
      else (create_outcome r, t')

  unfoldable pub admit :
      Claims
      → CreateSubmissionRequest
      → Language
      → ProblemMetadata
      → Result (Unit {0})
      → Tables
      → Result CreateSubmissionResponse × Tables
  unfolding store_submission
  admit claims req language problem (err e) t = (err e, t)
  admit claims req language problem (ok _) t = store_submission claims req language problem t

  unfoldable pub with_problem :
      Claims
      → CreateSubmissionRequest
      → Language
      → Result ProblemMetadata
      → Tables
      → Result CreateSubmissionResponse × Tables
  unfolding admit
  with_problem claims req language (err e) t = (err e, t)
  with_problem claims req language (ok problem) t =
      admit claims req language problem (pass_cooldown cooldown claims.user_id problem.id) t

  unfoldable pub with_language :
      Claims
      → CreateSubmissionRequest
      → Result Language
      → Tables
      → Result CreateSubmissionResponse × Tables
  unfolding with_problem
  with_language claims req (err e) t = (err e, t)
  with_language claims req (ok language) t =
      with_problem claims req language (get_problem req.problem_id claims.user_id claims.role) t

  -- `createSubmissionUseCase.Execute`.
  unfoldable pub create_submission :
      Claims → CreateSubmissionRequest → Tables → Result CreateSubmissionResponse × Tables
  unfolding with_language
  create_submission claims req t = with_language claims req (check_create claims req) t
