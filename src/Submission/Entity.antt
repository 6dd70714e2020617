-- ===== src/Submission/Entity.antt =====
-- services/submission/internal/domain/entity, and the messages of pkg/judge.
use go_judge_system.Prelude.{
  ℕ, ℤ, pos, Text, codes, text_dec, is_empty, trim_space, ite, Bool, true, false, Option, none,
  some, List, [], ◌∷◌, if◌then◌else◌,
}

pub data Language : Type 0 where
  c cpp java python go javascript : Language

abbrev pub max_source_code_bytes : ℕ
max_source_code_bytes = 262144

unfoldable pub is_executable : Language → Bool
is_executable cpp = true
is_executable go = true
is_executable python = true
is_executable java = true
is_executable _ = false

abbrev pub language_text : Language → Text
language_text c = codes "C"
language_text cpp = codes "CPP"
language_text java = codes "JAVA"
language_text python = codes "PYTHON"
language_text go = codes "GO"
language_text javascript = codes "JAVASCRIPT"

-- The `case` list of a `switch` on a string: the first value that is spelled so.
unfoldable pub find_text {ℓ} : {A : Type ℓ} → (A → Text) → List A → Text → Option A
find_text spell [] value = none
find_text spell (a ∷ as') value =
    ite (text_dec value (spell a)) (some a) (find_text spell as' value)

unfoldable pub parse_language : Text → Option Language
unfolding find_text
parse_language = find_text language_text (c ∷ cpp ∷ java ∷ python ∷ go ∷ javascript ∷ [])

pub data Status : Type 0 where
  pending judging accepted wrong_answer time_limit_exceeded memory_limit_exceeded : Status
  output_limit_exceeded runtime_error compilation_error system_error : Status

abbrev pub status_text : Status → Text
status_text pending = codes "PENDING"
status_text judging = codes "JUDGING"
status_text accepted = codes "ACCEPTED"
status_text wrong_answer = codes "WRONG_ANSWER"
status_text time_limit_exceeded = codes "TIME_LIMIT_EXCEEDED"
status_text memory_limit_exceeded = codes "MEMORY_LIMIT_EXCEEDED"
status_text output_limit_exceeded = codes "OUTPUT_LIMIT_EXCEEDED"
status_text runtime_error = codes "RUNTIME_ERROR"
status_text compilation_error = codes "COMPILATION_ERROR"
status_text system_error = codes "SYSTEM_ERROR"

abbrev pub statuses : List Status
statuses =
    pending ∷ judging ∷ accepted ∷ wrong_answer ∷ time_limit_exceeded ∷ memory_limit_exceeded
    ∷ output_limit_exceeded ∷ runtime_error ∷ compilation_error ∷ system_error ∷ []

unfoldable pub parse_status : Text → Option Status
unfolding find_text
parse_status = find_text status_text statuses

abbrev pub is_terminal_status : Status → Bool
is_terminal_status pending = false
is_terminal_status judging = false
is_terminal_status _ = true

pub record Submission : Type 0 where
  pub id : ℤ
  pub problem_id : ℤ
  pub problem_name : Text
  pub user_id : Text
  pub username : Text
  pub language : Language
  pub source_code : Text
  pub current_attempt_id : Text
  pub status : Status
  pub execution_time : Option ℤ
  pub memory_used : Option ℤ
  pub compile_output : Option Text
  pub error_message : Option Text
  pub created_at : ℕ
  pub updated_at : ℕ

-- The id is 0 until the row is inserted; `now` is `time.Now()`.
unfoldable pub new_submission : ℕ → ℤ → Text → Text → Text → Language → Text → Text → Submission
new_submission now problem_id problem_name user_id username language source attempt_id = record {
  id = pos 0;
  problem_id = problem_id;
  problem_name = problem_name;
  user_id = user_id;
  username = username;
  language = language;
  source_code = source;
  current_attempt_id = attempt_id;
  status = pending;
  execution_time = none;
  memory_used = none;
  compile_output = none;
  error_message = none;
  created_at = now;
  updated_at = now;
}

unfoldable pub mark_completed :
    ℕ → Status → Option ℤ → Option ℤ → Option Text → Option Text → Submission → Submission
mark_completed now status time_used memory compile_output error_message s = record s {
  status = status;
  execution_time = time_used;
  memory_used = memory;
  compile_output = compile_output;
  error_message = error_message;
  updated_at = now;
}

unfoldable pub reset_for_rejudge : ℕ → Submission → Submission
reset_for_rejudge now s = record s {
  status = pending;
  execution_time = none;
  memory_used = none;
  compile_output = none;
  error_message = none;
  updated_at = now;
}

pub data AttemptTrigger : Type 0 where
  by_submission by_admin_rejudge : AttemptTrigger

pub record SubmissionAttempt : Type 0 where
  pub id : ℤ
  pub submission_id : ℤ
  pub attempt_id : Text
  pub trigger_type : AttemptTrigger
  pub triggered_by_user_id : Option Text
  pub status : Status
  pub testcase_version : Option ℤ
  pub test_count : Option ℤ
  pub dataset_checksum : Option Text
  pub created_at : ℕ
  pub updated_at : ℕ

non_blank_string_pointer : Text → Option Text
non_blank_string_pointer value =
    let trimmed = trim_space value in if is_empty trimmed then none else some trimmed

unfoldable pub new_submission_attempt : ℕ → ℤ → Text → AttemptTrigger → Text → SubmissionAttempt
unfolding non_blank_string_pointer
new_submission_attempt now submission_id attempt_id trigger user_id = record {
  id = pos 0;
  submission_id = submission_id;
  attempt_id = trim_space attempt_id;
  trigger_type = trigger;
  triggered_by_user_id = non_blank_string_pointer user_id;
  status = pending;
  testcase_version = none;
  test_count = none;
  dataset_checksum = none;
  created_at = now;
  updated_at = now;
}

pub data ResultStatus : Type 0 where
  accepted wrong_answer time_limit memory_limit output_limit runtime_error : ResultStatus
  system_error : ResultStatus

abbrev pub result_status_text : ResultStatus → Text
result_status_text accepted = codes "ACCEPTED"
result_status_text wrong_answer = codes "WRONG_ANSWER"
result_status_text time_limit = codes "TIME_LIMIT_EXCEEDED"
result_status_text memory_limit = codes "MEMORY_LIMIT_EXCEEDED"
result_status_text output_limit = codes "OUTPUT_LIMIT_EXCEEDED"
result_status_text runtime_error = codes "RUNTIME_ERROR"
result_status_text system_error = codes "SYSTEM_ERROR"

abbrev pub result_statuses : List ResultStatus
result_statuses =
    accepted ∷ wrong_answer ∷ time_limit ∷ memory_limit ∷ output_limit ∷ runtime_error
    ∷ system_error ∷ []

-- `mapTestCaseStatus`, without its error.
unfoldable pub parse_result_status : Text → Option ResultStatus
unfolding find_text
parse_result_status = find_text result_status_text result_statuses

pub record SubmissionResult : Type 0 where
  pub submission_id : ℤ
  pub attempt_id : Text
  pub test_index : ℤ
  pub status : ResultStatus
  pub actual_output : Option Text
  pub input : Option Text
  pub expected_output : Option Text
  pub execution_time : Option ℤ
  pub memory_used : Option ℤ

pub record SubmissionEvent : Type 0 where
  pub submission_id : ℤ
  pub attempt_id : Text
  pub status : Text
  pub updated_at : ℕ

unfoldable pub submission_event : Submission → SubmissionEvent
submission_event s = record {
  submission_id = s.id;
  attempt_id = s.current_attempt_id;
  status = status_text s.status;
  updated_at = s.updated_at;
}

-- pkg/judge/job_message.go.
pub record JobMessage : Type 0 where
  pub submission_id : ℤ
  pub problem_id : ℤ
  pub problem_slug : Text
  pub user_id : Text
  pub language : Text
  pub source_code : Text
  pub attempt_id : Text
  pub enqueued_at : ℕ

-- pkg/judge/result_message.go.
pub record TestCaseResultItem : Type 0 where
  pub index : ℤ
  pub status : Text
  pub actual_output : Option Text
  pub input : Option Text
  pub expected_output : Option Text
  pub execution_time : Option ℤ
  pub memory_used : Option ℤ

pub record ResultMessage : Type 0 where
  pub submission_id : ℤ
  pub attempt_id : Text
  pub status : Text
  pub compile_output : Option Text
  pub error_message : Option Text
  pub execution_time : Option ℤ
  pub memory_used : Option ℤ
  pub error : Option Text
  pub testcase_version : Option ℤ
  pub test_count : Option ℤ
  pub dataset_checksum : Option Text
  pub test_cases : List TestCaseResultItem

pub data OutboxStatus : Type 0 where
  pending published failed : OutboxStatus

-- The payload is the job whose JSON text the column holds.
pub record OutboxMessage : Type 0 where
  pub id : ℤ
  pub aggregate_id : ℤ
  pub topic : Text
  pub payload : JobMessage
  pub status : OutboxStatus
  pub created_at : ℕ
  pub published_at : Option ℕ
  pub retry_count : ℕ
  pub error_reason : Option Text
