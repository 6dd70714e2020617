-- ===== src/Submission/Examples.antt =====
-- The operations of the submission service at concrete inputs: a submission, its result, a rejudge.
use go_judge_system.Prelude.{
  ℤ_discrete, pos, Text, text_dec, text_eq, trim_space, codes, true, false, ◌≡◌, ◌≢◌, refl, inl,
  Option, none, some, List, [], ◌∷◌, ◌++◌, arith, length, ◌≤◌, ◌+◌, ℕ, zero, suc, take,
}
use go_judge_system.Submission.Errors.{
  Fault, driver, app, unauthorized, submission_forbidden, invalid_submission_status, ok, err,
}
use go_judge_system.Submission.Entity.{
  by_admin_rejudge, OutboxMessage, OutboxStatus, is_terminal_status, Submission, SubmissionAttempt,
  ResultMessage, SubmissionEvent, Status, is_executable, find_text, parse_language, parse_status,
  new_submission, mark_completed, reset_for_rejudge, new_submission_attempt, parse_result_status,
  submission_event,
}
use go_judge_system.Submission.Tables.{
  Tables, empty_tables, find_submission, find_attempt, Query, insert_attempt, Backend,
  modify_submission, modify_attempt, without_results, result_row_for,
}
use go_judge_system.Submission.Store.{
  insert_row, insert_attempt_row, insert_outbox_row, updated_row, completed_attempt, outbox_message,
  create_submission_row, get_by_id, update_submission_row, create_attempt_row,
  mark_attempt_completed, replace_results, publish_job, settle, conclude, execute_in_tx,
}
use go_judge_system.Submission.Message.{
  public_error_message, non_blank_string, judge_output_fields, strip_control_characters,
  to_valid_utf8, max_stored_error_message_bytes,
}
use go_judge_system.Submission.Message.Bounds.{length-public_error_message}
use go_judge_system.Submission.Create.{
  user, admin, Claims, Services, CreateSubmissionRequest, CreateSubmissionResponse,
  create_submission, role_level, at_least, check_create, pass_cooldown, create_outcome, create_job,
  create_tx, store_submission, admit, with_problem, with_language,
}
use go_judge_system.Submission.Rejudge.{
  RejudgeResponse, rejudge_submission, check_rejudge, check_seen, rejudge_job, rejudge_outcome,
  rejudge_write, rejudge_locked, rejudge_tx, rejudge_seen, with_seen, with_check,
}
use go_judge_system.Submission.ResultConsumer.{Tries, rejected, handle_result}
use go_judge_system.Submission.ResultConsumer.Laws.{IsSettled, handle_result-IsSettled}
use go_judge_system.Submission.Apply.{
  apply_judge_result, terminal_or_error, map_terminal_status, validate_dataset_checksum, result_row,
  map_test_case, cons_ok, map_test_case_results, checked, check_items, check_status, check_result,
  completed, apply_write, apply_locked, apply_tx, with_checked,
}
use go_judge_system.Submission.Relay.{Round, is_pending, pending_rows, process_pending_messages}
use go_judge_system.Submission.Relay.Delivery.{
  before_cancel, deliverable, process_pending_messages-sent, AllStuck, relay_rounds,
  process_pending_messages-exhausted,
}
use go_judge_system.Submission.EventHub.{EventHub, is_closed}
use go_judge_system.Submission.EventHub.Laws.{
  find_subscriber, HoldsLatest, publish_all-latest, ComesAndGoes, IsNew, subscribe-unsubscribe,
}
use go_judge_system.Submission.Lifecycle.Atomicity.{
  create_submission-eq_err, rejudge_submission-eq_err, apply_judge_result-eq_err,
}
use go_judge_system.Submission.Consistency.{IsConsistent, empty_tables-IsConsistent}
use go_judge_system.Submission.Lifecycle.Creation.{IsQueued, create_submission-IsQueued}
use go_judge_system.Submission.Lifecycle.Requeueing.{IsRequeued, rejudge_submission-IsRequeued}
use go_judge_system.Submission.Lifecycle.{Reachable, start, next, creates, rejudges, applies}
use go_judge_system.Submission.Lifecycle.Consistency.{Reachable-IsConsistent}
use go_judge_system.Submission.Lifecycle.Transitions.{Moved, Step-Moved}
use go_judge_system.Submission.Lifecycle.Judging.{
  IsApplication, apply_judge_result-ignored, apply_judge_result-IsApplication,
}

abbrev refused : Option SubmissionAttempt → Option Fault
refused none = none
refused (some a) = some (driver 23505)

-- A database that refuses only a second row with an attempt id.
abbrev healthy_refuses : Query → Tables → Option Fault
healthy_refuses (insert_attempt a) t = refused (find_attempt a.attempt_id t.attempts)
healthy_refuses q t = none

refused_some : (o : Option SubmissionAttempt) → o ≢ none → refused o ≢ none
refused_some none h e = h refl
refused_some (some a) h e = cc e

abbrev healthy : Backend
healthy = record {
  refuses = healthy_refuses;
  unique_attempt = λ a t h. refused_some (find_attempt a.attempt_id t.attempts) h;
}

abbrev services : Text → Services
services attempt_id = record {
  now = 1000;
  new_attempt_id = attempt_id;
  job_topic = codes "judge.submission.jobs";
  get_problem = λ id user_id role. ok (record { id = id; title = codes "Sum"; slug = codes "sum" });
  get_test_case_metadata = λ id. ok tt;
  cooldown = some (λ user_id problem_id. ok (record { allowed = true; retry_after = 0 }));
}

abbrev author : Claims
author = record { user_id = codes "u1"; username = codes "ann"; role = user }

abbrev administrator : Claims
administrator = record { user_id = codes "u9"; username = codes "root"; role = admin }

abbrev request : CreateSubmissionRequest
request = record { problem_id = pos 7; language = codes "GO"; source_code = codes "x" }

abbrev same_paths : Text → Text
same_paths s = s

abbrev accepted_message : ResultMessage
accepted_message = record {
  submission_id = pos 1;
  attempt_id = codes "a1";
  status = codes "ACCEPTED";
  compile_output = none;
  error_message = none;
  execution_time = some (pos 12);
  memory_used = some (pos 900);
  error = none;
  testcase_version = some (pos 1);
  test_count = some (pos 1);
  dataset_checksum = none;
  test_cases =
      record {
        index = pos 1;
        status = codes "ACCEPTED";
        actual_output = none;
        input = none;
        expected_output = none;
        execution_time = some (pos 12);
        memory_used = some (pos 900);
      }
      ∷ [];
}

abbrev submitted : Tables
submitted = (create_submission healthy (services (codes "a1")) author request empty_tables).1

abbrev judged_tables : Tables
judged_tables = (apply_judge_result healthy same_paths 2000 accepted_message submitted).1

abbrev requeued_tables : Tables
requeued_tables =
    (rejudge_submission healthy (services (codes "a2")) administrator (pos 1) judged_tables
      judged_tables).1

submitted-Reachable : Reachable healthy submitted
submitted-Reachable = next start (creates (services (codes "a1")) author request)

requeued-Reachable : Reachable healthy requeued_tables
requeued-Reachable =
    next (next submitted-Reachable (applies same_paths 2000 accepted_message))
      (rejudges (services (codes "a2")) administrator (pos 1) judged_tables)

Reachable-IsConsistent_example : IsConsistent requeued_tables
Reachable-IsConsistent_example = Reachable-IsConsistent healthy requeued-Reachable

abbrev accepted_event : SubmissionEvent
accepted_event = record {
  submission_id = pos 1;
  attempt_id = codes "a1";
  status = codes "ACCEPTED";
  updated_at = 2000;
}

judged_outcome :
    apply_judge_result healthy same_paths 2000 accepted_message submitted
    ≡ (ok (some accepted_event), judged_tables)
unfolding create_submission with_language check_create parse_language is_executable with_problem
    admit pass_cooldown store_submission create_outcome create_tx create_submission_row insert_row
    create_attempt_row new_submission_attempt insert_attempt_row publish_job create_job
    outbox_message insert_outbox_row execute_in_tx conclude settle new_submission trim_space
    text_dec find_attempt find_text apply_judge_result check_result map_terminal_status parse_status
    validate_dataset_checksum map_test_case_results map_test_case cons_ok result_row
    parse_result_status check_status check_items checked terminal_or_error with_checked apply_tx
    get_by_id find_submission apply_locked text_eq apply_write update_submission_row
    modify_submission updated_row replace_results without_results result_row_for
    mark_attempt_completed modify_attempt completed_attempt completed judge_output_fields
    non_blank_string public_error_message mark_completed submission_event ℤ_discrete
judged_outcome = refl

apply_judge_result-IsApplication_example :
    IsApplication healthy same_paths 2000 accepted_message submitted judged_tables accepted_event
apply_judge_result-IsApplication_example =
    apply_judge_result-IsApplication healthy same_paths 2000 accepted_message submitted
      judged_tables accepted_event judged_outcome

abbrev response : CreateSubmissionResponse
response = record {
  id = pos 1;
  problem_id = pos 7;
  problem_title = codes "Sum";
  language = codes "GO";
  status = Status.pending;
  created_at = 1000;
}

submitted_outcome :
    create_submission healthy (services (codes "a1")) author request empty_tables
    ≡ (ok response, submitted)
unfolding create_submission with_language check_create parse_language is_executable with_problem
    admit pass_cooldown store_submission create_outcome create_tx create_submission_row insert_row
    create_attempt_row new_submission_attempt insert_attempt_row publish_job create_job
    outbox_message insert_outbox_row execute_in_tx conclude settle new_submission trim_space
    text_dec find_attempt find_text
submitted_outcome = refl

create_submission-IsQueued_example :
    IsQueued (services (codes "a1")) author request empty_tables submitted response
create_submission-IsQueued_example =
    create_submission-IsQueued healthy (services (codes "a1")) author request empty_tables submitted
      response empty_tables-IsConsistent submitted_outcome

judged_tables-IsConsistent : IsConsistent judged_tables
judged_tables-IsConsistent =
    Reachable-IsConsistent healthy
      (next submitted-Reachable (applies same_paths 2000 accepted_message))

abbrev rejudge_response : RejudgeResponse
rejudge_response = record {
  submission_id = pos 1;
  attempt_id = codes "a2";
  status = Status.pending;
  attempt_trigger = by_admin_rejudge;
  attempt_triggered_by_user_id = administrator.user_id;
  enqueued_at = 1000;
}

requeued_outcome :
    rejudge_submission healthy
      (services (codes "a2"))
      administrator
      (pos 1)
      judged_tables
      judged_tables
    ≡ (ok rejudge_response, requeued_tables)
unfolding create_submission with_language check_create parse_language is_executable with_problem
    admit pass_cooldown store_submission create_outcome create_tx create_submission_row insert_row
    create_attempt_row new_submission_attempt insert_attempt_row publish_job create_job
    outbox_message insert_outbox_row execute_in_tx conclude settle new_submission trim_space
    text_dec find_attempt find_text apply_judge_result check_result map_terminal_status parse_status
    validate_dataset_checksum map_test_case_results map_test_case cons_ok result_row
    parse_result_status check_status check_items checked terminal_or_error with_checked apply_tx
    get_by_id find_submission apply_locked text_eq apply_write update_submission_row
    modify_submission updated_row replace_results without_results result_row_for
    mark_attempt_completed modify_attempt completed_attempt completed judge_output_fields
    non_blank_string public_error_message mark_completed submission_event rejudge_submission
    with_check check_rejudge at_least role_level check_seen with_seen rejudge_seen rejudge_tx
    rejudge_locked rejudge_write reset_for_rejudge rejudge_job rejudge_outcome ℤ_discrete
requeued_outcome = refl

rejudge_submission-IsRequeued_example :
    IsRequeued administrator (pos 1) judged_tables requeued_tables rejudge_response
rejudge_submission-IsRequeued_example =
    rejudge_submission-IsRequeued healthy (services (codes "a2")) administrator (pos 1)
      judged_tables judged_tables requeued_tables rejudge_response judged_tables-IsConsistent
      requeued_outcome

-- The submission once its result was applied.
judged_state :
    (s : Submission) × (find_submission (pos 1) judged_tables.submissions ≡ some s)
    × (is_terminal_status s.status ≡ true)
judged_state =
    let (_, s, _, _, _, _, found, _, ended, _, _) =
      apply_judge_result-IsApplication healthy same_paths 2000 accepted_message submitted
        judged_tables accepted_event judged_outcome in
    (s, found, ended)

Step-Moved_example : Moved (pos 1) judged_state.0 requeued_tables
Step-Moved_example =
    Step-Moved healthy (pos 1) judged_state.0
      (rejudges (services (codes "a2")) administrator (pos 1) judged_tables)
      judged_tables-IsConsistent judged_state.1

apply_judge_result-ignored_example :
    (apply_judge_result healthy same_paths 4000 accepted_message judged_tables).1 ≡ judged_tables
apply_judge_result-ignored_example =
    apply_judge_result-ignored healthy same_paths 4000 accepted_message judged_tables judged_state.0
      judged_state.1 (inl judged_state.2)

abbrev nobody : Claims
nobody = record { user_id = []; username = []; role = user }

anonymous_outcome :
    create_submission healthy (services (codes "a3")) nobody request submitted
    ≡ (err (app unauthorized), submitted)
unfolding create_submission with_language check_create
anonymous_outcome = refl

create_submission-eq_err_example : submitted ≡ submitted
create_submission-eq_err_example =
    create_submission-eq_err healthy (services (codes "a3")) nobody request submitted submitted
      (app unauthorized) anonymous_outcome

forbidden_outcome :
    rejudge_submission healthy (services (codes "a3")) author (pos 1) submitted submitted
    ≡ (err (app submission_forbidden), submitted)
unfolding rejudge_submission with_check check_rejudge at_least role_level trim_space
forbidden_outcome = refl

rejudge_submission-eq_err_example : submitted ≡ submitted
rejudge_submission-eq_err_example =
    rejudge_submission-eq_err healthy (services (codes "a3")) author (pos 1) submitted submitted
      submitted (app submission_forbidden) forbidden_outcome

abbrev unfinished_message : ResultMessage
unfinished_message = record accepted_message { status = codes "JUDGING" }

unfinished_outcome :
    apply_judge_result healthy same_paths 2000 unfinished_message submitted
    ≡ (err (app invalid_submission_status), submitted)
unfolding apply_judge_result check_result trim_space map_terminal_status parse_status text_dec
    terminal_or_error check_status with_checked find_text
unfinished_outcome = refl

apply_judge_result-eq_err_example : submitted ≡ submitted
apply_judge_result-eq_err_example =
    apply_judge_result-eq_err healthy same_paths 2000 unfinished_message submitted submitted
      (app invalid_submission_status) unfinished_outcome

abbrev first_round : Round
first_round = record {
  now = 1500;
  limit = λ n ms. ms;
  send_error = λ m. none;
  canceled = λ m. false;
}

process_pending_messages-sent_example :
    (process_pending_messages healthy first_round (record { tables = submitted; sent = [] })).sent
    ≡ [] ++ deliverable first_round (before_cancel first_round (pending_rows submitted.outbox))
process_pending_messages-sent_example =
    process_pending_messages-sent healthy first_round (record { tables = submitted; sent = [] })
      refl

-- A message of the outbox, with its number of failed tries.
abbrev outbox_row : ℕ → ℕ → OutboxMessage
outbox_row k tries = record {
  id = pos k;
  aggregate_id = pos 1;
  topic = codes "judge.submission.jobs";
  payload = record {
    submission_id = pos 1;
    problem_id = pos 7;
    problem_slug = [];
    user_id = codes "u1";
    language = codes "GO";
    source_code = codes "x";
    attempt_id = codes "a1";
    enqueued_at = 1000;
  };
  status = OutboxStatus.pending;
  created_at = 1000;
  published_at = none;
  retry_count = tries;
  error_reason = some (codes "broker");
}

-- So many messages that have used their tries.
abbrev stuck_rows : ℕ → List OutboxMessage
stuck_rows zero = []
stuck_rows (suc n) = outbox_row (suc n) 5 ∷ stuck_rows n

stuck_rows-AllStuck : (n : ℕ) → AllStuck (stuck_rows n)
unfolding is_pending
stuck_rows-AllStuck zero = tt
stuck_rows-AllStuck (suc n) = (refl, omega arith, stuck_rows-AllStuck n)

length-stuck_rows : (n : ℕ) → n ≤ length (stuck_rows n)
length-stuck_rows zero = omega arith
length-stuck_rows (suc n) = omega (arith, length-stuck_rows n)

-- The tables with a full batch of them before a new message.
abbrev stuck_tables : Tables
stuck_tables = record submitted { outbox = stuck_rows 100 ++ outbox_row 101 0 ∷ [] }

-- A round whose query lets the first rows through.
abbrev ordered_round : Round
ordered_round = record {
  now = 1500;
  limit = λ n ms. take n ms;
  send_error = λ m. none;
  canceled = λ m. false;
}

abbrev two_rounds : List (Backend × Round)
two_rounds = (healthy, ordered_round) ∷ (healthy, ordered_round) ∷ []

process_pending_messages-exhausted_example :
    relay_rounds two_rounds (record { tables = stuck_tables; sent = [] })
    ≡ record { tables = stuck_tables; sent = [] }
process_pending_messages-exhausted_example =
    process_pending_messages-exhausted two_rounds (stuck_rows 100) (outbox_row 101 0 ∷ [])
      (record { tables = stuck_tables; sent = [] }) refl (length-stuck_rows 100)
      (stuck_rows-AllStuck 100) ((λ n rows. refl), ((λ n rows. refl), tt))

abbrev one_subscriber : EventHub
one_subscriber = record {
  subscribers = record { id = 0; submission_id = pos 1; waiting = none; closed = false } ∷ [];
  closed_channels = [];
  next_id = 1;
}

abbrev two_events : List SubmissionEvent
two_events =
    record accepted_event { updated_at = 1 } ∷ record accepted_event { updated_at = 2 } ∷ []

only_subscriber :
    find_subscriber 0 one_subscriber.subscribers
    ≡ some (record { id = 0; submission_id = pos 1; waiting = none; closed = false })
unfolding find_subscriber
only_subscriber = refl

publish_all-latest_example : HoldsLatest (pos 1) none two_events 0 one_subscriber
publish_all-latest_example =
    publish_all-latest two_events one_subscriber 0
      (record { id = 0; submission_id = pos 1; waiting = none; closed = false }) only_subscriber
      refl

one_subscriber-IsNew : IsNew one_subscriber
unfolding find_subscriber is_closed
one_subscriber-IsNew = (refl, refl)

subscribe-unsubscribe_example : ComesAndGoes (pos 1) two_events one_subscriber
subscribe-unsubscribe_example =
    subscribe-unsubscribe (pos 1) two_events one_subscriber one_subscriber-IsNew

abbrev shown_error : Text
shown_error = codes "broken pipe"

shown_error_outcome : public_error_message same_paths (some shown_error) ≡ some shown_error
unfolding public_error_message strip_control_characters to_valid_utf8 trim_space
shown_error_outcome = refl

length-public_error_message_example : length shown_error ≤ max_stored_error_message_bytes + 3
length-public_error_message_example =
    length-public_error_message same_paths (some shown_error) shown_error shown_error_outcome

abbrev steady_tries : Tries
steady_tries = record {
  db = λ n. healthy;
  now = λ n. 2000;
  ended = λ n. false;
  ended_waiting = λ n. false;
  dlt = rejected;
}

handle_result-IsSettled_example :
    IsSettled same_paths steady_tries
      (some unfinished_message)
      submitted
      (handle_result same_paths steady_tries (some unfinished_message) submitted)
handle_result-IsSettled_example =
    handle_result-IsSettled same_paths steady_tries submitted (some unfinished_message)
