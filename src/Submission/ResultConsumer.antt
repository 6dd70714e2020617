-- ===== src/Submission/ResultConsumer.antt =====
-- services/submission/internal/adapter/inbound/kafka/judge_result_consumer.go: how a result message of
-- the worker is tried, given up and committed. The database and the clock of each try, and the ends of the
-- session, are the fields of `Tries`.
pub mod Laws
use go_judge_system.Prelude.{
  ℕ, zero, suc, ◌-◌, ◌*◌, ◌^◌, Text, Bool, true, false, ◌||◌, Option, none, some, List, [], ◌∷◌,
  if◌then◌else◌,
}
use go_judge_system.Submission.Errors.{
  Error, is, invalid_judge_result, invalid_submission_status, submission_not_found, Result, ok, err,
}
use go_judge_system.Submission.Entity.{ResultMessage}
use go_judge_system.Submission.Tables.{Tables, Backend}
use go_judge_system.Submission.Apply.{Published, apply_judge_result}

-- The text that a message is committed with.
pub data Mark : Type 0 where
  invalid_payload_dlt processed non_retryable_dlt dlt_forwarded : Mark

-- The message is in the dead-letter topic, with its retry count; a wait in milliseconds; a commit.
pub data ConsumerEvent : Type 0 where
  forwards : ℕ → ConsumerEvent
  pauses : ℕ → ConsumerEvent
  commits : Mark → ConsumerEvent

-- `dltPublisher`: not configured, or its answer to the message.
pub data DltAnswer : Type 0 where
  no_publisher published rejected : DltAnswer

-- What the tries meet, by their numbers from 1.
pub record Tries : Type 0 where
  pub db : ℕ → Backend
  pub now : ℕ → ℕ
  pub ended : ℕ → Bool
  pub ended_waiting : ℕ → Bool
  pub dlt : DltAnswer

abbrev pub default_result_max_retries : ℕ
default_result_max_retries = 3

-- `isNonRetryableJudgeResultError`.
unfoldable pub is_non_retryable : Error → Bool
is_non_retryable e =
    is e invalid_judge_result || is e invalid_submission_status || is e submission_not_found

-- `sendToDLT`, with what follows it: where there is no publisher, or the topic rejects the message, that is
-- logged and nothing else.
unfoldable pub send_result_to_dlt : DltAnswer → ℕ → List ConsumerEvent → List ConsumerEvent
send_result_to_dlt published n next = forwards n ∷ next
send_result_to_dlt no_publisher n next = next
send_result_to_dlt rejected n next = next

abbrev pub Handling : Type 0
Handling = Tables × List ConsumerEvent

unfoldable pub pausing : ℕ → Handling → Handling
pausing n (t, events) = (t, pauses (500 * 2 ^ (n - 1)) ∷ events)

module _ (hide_paths : Text → Text) (tries : Tries) where
  -- The wait after the try `n`, with so many tries left.
  unfoldable pub wait_or_end : ℕ → ℕ → Tables → Handling → Handling
  unfolding pausing
  wait_or_end zero n t next = next
  wait_or_end (suc left) n t next = if tries.ended_waiting n then (t, []) else pausing n next

  unfoldable pub after_apply : ℕ → ℕ → (Tables → Handling) → Result Published × Tables → Handling
  unfolding wait_or_end is_non_retryable send_result_to_dlt
  after_apply left n go_on (ok p, t) = (t, commits processed ∷ [])
  after_apply left n go_on (err e, t) =
      if is_non_retryable e
      then (t, send_result_to_dlt tries.dlt (n - 1) (commits non_retryable_dlt ∷ []))
      else if tries.ended n
      then (t, [])
      else wait_or_end left n t (go_on t)

  -- The loop of `handleMessage`, with so many tries left, at the try `n`.
  unfoldable pub try_apply : ResultMessage → ℕ → ℕ → Tables → Handling
  unfolding after_apply
  try_apply msg zero n t =
      (t, send_result_to_dlt tries.dlt default_result_max_retries (commits dlt_forwarded ∷ []))
  try_apply msg (suc left) n t =
      after_apply left n (try_apply msg left (suc n))
        (apply_judge_result (tries.db n) hide_paths (tries.now n) msg t)

  -- `handleMessage`; a payload that is not a message is `none`.
  unfoldable pub handle_result : Option ResultMessage → Tables → Handling
  unfolding try_apply
  handle_result none t = (t, send_result_to_dlt tries.dlt 0 (commits invalid_payload_dlt ∷ []))
  handle_result (some msg) t = try_apply msg default_result_max_retries 1 t
