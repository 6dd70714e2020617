-- ===== src/Worker/Consumer.antt =====
-- workers/judge/internal/adapter/inbound/kafka/judge_job_consumer.go: what the handler does with one
-- message of the jobs topic, as the sequence of what it asks of the use case, the clock, the
-- dead-letter topic and the consumer session.
pub mod Laws
use go_judge_system.Prelude.{
  ℕ, zero, suc, ◌*◌, ◌^◌, ◌-◌, ltb, Text, codes, Bool, true, false, Option, none, some, List, [],
  ◌∷◌, ◌++◌, if◌then◌else◌,
}
use go_judge_system.Submission.Entity.{JobMessage}

abbrev pub default_max_retries : ℕ
default_max_retries = 3

-- In milliseconds.
abbrev pub default_retry_base_wait : ℕ
default_retry_base_wait = 500

pub data Event : Type 0 where
  executes waits : ℕ → Event
  -- The message is in the dead-letter topic, with the error and the number of tries.
  dead_letters : Text → ℕ → Event
  -- `session.MarkMessage`: the offset will be committed.
  marks : Text → Event

-- `dltPublisher`: not configured, or its answer to a message.
pub data DltPublisher : Type 0 where
  missing accepts refuses : DltPublisher

-- What a message meets: whether a slot is free before the session ends, what its bytes decode to, the
-- error of the use case at each try, and whether the session has ended after a try or in the wait
-- that follows it.
pub record Delivery : Type 0 where
  pub has_slot : Bool
  pub decoded : Option JobMessage
  pub decode_error : Text
  pub execute_error : JobMessage → ℕ → Option Text
  pub canceled_after : ℕ → Bool
  pub canceled_waiting : ℕ → Bool
  pub dlt : DltPublisher

-- `sendToDLT`: a failure is logged and nothing else.
unfoldable pub send_to_dlt : DltPublisher → Text → ℕ → List Event
send_to_dlt missing e n = []
send_to_dlt refuses e n = []
send_to_dlt accepts e n = dead_letters e n ∷ []

-- `defaultRetryBaseWait * (1 << (attempt - 1))`.
unfoldable pub backoff : ℕ → ℕ
backoff attempt = default_retry_base_wait * 2 ^ (attempt - 1)

module _ (d : Delivery) where
  open d use {has_slot, decoded, decode_error, execute_error, canceled_after, canceled_waiting, dlt}

  unfoldable pub give_up : Text → List Event
  give_up last = send_to_dlt dlt last default_max_retries ++ marks (codes "dlt_forwarded") ∷ []

  -- What follows try `attempt`, where `next` is what follows the loop's round.
  unfoldable pub after_try : ℕ → Option Text → (Text → List Event) → List Event
  after_try attempt none next = marks (codes "processed") ∷ []
  after_try attempt (some e) next =
      if canceled_after attempt
      then []
      else if ltb attempt default_max_retries
      then waits (backoff attempt) ∷ (if canceled_waiting attempt then [] else next e)
      else next e

  -- The loop from try `attempt` on, with `left` tries left.
  unfoldable pub retry : JobMessage → ℕ → ℕ → Text → List Event
  retry job attempt zero last = give_up last
  retry job attempt (suc left) last =
      executes attempt
      ∷ after_try attempt (execute_error job attempt) (retry job (suc attempt) left)

  unfoldable pub with_payload : Option JobMessage → List Event
  with_payload none = send_to_dlt dlt decode_error 0 ++ marks (codes "invalid_payload_dlt") ∷ []
  with_payload (some job) = retry job 1 default_max_retries []

  unfoldable pub with_slot : Bool → List Event
  with_slot false = []
  with_slot true = with_payload decoded

  -- `judgeJobHandler.handleMessage`.
  unfoldable pub handle_message : List Event
  handle_message = with_slot has_slot
