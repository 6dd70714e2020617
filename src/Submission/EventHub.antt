-- ===== src/Submission/EventHub.antt =====
-- services/submission/internal/adapter/outbound/stream/event_hub.go: the subscribers of the events of
-- a submission. Each subscriber has a channel with room for one event; `id` stands for its pointer.
-- One event is published by a single step: a subscriber that leaves in between is closed by then, and
-- a closed one takes no event.
pub mod Laws
use go_judge_system.Prelude.{
  ℕ, suc, ◌==◌, ℤ, ℤ_discrete, ite, length, Bool, true, false, ◌||◌, Option, none, some, List, [],
  ◌∷◌, ◌++◌, map, if◌then◌else◌,
}
use go_judge_system.Submission.Entity.{SubmissionEvent}

pub record Subscriber : Type 0 where
  pub id : ℕ
  pub submission_id : ℤ
  -- The event in the buffer of the channel.
  pub waiting : Option SubmissionEvent
  pub closed : Bool

-- The subscribers of all submissions, the next pointer, and the channels that are closed.
pub record EventHub : Type 0 where
  pub subscribers : List Subscriber
  pub next_id : ℕ
  pub closed_channels : List ℕ

-- `Subscribe`.
unfoldable pub subscribe : ℤ → EventHub → ℕ × EventHub
subscribe submission_id h =
    let sub : Subscriber = record {
      id = h.next_id;
      submission_id = submission_id;
      waiting = none;
      closed = false;
    } in
    (h.next_id, record h { subscribers = sub ∷ h.subscribers; next_id = suc h.next_id })

unfoldable pub without_subscriber : ℕ → List Subscriber → List Subscriber
without_subscriber id [] = []
without_subscriber id (s ∷ ss) =
    let rest = without_subscriber id ss in if s.id == id then rest else s ∷ rest

unfoldable pub is_closed : ℕ → List ℕ → Bool
is_closed id [] = false
is_closed id (j ∷ js) = j == id || is_closed id js

-- The function that `Subscribe` returns: the subscriber leaves its bucket and its channel is closed, once.
unfoldable pub unsubscribe : ℕ → EventHub → EventHub
unfolding without_subscriber is_closed
unsubscribe id h = if is_closed id h.closed_channels then h else record h {
  subscribers = without_subscriber id h.subscribers;
  closed_channels = id ∷ h.closed_channels;
}

-- `trySendLatest`: a full buffer is emptied first.
unfoldable pub try_send_latest : SubmissionEvent → Subscriber → Subscriber
try_send_latest e s = record s { waiting = if s.closed then s.waiting else some e }

unfoldable pub publish_to : SubmissionEvent → List Subscriber → List Subscriber
publish_to e [] = []
publish_to e (s ∷ ss) =
    ite (ℤ_discrete s.submission_id e.submission_id) (try_send_latest e s) s ∷ publish_to e ss

-- `Publish`.
unfoldable pub publish : SubmissionEvent → EventHub → EventHub
publish e h = record h { subscribers = publish_to e h.subscribers }

unfoldable pub count_for : ℤ → List Subscriber → ℕ
count_for k [] = 0
count_for k (s ∷ ss) =
    let rest = count_for k ss in ite (ℤ_discrete s.submission_id k) (suc rest) rest

-- `SubscriberCount`.
unfoldable pub subscriber_count : ℤ → EventHub → ℕ
subscriber_count k h = count_for k h.subscribers
