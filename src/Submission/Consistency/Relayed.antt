-- ===== src/Submission/Consistency/Relayed.antt =====
-- A round of the relay keeps the tables consistent: it touches no payload.
use go_judge_system.Prelude.{
  ℤ, leb, Text, Bool-cases, ◌≡◌, refl, ◌∙◌, inl, inr, Option, none, some, List, [], ◌∷◌,
}
use go_judge_system.Submission.Errors.{Fault}
use go_judge_system.Submission.Entity.{OutboxMessage}
use go_judge_system.Submission.Tables.{Tables, modify_outbox, Backend}
use go_judge_system.Submission.Tables.Laws.{has_job-modify_outbox}
use go_judge_system.Submission.Relay.{
  max_publish_retries, Round, Relayed, write_outbox, published_row, failed_row, after_send,
  relay_message, relay_messages, fetched, process_pending_messages,
}
use go_judge_system.Submission.Consistency.{IsLinked-keep, IsConsistent}

outbox-IsConsistent :
    (t : Tables) (k : ℤ) (g : OutboxMessage → OutboxMessage)
    → ((m : OutboxMessage) → (g m).payload ≡ m.payload)
    → IsConsistent t
    → IsConsistent (record t { outbox = modify_outbox k g t.outbox })
outbox-IsConsistent t k g keeps c = record {
  fresh = c.fresh;
  linked = λ j s h.
      let l = c.linked j s h in
      IsLinked-keep t _ s l l.recorded
        (has_job-modify_outbox s.id s.current_attempt_id k g t.outbox keeps ∙ l.queued) (λ _. refl);
  orphans = c.orphans;
}

write_outbox-IsConsistent :
    (f : Option Fault) (k : ℤ) (g : OutboxMessage → OutboxMessage) (r : Relayed)
    → ((m : OutboxMessage) → (g m).payload ≡ m.payload)
    → IsConsistent r.tables
    → IsConsistent (write_outbox f k g r).tables
unfolding write_outbox
write_outbox-IsConsistent (some x) k g r keeps c = c
write_outbox-IsConsistent none k g r keeps c = outbox-IsConsistent r.tables k g keeps c

module _ (db : Backend) (round : Round) where
  after_send-IsConsistent :
      (m : OutboxMessage) (e : Option Text) (r : Relayed)
      → IsConsistent r.tables
      → IsConsistent (after_send db round m e r).tables
  unfolding after_send published_row failed_row
  after_send-IsConsistent m (some reason) r c =
      write_outbox-IsConsistent _ m.id (failed_row reason) r (λ x. refl) c
  after_send-IsConsistent m none r c =
      write_outbox-IsConsistent _ m.id (published_row round.now) _ (λ x. refl) c

  relay_message-IsConsistent :
      (m : OutboxMessage) (r : Relayed)
      → IsConsistent r.tables
      → IsConsistent (relay_message db round m r).tables
  unfolding relay_message
  relay_message-IsConsistent m r c = elim (Bool-cases (leb max_publish_retries m.retry_count)) [
    | inl e ↦ rw e c
    | inr e ↦ rw e (after_send-IsConsistent m (round.send_error m) r c)
  ]

  relay_messages-IsConsistent :
      (ms : List OutboxMessage) (r : Relayed)
      → IsConsistent r.tables
      → IsConsistent (relay_messages db round ms r).tables
  unfolding relay_messages
  relay_messages-IsConsistent [] r c = c
  relay_messages-IsConsistent (m ∷ ms) r c = elim (Bool-cases (round.canceled m)) [
    | inl e ↦ rw e c
    | inr e ↦ rw e (relay_messages-IsConsistent ms _ (relay_message-IsConsistent m r c))
  ]

  fetched-IsConsistent :
      (f : Option Fault) (r : Relayed)
      → IsConsistent r.tables
      → IsConsistent (fetched db round f r).tables
  unfolding fetched
  fetched-IsConsistent (some f) r c = c
  fetched-IsConsistent none r c = relay_messages-IsConsistent _ r c

  pub process_pending_messages-IsConsistent :
      (r : Relayed)
      → IsConsistent r.tables
      → IsConsistent (process_pending_messages db round r).tables
  unfolding process_pending_messages
  process_pending_messages-IsConsistent r c = fetched-IsConsistent _ r c
