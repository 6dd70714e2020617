-- ===== src/Submission/Relay.antt =====
-- services/submission/internal/adapter/outbound/outbox/relay.go, with the outbox repository of
-- adapter/outbound/persistence/postgres/outbox.go: one round of the poll that publishes the pending
-- messages to the broker.
pub mod Delivery
use go_judge_system.Prelude.{
  ℕ, suc, ℤ, leb, Text, Bool, true, false, Option, none, some, List, [], ◌∷◌, ◌++◌, if◌then◌else◌,
}
use go_judge_system.Submission.Errors.{Fault}
use go_judge_system.Submission.Entity.{OutboxMessage, OutboxStatus}
use go_judge_system.Submission.Tables.{Tables, modify_outbox, select_outbox, update_outbox, Backend}

abbrev pub max_publish_retries : ℕ
max_publish_retries = 5

abbrev pub batch_size : ℕ
batch_size = 100

unfoldable pub is_pending : OutboxMessage → Bool
is_pending m = elim m.status [ OutboxStatus.pending ↦ true | _ ↦ false ]

-- The rows that WHERE status = 'PENDING' lets through.
unfoldable pub pending_rows : List OutboxMessage → List OutboxMessage
unfolding is_pending
pending_rows [] = []
pending_rows (m ∷ rows) = let rest = pending_rows rows in if is_pending m then m ∷ rest else rest

-- What a round meets outside: the clock, which rows LIMIT lets through (the query has no ORDER BY),
-- what the broker says to a message, and whether the context has ended before a message.
pub record Round : Type 0 where
  pub now : ℕ
  pub limit : ℕ → List OutboxMessage → List OutboxMessage
  pub send_error : OutboxMessage → Option Text
  pub canceled : OutboxMessage → Bool

-- `MarkPublished`.
unfoldable pub published_row : ℕ → OutboxMessage → OutboxMessage
published_row now m = record m { status = OutboxStatus.published; published_at = some now }

-- `MarkFailed`: the message stays pending.
unfoldable pub failed_row : Text → OutboxMessage → OutboxMessage
failed_row reason m = record m { retry_count = suc m.retry_count; error_reason = some reason }

-- The tables, and the messages that the broker has taken, in order.
pub record Relayed : Type 0 where
  pub tables : Tables
  pub sent : List OutboxMessage

-- An update of the outbox that is refused is logged and nothing else.
unfoldable pub write_outbox : Option Fault → ℤ → (OutboxMessage → OutboxMessage) → Relayed → Relayed
write_outbox (some f) k g r = r
write_outbox none k g r = record r {
  tables = record r.tables { outbox = modify_outbox k g r.tables.outbox };
}

module _ (db : Backend) (round : Round) where
  open round use {now, limit, send_error, canceled}

  unfoldable pub after_send : OutboxMessage → Option Text → Relayed → Relayed
  after_send m (some reason) r =
      write_outbox (db.refuses update_outbox r.tables) m.id (failed_row reason) r
  after_send m none r =
      write_outbox (db.refuses update_outbox r.tables) m.id (published_row now)
        (record r { sent = r.sent ++ m ∷ [] })

  -- One message.
  unfoldable pub relay_message : OutboxMessage → Relayed → Relayed
  relay_message m r =
      if leb max_publish_retries m.retry_count then r else after_send m (send_error m) r

  -- The loop over the messages; it stops when the context has ended.
  unfoldable pub relay_messages : List OutboxMessage → Relayed → Relayed
  relay_messages [] r = r
  relay_messages (m ∷ ms) r =
      let rest = relay_messages ms (relay_message m r) in if canceled m then r else rest

  unfoldable pub fetched : Option Fault → Relayed → Relayed
  fetched (some f) r = r
  fetched none r = relay_messages (limit batch_size (pending_rows r.tables.outbox)) r

  -- `processPendingMessages`.
  unfoldable pub process_pending_messages : Relayed → Relayed
  process_pending_messages r = fetched (db.refuses select_outbox r.tables) r
