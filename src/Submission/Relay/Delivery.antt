-- ===== src/Submission/Relay/Delivery.antt =====
-- What the broker gets in a round, and which messages it never gets again.
use mathlib.Core.List.{append-nil, append_assoc}
use go_judge_system.Prelude.{
  ℕ, zero, suc, ◌≤◌, length, take, subst, arith, leb, le→leb, ℤ, Text, Bool, true, false, not, ◌&&◌,
  Bool-cases, ◌≡◌, refl, sym, ap, ◌∙◌, inl, inr, Option, none, some, List, [], ◌∷◌, ◌++◌,
  if◌then◌else◌,
}
use go_judge_system.Submission.Errors.{Fault}
use go_judge_system.Submission.Entity.{OutboxMessage}
use go_judge_system.Submission.Tables.{Backend, select_outbox}
use go_judge_system.Submission.Relay.{
  max_publish_retries, batch_size, is_pending, pending_rows, Round, Relayed, write_outbox,
  after_send, relay_message, relay_messages, fetched, process_pending_messages,
}

is_sent : Option Text → Bool
is_sent none = true
is_sent (some reason) = false

-- The messages that come before the context ends.
unfoldable pub before_cancel : Round → List OutboxMessage → List OutboxMessage
before_cancel round [] = []
before_cancel round (m ∷ ms) =
    let rest = before_cancel round ms in if round.canceled m then [] else m ∷ rest

-- Those of them that have a try left and that the broker takes.
unfoldable pub deliverable : Round → List OutboxMessage → List OutboxMessage
unfolding is_sent
deliverable round [] = []
deliverable round (m ∷ ms) =
    let rest = deliverable round ms in
    if not (leb max_publish_retries m.retry_count) && is_sent (round.send_error m)
    then m ∷ rest
    else rest

module _ (db : Backend) (round : Round) where
  write_outbox-sent :
      (f : Option Fault) (k : ℤ) (g : OutboxMessage → OutboxMessage) (r : Relayed)
      → (write_outbox f k g r).sent ≡ r.sent
  unfolding write_outbox
  write_outbox-sent (some x) k g r = refl
  write_outbox-sent none k g r = refl

  after_send-sent :
      (m : OutboxMessage) (e : Option Text) (r : Relayed)
      → (after_send db round m e r).sent ≡ r.sent ++ (if is_sent e then m ∷ [] else [])
  unfolding after_send is_sent
  after_send-sent m none r = write_outbox-sent _ m.id _ _
  after_send-sent m (some reason) r = write_outbox-sent _ m.id _ r ∙ sym (append-nil r.sent)

  relay_message-sent :
      (m : OutboxMessage) (r : Relayed)
      → (relay_message db round m r).sent ≡ r.sent ++ deliverable round (m ∷ [])
  unfolding relay_message deliverable
  relay_message-sent m r = elim (Bool-cases (leb max_publish_retries m.retry_count)) [
    | inl e ↦ rw e (sym (append-nil r.sent))
    | inr e ↦ rw e (after_send-sent m (round.send_error m) r)
  ]

  deliverable-cons :
      (m : OutboxMessage) (ms : List OutboxMessage)
      → deliverable round (m ∷ ms) ≡ deliverable round (m ∷ []) ++ deliverable round ms
  unfolding deliverable
  deliverable-cons m ms =
      elim (Bool-cases
        (not (leb max_publish_retries m.retry_count) && is_sent (round.send_error m))) [
          | inl e ↦ rw e refl
          | inr e ↦ rw e refl
        ]

  relay_messages-sent :
      (ms : List OutboxMessage) (r : Relayed)
      → (relay_messages db round ms r).sent ≡ r.sent ++ deliverable round (before_cancel round ms)
  unfolding relay_messages before_cancel deliverable
  relay_messages-sent [] r = sym (append-nil r.sent)
  relay_messages-sent (m ∷ ms) r = elim (Bool-cases (round.canceled m)) [
    | inl e ↦ rw e (sym (append-nil r.sent))
    | inr e ↦ rw e (
        relay_messages-sent ms (relay_message db round m r)
        ∙ ap (λ x. x ++ deliverable round (before_cancel round ms)) (relay_message-sent m r)
        ∙ append_assoc r.sent _ _
        ∙ ap (λ x. r.sent ++ x) (sym (deliverable-cons m (before_cancel round ms))))
  ]

  -- A round whose query succeeds hands to the broker, in order and once each, the messages of its batch
  -- that come before the context ends, have a try left and are taken: whether the database then
  -- accepts the updates of the outbox plays no part.
  pub process_pending_messages-sent :
      (r : Relayed)
      → db.refuses select_outbox r.tables ≡ none
      → (process_pending_messages db round r).sent
        ≡ r.sent
          ++ deliverable round
              (before_cancel round (round.limit batch_size (pending_rows r.tables.outbox)))
  unfolding process_pending_messages fetched
  process_pending_messages-sent r h = rw h (relay_messages-sent _ r)

  -- Every message of a list has used its tries.
  abbrev pub AllExhausted : List OutboxMessage → Type 0
  AllExhausted [] = Unit {0}
  AllExhausted (m ∷ ms) = (max_publish_retries ≤ m.retry_count) × AllExhausted ms

  relay_messages-exhausted :
      (ms : List OutboxMessage) (r : Relayed) → AllExhausted ms → relay_messages db round ms r ≡ r
  unfolding relay_messages relay_message
  relay_messages-exhausted [] r h = refl
  relay_messages-exhausted (m ∷ ms) r (h, hs) =
      rw (le→leb _ _ h) (elim (Bool-cases (round.canceled m)) [
        | inl e ↦ rw e refl
        | inr e ↦ rw e (relay_messages-exhausted ms r hs)
      ])

  round-exhausted :
      (r : Relayed)
      → AllExhausted (round.limit batch_size (pending_rows r.tables.outbox))
      → process_pending_messages db round r ≡ r
  unfolding process_pending_messages fetched
  round-exhausted r h = go (db.refuses select_outbox r.tables)
    where
      go : (f : Option Fault) → fetched db round f r ≡ r
      go (some f) = refl
      go none = relay_messages-exhausted _ r h

-- Rounds one after the other, each with a database of its own.
unfoldable pub relay_rounds : List (Backend × Round) → Relayed → Relayed
relay_rounds [] r = r
relay_rounds ((db, round) ∷ rounds) r = relay_rounds rounds (process_pending_messages db round r)

-- The query of every round lets the first rows of the table through.
abbrev pub AllInOrder : List (Backend × Round) → Type 0
AllInOrder [] = Unit {0}
AllInOrder ((db, round) ∷ rounds) =
    ((n : ℕ) (rows : List OutboxMessage) → round.limit n rows ≡ take n rows) × AllInOrder rounds

-- Every message of a list is pending and has used its tries.
abbrev pub AllStuck : List OutboxMessage → Type 0
AllStuck [] = Unit {0}
AllStuck (m ∷ ms) = (is_pending m ≡ true) × (max_publish_retries ≤ m.retry_count) × AllStuck ms

stuck-AllExhausted :
    (db : Backend) (round : Round) (n : ℕ) (stuck waiting : List OutboxMessage)
    → n ≤ length stuck
    → AllStuck stuck
    → AllExhausted db round (take n (pending_rows (stuck ++ waiting)))
unfolding pending_rows
stuck-AllExhausted db round zero stuck waiting l h = tt
stuck-AllExhausted db round (suc n) [] waiting l h = absurd (omega (arith, l))
stuck-AllExhausted db round (suc n) (m ∷ ms) waiting l (p, t, hs) =
    rw p (t, stuck-AllExhausted db round n ms waiting (omega (arith, l)) hs)

-- Starvation: where a full batch of pending messages that have used their tries stands before the others, and
-- the query lets the first rows of the table through, then however many rounds follow, whatever the
-- broker would take and whatever the database refuses, no message is sent and no row changes: those
-- that wait behind the batch stay pending.
pub process_pending_messages-exhausted :
    (rounds : List (Backend × Round)) (stuck waiting : List OutboxMessage) (r : Relayed)
    → r.tables.outbox ≡ stuck ++ waiting
    → batch_size ≤ length stuck
    → AllStuck stuck
    → AllInOrder rounds
    → relay_rounds rounds r ≡ r
unfolding relay_rounds
process_pending_messages-exhausted [] stuck waiting r o l h q = refl
process_pending_messages-exhausted ((db, round) ∷ rounds) stuck waiting r o l h (first, q) =
    let batch =
      subst (λ rows. AllExhausted db round (take batch_size (pending_rows rows))) (sym o)
        (stuck-AllExhausted db round batch_size stuck waiting l h) in
    let same = round-exhausted db round r (
      subst (λ rows. AllExhausted db round rows)
        (sym (first batch_size (pending_rows r.tables.outbox))) batch) in
    ap (relay_rounds rounds) same
    ∙ process_pending_messages-exhausted rounds stuck waiting r o l h q
