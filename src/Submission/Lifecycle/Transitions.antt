-- ===== src/Submission/Lifecycle/Transitions.antt =====
-- How one step moves a submission: the state diagram of a submission's status.
use mathlib.Core.Option.{some-injective}
use go_judge_system.Prelude.{
  ℕ, ℤ, ℤ_discrete, Text, trim_space, leb, true, false, Bool-cases, ◌≡◌, ◌≢◌, refl, sym, ap, subst,
  ◌∙◌, inl, inr, Option, none, some, List, [], ◌∷◌,
}
use go_judge_system.Submission.Errors.{Fault}
use go_judge_system.Submission.Entity.{
  Submission, Status, is_terminal_status, reset_for_rejudge, mark_completed, ResultMessage,
  OutboxMessage,
}
use go_judge_system.Submission.Tables.{
  Tables, find_submission, find_attempt, modify_submission, Backend,
}
use go_judge_system.Submission.Tables.Laws.{
  find_submission-append, find_submission-id, find_submission-modify, find_submission-modify_ne,
}
use go_judge_system.Submission.Store.{
  updated_row, insert_row, insert_attempt_row, insert_outbox_row,
}
use go_judge_system.Submission.Create.{Services}
use go_judge_system.Submission.Apply.{Checked, completed}
use go_judge_system.Submission.Relay.{
  Round, Relayed, write_outbox, after_send, relay_message, relay_messages, fetched,
  max_publish_retries, process_pending_messages,
}
use go_judge_system.Submission.Effects.Creating.{create_tx-eq_ok, created_tables}
use go_judge_system.Submission.Effects.Rejudging.{rejudge_tx-eq_ok, rejudged_tables, requeued}
use go_judge_system.Submission.Effects.Applying.{apply_tx-eq_ok, applied_tables}
use go_judge_system.Submission.Consistency.{IsConsistent}
use go_judge_system.Submission.Lifecycle.{Step, creates, rejudges, applies, relays}
use go_judge_system.Submission.Lifecycle.Outcomes.{
  check_result_terminal, create_submission_state, rejudge_submission_state,
  apply_judge_result_state,
}

-- The arrows of the diagram. A submission ends once per attempt, and only a new attempt reopens it.
pub data Move (s s' : Submission) : Type 0 where
  stays : s ≡ s' → Move s s'
  ends :
      is_terminal_status s.status ≡ false
      → is_terminal_status s'.status ≡ true
      → s'.current_attempt_id ≡ s.current_attempt_id
      → Move s s'
  reopens :
      is_terminal_status s.status ≡ true
      → s'.status ≡ Status.pending
      → s'.current_attempt_id ≢ s.current_attempt_id
      → Move s s'

-- The submission is still there, moved along an arrow.
abbrev pub Moved : ℤ → Submission → Tables → Type 0
Moved k s u = (s' : Submission) × (find_submission k u.submissions ≡ some s') × Move s s'

module _ (k : ℤ) (s : Submission) (t : Tables)
    (found : find_submission k t.submissions ≡ some s) where
  unmoved : (u : Tables) → u.submissions ≡ t.submissions → Moved k s u
  unmoved u same = (s, ap (find_submission k) same ∙ found, stays refl)

  created-Moved :
      (svc : Services) (slug user_id : Text) (draft : Submission)
      → Moved k s (created_tables svc slug user_id draft t)
  unfolding created_tables insert_row insert_attempt_row insert_outbox_row
  created-Moved svc slug user_id draft =
      (s, find_submission-append k t.submissions _ s found, stays refl)

  -- An update of row `j` moves it if it is this one.
  modified-Moved :
      (j : ℤ) (f : Submission → Submission) (rows : List Submission)
      → rows ≡ modify_submission j f t.submissions
      → ((x : Submission) → (f x).id ≡ x.id)
      → ((j ≡ k) → Move s (f s))
      → (s' : Submission) × (find_submission k rows ≡ some s') × Move s s'
  modified-Moved j f rows same keeps move = elim (ℤ_discrete j k) [
    | yes e ↦ (
      f s,
      ap (find_submission k) same
          ∙ subst (λ i. find_submission k (modify_submission i f t.submissions) ≡ some (f s))
              (sym e) (find_submission-modify k f keeps t.submissions s found),
      move e,
    )
    | no n ↦ (
      s,
      ap (find_submission k) same
          ∙ find_submission-modify_ne j f keeps k t.submissions (λ e. n (sym e))
          ∙ found,
      stays refl,
    )
  ]

  -- Two lookups of the same key find the same submission.
  same_row : (j : ℤ) (x : Submission) → find_submission j t.submissions ≡ some x → j ≡ k → x ≡ s
  same_row j x h e =
      some-injective _ _ (sym h ∙ ap (λ i. find_submission i t.submissions) e ∙ found)

  rejudged-Moved :
      (svc : Services) (user_id attempt_id : Text) (j : ℤ) (x : Submission)
      → IsConsistent t
      → find_submission j t.submissions ≡ some x
      → is_terminal_status x.status ≡ true
      → trim_space attempt_id ≡ attempt_id
      → find_attempt (trim_space attempt_id) t.attempts ≡ none
      → Moved k s (rejudged_tables svc user_id attempt_id x t)
  unfolding rejudged_tables requeued reset_for_rejudge updated_row insert_attempt_row
      insert_outbox_row
  rejudged-Moved svc user_id attempt_id j x c here ended trimmed unused =
      modified-Moved x.id (updated_row (requeued svc attempt_id x)) _ refl (λ y. refl)
        λ e.
          let one = same_row j x here (sym (find_submission-id j t.submissions x here) ∙ e) in
          let l = c.linked k s found in
          reopens (subst (λ y. is_terminal_status y.status ≡ true) one ended) refl λ same.
            cc (
              sym l.recorded
              ∙ ap (λ a. find_attempt a t.attempts) (sym same ∙ sym trimmed)
              ∙ unused)

  applied-Moved :
      (db : Backend) (hide_paths : Text → Text) (now : ℕ) (msg : ResultMessage) (p : Checked)
      (x : Submission)
      → find_submission msg.submission_id t.submissions ≡ some x
      → is_terminal_status x.status ≡ false
      → is_terminal_status p.status ≡ true
      → Moved k s (applied_tables db hide_paths now msg p x t)
  unfolding applied_tables completed mark_completed updated_row
  applied-Moved db hide_paths now msg p x here waits ended =
      modified-Moved x.id (updated_row (completed db hide_paths now msg p.status x)) _ refl
        (λ y. refl)
        λ e.
          let at = find_submission-id msg.submission_id t.submissions x here in
          let one = same_row msg.submission_id x here (sym at ∙ e) in
          ends (subst (λ y. is_terminal_status y.status ≡ false) one waits) ended
            (ap (λ y. y.current_attempt_id) one)

-- The relay never touches a submission.
module _ (db : Backend) (round : Round) where
  write_outbox-submissions :
      (f : Option Fault) (k : ℤ) (g : OutboxMessage → OutboxMessage) (r : Relayed)
      → (write_outbox f k g r).tables.submissions ≡ r.tables.submissions
  unfolding write_outbox
  write_outbox-submissions (some x) k g r = refl
  write_outbox-submissions none k g r = refl

  after_send-submissions :
      (m : OutboxMessage) (e : Option Text) (r : Relayed)
      → (after_send db round m e r).tables.submissions ≡ r.tables.submissions
  unfolding after_send
  after_send-submissions m (some reason) r = write_outbox-submissions _ m.id _ r
  after_send-submissions m none r = write_outbox-submissions _ m.id _ _

  relay_message-submissions :
      (m : OutboxMessage) (r : Relayed)
      → (relay_message db round m r).tables.submissions ≡ r.tables.submissions
  unfolding relay_message
  relay_message-submissions m r = elim (Bool-cases (leb max_publish_retries m.retry_count)) [
    | inl e ↦ rw e refl
    | inr e ↦ rw e (after_send-submissions m (round.send_error m) r)
  ]

  relay_messages-submissions :
      (ms : List OutboxMessage) (r : Relayed)
      → (relay_messages db round ms r).tables.submissions ≡ r.tables.submissions
  unfolding relay_messages
  relay_messages-submissions [] r = refl
  relay_messages-submissions (m ∷ ms) r = elim (Bool-cases (round.canceled m)) [
    | inl e ↦ rw e refl
    | inr e ↦ rw e (relay_messages-submissions ms _ ∙ relay_message-submissions m r)
  ]

  fetched-submissions :
      (f : Option Fault) (r : Relayed)
      → (fetched db round f r).tables.submissions ≡ r.tables.submissions
  unfolding fetched
  fetched-submissions (some f) r = refl
  fetched-submissions none r = relay_messages-submissions _ r

  process_pending_messages-submissions :
      (r : Relayed)
      → (process_pending_messages db round r).tables.submissions ≡ r.tables.submissions
  unfolding process_pending_messages
  process_pending_messages-submissions r = fetched-submissions _ r

-- One step of the service, from consistent tables, loses no submission, and moves each along an arrow
-- of the diagram or not at all: a waiting submission may end, under the same attempt; an ended one
-- may only return to pending, and then under an attempt id that differs from the one it had.
pub Step-Moved :
    (db : Backend) {t u : Tables} (k : ℤ) (s : Submission)
    → Step db t u
    → IsConsistent t
    → find_submission k t.submissions ≡ some s
    → Moved k s u
Step-Moved db {t} k s (creates svc claims req) c found =
    create_submission_state db svc claims req t (Moved k s) (unmoved k s t found t refl)
      λ slug draft trimmed waiting row t' h.
        subst (Moved k s) (sym (create_tx-eq_ok db svc slug claims.user_id draft t row t' h).0)
          (created-Moved k s t found svc slug claims.user_id draft)
Step-Moved db {t} k s (rejudges svc claims j before) c found =
    rejudge_submission_state db svc claims j t (Moved k s) (unmoved k s t found t refl)
      (λ attempt_id trimmed s' t' h.
        let (x, here, ended, same, unused) =
          rejudge_tx-eq_ok db svc claims.user_id attempt_id j t s' t' h in
        subst (Moved k s) (sym same) (
          rejudged-Moved k s t found svc claims.user_id attempt_id j x c here ended trimmed unused))
      before
Step-Moved db {t} k s (applies hide_paths now msg) c found =
    apply_judge_result_state db hide_paths now msg t (Moved k s) (unmoved k s t found t refl)
      λ p checked e t' h.
        let (x, here, change) = apply_tx-eq_ok db hide_paths now msg p t e t' h in
        elim change [
          | inl (_, same) ↦ subst (Moved k s) (sym same) (unmoved k s t found t refl)
          | inr (awaits, (_, same)) ↦ subst (Moved k s) (sym same) (
              applied-Moved k s t found db hide_paths now msg p x here awaits.1
                (check_result_terminal msg p checked))
        ]
Step-Moved db {t} k s (relays round sent) c found = (
  s,
  ap (find_submission k) (process_pending_messages-submissions db round _) ∙ found,
  stays refl,
)
