-- ===== src/Submission/Lifecycle/Consistency.antt =====
-- The invariant of the tables holds in every reachable state.
use go_judge_system.Prelude.{ℕ, ℤ, Text, trim_space, true, ◌≡◌, sym, subst, inl, inr, none}
use go_judge_system.Submission.Entity.{Submission, Status, is_terminal_status, ResultMessage}
use go_judge_system.Submission.Tables.{Tables, find_attempt, Backend}
use go_judge_system.Submission.Create.{Services, create_tx}
use go_judge_system.Submission.Rejudge.{rejudge_tx}
use go_judge_system.Submission.Apply.{Checked, apply_tx}
use go_judge_system.Submission.Effects.{Ensures}
use go_judge_system.Submission.Effects.Creating.{create_tx-eq_ok}
use go_judge_system.Submission.Effects.Rejudging.{rejudge_tx-eq_ok}
use go_judge_system.Submission.Effects.Applying.{apply_tx-eq_ok}
use go_judge_system.Submission.Consistency.{IsConsistent, empty_tables-IsConsistent}
use go_judge_system.Submission.Consistency.Created.{created_tables-IsConsistent}
use go_judge_system.Submission.Consistency.Rejudged.{rejudged_tables-IsConsistent}
use go_judge_system.Submission.Consistency.Applied.{applied_tables-IsConsistent}
use go_judge_system.Submission.Consistency.Relayed.{process_pending_messages-IsConsistent}
use go_judge_system.Submission.Lifecycle.{
  Step, creates, rejudges, applies, relays, Reachable, start, next,
}
use go_judge_system.Submission.Lifecycle.Outcomes.{
  check_result_terminal, create_submission_state, rejudge_submission_state,
  apply_judge_result_state,
}

module _ (db : Backend) (svc : Services) (t : Tables) (c : IsConsistent t) where
  create_tx-IsConsistent :
      (user_id : Text) (slug : Text) (draft : Submission)
      → trim_space draft.current_attempt_id ≡ draft.current_attempt_id
      → draft.status ≡ Status.pending
      → Ensures (create_tx db svc slug user_id draft) t (λ _. IsConsistent)
  create_tx-IsConsistent user_id slug draft trimmed waiting s t' h =
      let (same, _, unused) = create_tx-eq_ok db svc slug user_id draft t s t' h in
      subst IsConsistent (sym same) (
        created_tables-IsConsistent svc slug user_id draft t c trimmed waiting
          (subst (λ a. find_attempt a t.attempts ≡ none) trimmed unused))

  rejudge_tx-IsConsistent :
      (k : ℤ) (user_id : Text) (attempt_id : Text)
      → trim_space attempt_id ≡ attempt_id
      → Ensures (rejudge_tx db svc user_id attempt_id k) t (λ _. IsConsistent)
  rejudge_tx-IsConsistent k user_id attempt_id trimmed s' t' h =
      let (s, found, _, same, unused) = rejudge_tx-eq_ok db svc user_id attempt_id k t s' t' h in
      subst IsConsistent (sym same) (
        rejudged_tables-IsConsistent svc user_id attempt_id k s t c found trimmed
          (subst (λ a. find_attempt a t.attempts ≡ none) trimmed unused))

apply_tx-IsConsistent :
    (db : Backend) (hide_paths : Text → Text) (now : ℕ) (msg : ResultMessage) (k : Checked)
    (t : Tables)
    → IsConsistent t
    → is_terminal_status k.status ≡ true
    → Ensures (apply_tx db hide_paths now msg k) t (λ _. IsConsistent)
apply_tx-IsConsistent db hide_paths now msg k t c ended p t' h =
    let (s, found, change) = apply_tx-eq_ok db hide_paths now msg k t p t' h in
    elim change [
      | inl (_, same) ↦ subst IsConsistent (sym same) c
      | inr (awaits, (_, same)) ↦
          subst IsConsistent (sym same)
            (applied_tables-IsConsistent db hide_paths now msg k s t c found awaits.0 ended)
    ]

-- Every step, successful or not, keeps the tables consistent: a submission agrees in status with the
-- record of its current attempt, that attempt is its own and its job was queued, and an attempt has
-- results only if it is recorded and, for a current one, only if the submission has ended.
pub Step-IsConsistent :
    (db : Backend) {t u : Tables} → Step db t u → IsConsistent t → IsConsistent u
Step-IsConsistent db (creates svc claims req) c =
    create_submission_state db svc claims req _ IsConsistent c
      (create_tx-IsConsistent db svc _ c claims.user_id)
Step-IsConsistent db (rejudges svc claims k before) c =
    rejudge_submission_state db svc claims k _ IsConsistent c
      (rejudge_tx-IsConsistent db svc _ c k claims.user_id) before
Step-IsConsistent db (applies hide_paths now msg) c =
    apply_judge_result_state db hide_paths now msg _ IsConsistent c
      λ k h. apply_tx-IsConsistent db hide_paths now msg k _ c (check_result_terminal msg k h)
Step-IsConsistent db (relays round sent) c = process_pending_messages-IsConsistent db round _ c

-- Whatever requests, results and relay rounds the service has met since the empty database, and
-- whichever statements the database refused, the tables are consistent.
pub Reachable-IsConsistent : (db : Backend) {t : Tables} → Reachable db t → IsConsistent t
Reachable-IsConsistent db start = empty_tables-IsConsistent
Reachable-IsConsistent db (next r st) = Step-IsConsistent db st (Reachable-IsConsistent db r)
