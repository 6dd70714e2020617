-- ===== src/Submission/Lifecycle/Requeueing.antt =====
-- What a rejudge leaves when it succeeds: a pending submission whose job is queued again.
use go_judge_system.Prelude.{
  ℕ, ℤ, Text, is_empty, trim_space, true, Bool-cases, ◌≡◌, refl, sym, ap, subst, ◌∙◌, inl, inr,
  some, ◌||◌,
}
use go_judge_system.Submission.Errors.{Result, ok, err, ok-injective}
use go_judge_system.Submission.Entity.{Submission, Status, is_terminal_status, reset_for_rejudge}
use go_judge_system.Submission.Tables.{Tables, find_submission, modify_submission, has_job, Backend}
use go_judge_system.Submission.Tables.Laws.{find_submission-id, find_submission-modify}
use go_judge_system.Submission.Store.{insert_attempt_row, insert_outbox_row, updated_row}
use go_judge_system.Submission.Create.{Claims, Services, moderator, at_least}
use go_judge_system.Submission.Rejudge.{
  RejudgeResponse, has_no_role, check_rejudge, rejudge_outcome, rejudge_seen, with_seen, with_check,
  rejudge_submission,
}
use go_judge_system.Submission.Effects.Rejudging.{rejudge_tx-eq_ok, rejudged_tables, requeued}
use go_judge_system.Submission.Consistency.{IsConsistent}
use go_judge_system.Submission.Lifecycle.{rejudges}
use go_judge_system.Submission.Lifecycle.Consistency.{Step-IsConsistent}
use go_judge_system.Submission.Lifecycle.Judging.{execute_in_tx-eq_ok}
use go_judge_system.Submission.Lifecycle.Creation.{outcome_eq}

rejudge_outcome-eq_ok :
    (by : Text) (k : ℤ) (a : Text) (now : ℕ) (r : Result Submission) (p : RejudgeResponse)
    → rejudge_outcome by k a now r ≡ ok p
    → (s : Submission) × (r ≡ ok s) × (p.attempt_id ≡ a)
unfolding rejudge_outcome
rejudge_outcome-eq_ok by k a now (ok s) p h =
    (s, refl, sym (ap (λ x. x.attempt_id) (ok-injective _ _ h)))
rejudge_outcome-eq_ok by k a now (err e) p h = cc h

module _ (db : Backend) (svc : Services) (claims : Claims) (k : ℤ) (t u : Tables)
    (p : RejudgeResponse) where
  -- What the transaction of a successful rejudge found and left.
  abbrev Requeued : Type 0
  Requeued =
      (s : Submission) × (find_submission k t.submissions ≡ some s)
      × (is_terminal_status s.status ≡ true)
      × (u ≡ rejudged_tables svc claims.user_id p.attempt_id s t)

  rejudge_seen-eq_ok :
      (r : Result (Unit {0})) → rejudge_seen db svc claims k r t ≡ (ok p, u) → Requeued
  unfolding rejudge_seen
  rejudge_seen-eq_ok (err e) h = cc (ap (λ x. x.0) h)
  rejudge_seen-eq_ok (ok _) h = elim (Bool-cases (is_empty (trim_space svc.new_attempt_id))) [
    | inl e ↦ cc (ap (λ x. x.0) (rw e at h))
    | inr e ↦
        let g = rw e at h in
        let (s', ran, named) =
          rejudge_outcome-eq_ok claims.user_id k _ svc.now _ p (ap (λ x. x.0) g) in
        let run = execute_in_tx-eq_ok db _ t s' u (outcome_eq _ _ _ ran (ap (λ x. x.1) g)) in
        let (s, found, ended, after, _) = rejudge_tx-eq_ok db svc claims.user_id _ k t s' u run in
        (
          s,
          found,
          ended,
          subst (λ a. u ≡ rejudged_tables svc claims.user_id a s t) (sym named) after,
        )
  ]

  with_seen-eq_ok : (r : Result Submission) → with_seen db svc claims k r t ≡ (ok p, u) → Requeued
  unfolding with_seen
  with_seen-eq_ok (err e) h = cc (ap (λ x. x.0) h)
  with_seen-eq_ok (ok s) h = rejudge_seen-eq_ok _ h

  with_check-eq_ok :
      (r : Result (Unit {0})) (before : Tables)
      → with_check db svc claims k r before t ≡ (ok p, u)
      → (r ≡ ok tt) × Requeued
  unfolding with_check
  with_check-eq_ok (err e) before h = cc (ap (λ x. x.0) h)
  with_check-eq_ok (ok _) before h = (refl, with_seen-eq_ok _ h)

-- A rejudge needs a moderator.
check_rejudge_role :
    (claims : Claims) (k : ℤ)
    → check_rejudge claims k ≡ ok tt
    → at_least claims.role moderator ≡ true
unfolding check_rejudge has_no_role
check_rejudge_role claims k h =
    let anonymous = is_empty (trim_space claims.user_id) || has_no_role claims.role in
    elim (Bool-cases anonymous) [
      | inl e ↦ cc (rw e at h)
      | inr e ↦ elim (Bool-cases (at_least claims.role moderator)) [
        | inl allowed ↦ allowed
        | inr low ↦ cc (rw (e, low) at h)
      ]
    ]

-- What a successful rejudge leaves.
abbrev pub IsRequeued : Claims → ℤ → Tables → Tables → RejudgeResponse → Type 0
IsRequeued claims k t u p =
    (s s' : Submission) × (at_least claims.role moderator ≡ true)
    × (find_submission k t.submissions ≡ some s)
    × (is_terminal_status s.status ≡ true)
    × (find_submission k u.submissions ≡ some s')
    × (s'.status ≡ Status.pending)
    × (s'.current_attempt_id ≡ p.attempt_id)
    × (has_job k p.attempt_id u.outbox ≡ true)

-- A rejudge that succeeds, on consistent tables, was asked for by a moderator or an administrator, and
-- the submission had ended, whatever was seen of it before the transaction. It is pending afterwards,
-- with the attempt id of the answer, and the job of that attempt is in the outbox.
pub rejudge_submission-IsRequeued :
    (db : Backend) (svc : Services) (claims : Claims) (k : ℤ) (before t u : Tables)
    (p : RejudgeResponse)
    → IsConsistent t
    → rejudge_submission db svc claims k before t ≡ (ok p, u)
    → IsRequeued claims k t u p
unfolding rejudge_submission rejudged_tables requeued reset_for_rejudge updated_row
    insert_attempt_row insert_outbox_row
rejudge_submission-IsRequeued db svc claims k before t u p c h =
    let (allowed, (s, found, ended, after)) = with_check-eq_ok db svc claims k t u p _ before h in
    let f = updated_row (requeued svc p.attempt_id s) in
    let here : find_submission k u.submissions ≡ some (f s) =
      ap (λ w. find_submission k w.submissions) after
      ∙ ap (λ i. find_submission k (modify_submission i f t.submissions))
          (find_submission-id k t.submissions s found)
      ∙ find_submission-modify k f (λ y. refl) t.submissions s found in
    let consistent : IsConsistent u =
      subst IsConsistent (ap (λ x. x.1) h)
        (Step-IsConsistent db (rejudges svc claims k before) c) in
    let link = consistent.linked k (f s) here in
    (
      s,
      f s,
      check_rejudge_role claims k allowed,
      found,
      ended,
      here,
      refl,
      refl,
      ap (λ i. has_job i p.attempt_id u.outbox)
            (sym (find_submission-id k u.submissions (f s) here))
          ∙ link.queued,
    )
