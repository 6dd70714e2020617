-- ===== src/Submission/Lifecycle/Creation.antt =====
-- What a submission request leaves when it succeeds: a pending submission whose job is queued.
use go_judge_system.Prelude.{
  suc, ℤ_discrete, Text, is_empty, trim_space, true, Bool-cases, ◌≡◌, refl, sym, ap, subst, ◌∙◌,
  inl, inr, if_pos, none, some, arith,
}
use go_judge_system.Submission.Errors.{Result, ok, err, ok-injective}
use go_judge_system.Submission.Entity.{Language, Submission, Status, new_submission}
use go_judge_system.Submission.Tables.{Tables, find_submission, has_job, Backend}
use go_judge_system.Submission.Tables.Laws.{find_submission-append_new}
use go_judge_system.Submission.Store.{insert_row, insert_attempt_row, insert_outbox_row}
use go_judge_system.Submission.Create.{
  Claims, ProblemMetadata, Services, CreateSubmissionRequest, CreateSubmissionResponse,
  check_create, pass_cooldown, create_outcome, store_submission, admit, with_problem, with_language,
  create_submission,
}
use go_judge_system.Submission.Effects.Creating.{create_tx-eq_ok, created_tables}
use go_judge_system.Submission.Consistency.{IsConsistent}
use go_judge_system.Submission.Lifecycle.{creates}
use go_judge_system.Submission.Lifecycle.Consistency.{Step-IsConsistent}
use go_judge_system.Submission.Lifecycle.Judging.{execute_in_tx-eq_ok}

-- The draft of a request, before its row has an id.
unfoldable pub draft_of :
    Services → Claims → CreateSubmissionRequest → Language → ProblemMetadata → Submission
draft_of svc claims req language problem =
    new_submission svc.now problem.id problem.title claims.user_id claims.username language
      req.source_code (trim_space svc.new_attempt_id)

create_outcome-eq_ok :
    (r : Result Submission) (p : CreateSubmissionResponse)
    → create_outcome r ≡ ok p
    → (s : Submission) × (r ≡ ok s) × (p.id ≡ s.id)
unfolding create_outcome
create_outcome-eq_ok (ok s) p h = (s, refl, sym (ap (λ x. x.id) (ok-injective _ _ h)))
create_outcome-eq_ok (err e) p h = cc h

pub outcome_eq :
    {A : Type 0} (r : Result A × Tables) (q : Result A) (u : Tables)
    → r.0 ≡ q
    → r.1 ≡ u
    → r ≡ (q, u)
outcome_eq r q u h g = ap (λ x. (x, r.1)) h ∙ ap (λ y. (q, y)) g

module _ (db : Backend) (svc : Services) (claims : Claims) (req : CreateSubmissionRequest)
    (t u : Tables) (p : CreateSubmissionResponse) where
  -- The tables after a success, and the row that it inserted.
  abbrev Stored : Language → ProblemMetadata → Type 0
  Stored language problem =
      let draft = draft_of svc claims req language problem in
      (u ≡ created_tables svc problem.slug claims.user_id draft t)
      × (p.id ≡ (insert_row draft t).0.id)

  store_submission-eq_ok :
      (language : Language) (problem : ProblemMetadata)
      → store_submission db svc claims req language problem t ≡ (ok p, u)
      → Stored language problem
  unfolding store_submission draft_of
  store_submission-eq_ok language problem h =
      elim (Bool-cases (is_empty (trim_space svc.new_attempt_id))) [
        | inl e ↦ cc (ap (λ x. x.0) (rw e at h))
        | inr e ↦
            let g = rw e at h in
            let (s, ran, same_id) = create_outcome-eq_ok _ p (ap (λ x. x.0) g) in
            let run = execute_in_tx-eq_ok db _ t s u (outcome_eq _ _ _ ran (ap (λ x. x.1) g)) in
            let (after, row, _) = create_tx-eq_ok db svc problem.slug claims.user_id _ t s u run in
            (after, same_id ∙ ap (λ x. x.id) row)
      ]

  admit-eq_ok :
      (language : Language) (problem : ProblemMetadata) (r : Result (Unit {0}))
      → admit db svc claims req language problem r t ≡ (ok p, u)
      → (r ≡ ok tt) × Stored language problem
  unfolding admit
  admit-eq_ok language problem (err e) h = cc (ap (λ x. x.0) h)
  admit-eq_ok language problem (ok _) h = (refl, store_submission-eq_ok language problem h)

  with_problem-eq_ok :
      (language : Language) (r : Result ProblemMetadata)
      → with_problem db svc claims req language r t ≡ (ok p, u)
      → (problem : ProblemMetadata) × (r ≡ ok problem)
        × (pass_cooldown svc.cooldown claims.user_id problem.id ≡ ok tt)
        × Stored language problem
  unfolding with_problem
  with_problem-eq_ok language (err e) h = cc (ap (λ x. x.0) h)
  with_problem-eq_ok language (ok problem) h =
      let (passed, stored) = admit-eq_ok language problem _ h in (problem, refl, passed, stored)

  with_language-eq_ok :
      (r : Result Language)
      → with_language db svc claims req r t ≡ (ok p, u)
      → (language : Language) × (r ≡ ok language)
        × (problem : ProblemMetadata) × (svc.get_problem req.problem_id claims.user_id claims.role
            ≡ ok problem)
        × (pass_cooldown svc.cooldown claims.user_id problem.id ≡ ok tt)
        × Stored language problem
  unfolding with_language
  with_language-eq_ok (err e) h = cc (ap (λ x. x.0) h)
  with_language-eq_ok (ok language) h =
      let (problem, got, passed, stored) = with_problem-eq_ok language _ h in
      (language, refl, problem, got, passed, stored)

-- The row of a new submission, where no row had its id.
created_row :
    (svc : Services) (slug user_id : Text) (draft : Submission) (t : Tables)
    → IsConsistent t
    → let row = (insert_row draft t).0 in
      (find_submission row.id t.submissions ≡ none)
      × (find_submission row.id (created_tables svc slug user_id draft t).submissions ≡ some row)
unfolding insert_row created_tables insert_attempt_row insert_outbox_row
created_row svc slug user_id draft t c =
    let row = (insert_row draft t).0 in
    let absent : find_submission row.id t.submissions ≡ none =
      c.fresh (suc t.submission_seq) (omega arith) in
    (
      absent,
      find_submission-append_new row.id t.submissions row absent
          ∙ if_pos (ℤ_discrete row.id row.id) refl (some row) none,
    )

-- What a successful submission request leaves.
abbrev pub IsQueued :
    Services
    → Claims
    → CreateSubmissionRequest
    → Tables
    → Tables
    → CreateSubmissionResponse
    → Type 0
IsQueued svc claims req t u p =
    (language : Language) × (check_create claims req ≡ ok language)
    × (problem : ProblemMetadata) × (svc.get_problem req.problem_id claims.user_id claims.role
        ≡ ok problem)
    × (pass_cooldown svc.cooldown claims.user_id problem.id ≡ ok tt)
    × (s : Submission) × (find_submission p.id t.submissions ≡ none)
    × (find_submission p.id u.submissions ≡ some s)
    × (s.status ≡ Status.pending)
    × (s.user_id ≡ claims.user_id)
    × (s.language ≡ language)
    × (s.source_code ≡ req.source_code)
    × (has_job p.id s.current_attempt_id u.outbox ≡ true)

-- A submission request that succeeds, on consistent tables, passed every check: the request is valid,
-- the Problem service named a problem and the cooldown was not running. The id of the answer is new
-- and names a pending submission of the caller, with the source code and the language of the request,
-- and the job of its current attempt is in the outbox.
pub create_submission-IsQueued :
    (db : Backend) (svc : Services) (claims : Claims) (req : CreateSubmissionRequest) (t u : Tables)
    (p : CreateSubmissionResponse)
    → IsConsistent t
    → create_submission db svc claims req t ≡ (ok p, u)
    → IsQueued svc claims req t u p
unfolding create_submission draft_of new_submission insert_row
create_submission-IsQueued db svc claims req t u p c h =
    let (language, valid, problem, got, passed, (after, same_id)) =
      with_language-eq_ok db svc claims req t u p (check_create claims req) h in
    let draft = draft_of svc claims req language problem in
    let s = (insert_row draft t).0 in
    let (absent, here) = created_row svc problem.slug claims.user_id draft t c in
    let found : find_submission p.id u.submissions ≡ some s =
      ap (λ i. find_submission i u.submissions) same_id
      ∙ ap (λ w. find_submission s.id w.submissions) after
      ∙ here in
    let consistent : IsConsistent u =
      subst IsConsistent (ap (λ x. x.1) h) (Step-IsConsistent db (creates svc claims req) c) in
    let link = consistent.linked p.id s found in
    (
      language,
      valid,
      problem,
      got,
      passed,
      s,
      ap (λ i. find_submission i t.submissions) same_id ∙ absent,
      found,
      refl,
      refl,
      refl,
      refl,
      ap (λ i. has_job i s.current_attempt_id u.outbox) same_id ∙ link.queued,
    )
