-- ===== src/Submission/Lifecycle/Atomicity.antt =====
-- An operation that returns an error leaves the tables as it found them.
use go_judge_system.Prelude.{
  ℕ, ℤ, Text, is_empty, trim_space, Bool-cases, ◌≡◌, refl, sym, ap, ◌∙◌, inl, inr, Option, none,
  some,
}
use go_judge_system.Submission.Errors.{Fault, Error, Result, ok, err}
use go_judge_system.Submission.Entity.{Language, Submission, ResultMessage}
use go_judge_system.Submission.Tables.{Tables, Backend, commit}
use go_judge_system.Submission.Store.{Db, settle, conclude, execute_in_tx}
use go_judge_system.Submission.Create.{
  Claims, ProblemMetadata, Services, CreateSubmissionRequest, create_outcome, store_submission,
  admit, with_problem, with_language, create_submission,
}
use go_judge_system.Submission.Rejudge.{
  rejudge_outcome, rejudge_seen, with_seen, with_check, rejudge_submission,
}
use go_judge_system.Submission.Apply.{Checked, with_checked, apply_judge_result}

-- An outcome that is a success, or whose tables are `t`.
abbrev Atomic : {A : Type 0} → Tables → Result A × Tables → Type 0
Atomic t (ok a, u) = Unit {0}
Atomic t (err e, u) = u ≡ t

module _ {A : Type 0} (db : Backend) (t : Tables) where
  settle-Atomic : (f : Option Fault) (a : A) (t' : Tables) → Atomic t (settle db f a t' t)
  unfolding settle
  settle-Atomic none a t' = tt
  settle-Atomic (some f) a t' = refl

  conclude-Atomic : (r : Result (A × Tables)) → Atomic t (conclude db r t)
  unfolding conclude
  conclude-Atomic (err e) = refl
  conclude-Atomic (ok (a, t')) = settle-Atomic (db.refuses commit t') a t'

  execute_in_tx-Atomic : (m : Db A) → Atomic t (execute_in_tx db m t)
  unfolding execute_in_tx
  execute_in_tx-Atomic m = conclude-Atomic (m t)

module _ (db : Backend) (svc : Services) (claims : Claims) (t : Tables) where
  create_outcome-Atomic :
      (r : Result Submission) (u : Tables) → Atomic t (r, u) → Atomic t (create_outcome r, u)
  unfolding create_outcome
  create_outcome-Atomic (ok s) u h = tt
  create_outcome-Atomic (err e) u h = h

  rejudge_outcome-Atomic :
      (by : Text) (k : ℤ) (a : Text) (r : Result Submission) (u : Tables)
      → Atomic t (r, u)
      → Atomic t (rejudge_outcome by k a svc.now r, u)
  unfolding rejudge_outcome
  rejudge_outcome-Atomic by k a (ok s) u h = tt
  rejudge_outcome-Atomic by k a (err e) u h = h

  module _ (req : CreateSubmissionRequest) where
    store_submission-Atomic :
        (language : Language) (problem : ProblemMetadata)
        → Atomic t (store_submission db svc claims req language problem t)
    unfolding store_submission
    store_submission-Atomic language problem =
        elim (Bool-cases (is_empty (trim_space svc.new_attempt_id))) [
          | inl e ↦ rw e refl
          | inr e ↦ rw e (create_outcome-Atomic _ _ (execute_in_tx-Atomic db t _))
        ]

    admit-Atomic :
        (language : Language) (problem : ProblemMetadata) (r : Result (Unit {0}))
        → Atomic t (admit db svc claims req language problem r t)
    unfolding admit
    admit-Atomic language problem (err e) = refl
    admit-Atomic language problem (ok _) = store_submission-Atomic language problem

    with_problem-Atomic :
        (language : Language) (r : Result ProblemMetadata)
        → Atomic t (with_problem db svc claims req language r t)
    unfolding with_problem
    with_problem-Atomic language (err e) = refl
    with_problem-Atomic language (ok problem) = admit-Atomic language problem _

    with_language-Atomic : (r : Result Language) → Atomic t (with_language db svc claims req r t)
    unfolding with_language
    with_language-Atomic (err e) = refl
    with_language-Atomic (ok language) = with_problem-Atomic language _

    create_submission-Atomic : Atomic t (create_submission db svc claims req t)
    unfolding create_submission
    create_submission-Atomic = with_language-Atomic _

  rejudge_seen-Atomic :
      (k : ℤ) (r : Result (Unit {0})) → Atomic t (rejudge_seen db svc claims k r t)
  unfolding rejudge_seen
  rejudge_seen-Atomic k (err e) = refl
  rejudge_seen-Atomic k (ok _) = elim (Bool-cases (is_empty (trim_space svc.new_attempt_id))) [
    | inl e ↦ rw e refl
    | inr e ↦ rw e (rejudge_outcome-Atomic claims.user_id k _ _ _ (execute_in_tx-Atomic db t _))
  ]

  with_seen-Atomic : (k : ℤ) (r : Result Submission) → Atomic t (with_seen db svc claims k r t)
  unfolding with_seen
  with_seen-Atomic k (err e) = refl
  with_seen-Atomic k (ok s) = rejudge_seen-Atomic k _

  with_check-Atomic :
      (k : ℤ) (r : Result (Unit {0})) (before : Tables)
      → Atomic t (with_check db svc claims k r before t)
  unfolding with_check
  with_check-Atomic k (err e) before = refl
  with_check-Atomic k (ok _) before = with_seen-Atomic k _

  rejudge_submission-Atomic :
      (k : ℤ) (before : Tables) → Atomic t (rejudge_submission db svc claims k before t)
  unfolding rejudge_submission
  rejudge_submission-Atomic k before = with_check-Atomic k _ before

with_checked-Atomic :
    (db : Backend) (hide_paths : Text → Text) (now : ℕ) (msg : ResultMessage) (t : Tables)
    (r : Result Checked)
    → Atomic t (with_checked db hide_paths now msg r t)
unfolding with_checked
with_checked-Atomic db hide_paths now msg t (err e) = refl
with_checked-Atomic db hide_paths now msg t (ok k) = execute_in_tx-Atomic db t _

Atomic-eq_err :
    {A : Type 0} (t : Tables) (p : Result A × Tables) (e : Error) (u : Tables)
    → Atomic t p
    → p ≡ (err e, u)
    → u ≡ t
Atomic-eq_err t (ok a, w) e u h same = cc (ap (λ x. x.0) same)
Atomic-eq_err t (err x, w) e u h same = sym (ap (λ y. y.1) same) ∙ h

-- A submission request that is answered with an error, at whatever point it fails, leaves every table
-- as it was: no row, no attempt and no job of it remain.
pub create_submission-eq_err :
    (db : Backend) (svc : Services) (claims : Claims) (req : CreateSubmissionRequest) (t u : Tables)
    (e : Error)
    → create_submission db svc claims req t ≡ (err e, u)
    → u ≡ t
create_submission-eq_err db svc claims req t u e h =
    Atomic-eq_err t (create_submission db svc claims req t) e u
      (create_submission-Atomic db svc claims t req) h

-- A rejudge that is answered with an error leaves every table as it was.
pub rejudge_submission-eq_err :
    (db : Backend) (svc : Services) (claims : Claims) (k : ℤ) (before t u : Tables) (e : Error)
    → rejudge_submission db svc claims k before t ≡ (err e, u)
    → u ≡ t
rejudge_submission-eq_err db svc claims k before t u e h =
    Atomic-eq_err t (rejudge_submission db svc claims k before t) e u
      (rejudge_submission-Atomic db svc claims t k before) h

-- A result message whose handling fails leaves every table as it was.
pub apply_judge_result-eq_err :
    (db : Backend) (hide_paths : Text → Text) (now : ℕ) (msg : ResultMessage) (t u : Tables)
    (e : Error)
    → apply_judge_result db hide_paths now msg t ≡ (err e, u)
    → u ≡ t
unfolding apply_judge_result
apply_judge_result-eq_err db hide_paths now msg t u e h =
    Atomic-eq_err t _ e u (with_checked-Atomic db hide_paths now msg t _) h
