-- ===== src/Submission/Errors.antt =====
-- Errors of the submission service: services/submission/internal/domain/errors.go and `AppError` of
-- pkg/response/errors.go with the codes of pkg/response/codes.go.
use go_judge_system.Prelude.{ℕ, Bool, true, false, ◌||◌, Option, none, some, ◌==◌, ◌≡◌, ap}

-- The sentinel errors that the modelled use cases return.
pub data DomainError : Type 0 where
  submission_not_found submission_forbidden invalid_submission_id : DomainError
  submission_unauthenticated unauthorized invalid_problem_id : DomainError
  problem_actor_unauthenticated problem_actor_forbidden problem_not_found : DomainError
  problem_service_unavailable invalid_language invalid_source_code : DomainError
  source_code_too_large invalid_submission_status invalid_judge_result : DomainError
  submission_rejudge_conflict submission_test_case_required : DomainError
  submission_cooldown_unavailable internal_server : DomainError
  rate_limited : ℕ → DomainError

-- `AppError.Code`.
abbrev pub error_code : DomainError → ℕ
error_code submission_not_found = 40400
error_code submission_forbidden = 40300
error_code invalid_submission_id = 40000
error_code submission_unauthenticated = 40100
error_code unauthorized = 40100
error_code invalid_problem_id = 40000
error_code problem_actor_unauthenticated = 40100
error_code problem_actor_forbidden = 40300
error_code problem_not_found = 40400
error_code problem_service_unavailable = 50300
error_code invalid_language = 40000
error_code invalid_source_code = 40000
error_code source_code_too_large = 40000
error_code invalid_submission_status = 40000
error_code invalid_judge_result = 40000
error_code submission_rejudge_conflict = 40900
error_code submission_test_case_required = 40900
error_code submission_cooldown_unavailable = 50300
error_code internal_server = 50000
error_code (rate_limited retry_after) = 42900

-- An error of something outside the service: a cancelled or expired context, or a failure of the
-- database, Redis or the network.
pub data Fault : Type 0 where
  canceled deadline_exceeded : Fault
  driver : ℕ → Fault

-- An error value: a fault, a sentinel, a sentinel with its cause (`AppError.Wrap`), or a plain
-- `fmt.Errorf("...: %w")` around another error, or with no cause.
pub data Error : Type 0 where
  fault : Fault → Error
  app : DomainError → Error
  wrap : DomainError → Error → Error
  context : Error → Error
  plain : Error

-- `errors.Is(err, target)` for a sentinel target: `AppError.Is` compares the codes, along the chain
-- of causes.
unfoldable pub is : Error → DomainError → Bool
is (fault f) target = false
is (app d) target = error_code d == error_code target
is (wrap d cause) target = error_code d == error_code target || is cause target
is (context cause) target = is cause target
is plain target = false

-- `errors.Is(err, context.Canceled) || errors.Is(err, context.DeadlineExceeded)`.
unfoldable pub is_context_end : Error → Bool
is_context_end (fault canceled) = true
is_context_end (fault deadline_exceeded) = true
is_context_end (fault (driver n)) = false
is_context_end (app d) = false
is_context_end (wrap d cause) = is_context_end cause
is_context_end (context cause) = is_context_end cause
is_context_end plain = false

pub data Result {ℓ} (A : Type ℓ) : Type ℓ where
  ok : A → Result A
  err : Error → Result A

abbrev pub or_fault {ℓ} : {A : Type ℓ} → Option Fault → Result A → Result A
or_fault none r = r
or_fault (some f) r = err (context (fault f))

unfoldable pub value_or {ℓ} : {A : Type ℓ} → A → Result A → A
value_or d (ok a) = a
value_or d (err e) = d

pub ok-injective {ℓ} : {A : Type ℓ} (a b : A) → Result.ok a ≡ Result.ok b → a ≡ b
unfolding value_or
ok-injective a b h = ap (value_or a) h

pub ok-neq-err {ℓ} : {A : Type ℓ} (a : A) (e : Error) → ¬ (Result.ok a ≡ Result.err e)
ok-neq-err a e h = cc
