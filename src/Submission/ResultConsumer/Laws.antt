-- ===== src/Submission/ResultConsumer/Laws.antt =====
-- What the handling of a result message leaves.
use go_judge_system.Prelude.{
  ℕ, zero, suc, ◌-◌, Text, Bool, true, false, if_either, ◌≡◌, refl, sym, ap, subst, Option, none,
  some, List, [], ◌∷◌,
}
use go_judge_system.Submission.Errors.{Error, Result, ok, err}
use go_judge_system.Submission.Entity.{ResultMessage}
use go_judge_system.Submission.Tables.{Tables}
use go_judge_system.Submission.Apply.{Published, apply_judge_result}
use go_judge_system.Submission.Lifecycle.Atomicity.{apply_judge_result-eq_err}
use go_judge_system.Submission.ResultConsumer.{
  Mark, invalid_payload_dlt, processed, non_retryable_dlt, dlt_forwarded, ConsumerEvent, forwards,
  pauses, commits, Tries, DltAnswer, no_publisher, published, rejected, send_result_to_dlt,
  is_non_retryable, default_result_max_retries, Handling, pausing, wait_or_end, after_apply,
  try_apply, handle_result,
}

unfoldable pub marks_of : List ConsumerEvent → List Mark
marks_of [] = []
marks_of (forwards n ∷ es) = marks_of es
marks_of (pauses n ∷ es) = marks_of es
marks_of (commits m ∷ es) = m ∷ marks_of es

-- How often the message is in the dead-letter topic.
unfoldable pub count_forwards : List ConsumerEvent → ℕ
count_forwards [] = 0
count_forwards (forwards n ∷ es) = suc (count_forwards es)
count_forwards (pauses n ∷ es) = count_forwards es
count_forwards (commits m ∷ es) = count_forwards es

abbrev pub forwards_with : DltAnswer → ℕ
forwards_with published = 1
forwards_with no_publisher = 0
forwards_with rejected = 0

abbrev pub is_given_up : Mark → Bool
is_given_up processed = false
is_given_up m = true

-- One try has applied the message to the tables, and it is committed once, as processed; or the tables are
-- as they were, and it is committed once, as given up, and the dead-letter topic has it once if it takes it;
-- or they are, and it is not committed.
pub data IsSettled (hide_paths : Text → Text) (tries : Tries) (msg : Option ResultMessage)
    (t : Tables) : Handling → Type 0 where
  applied :
      (n : ℕ) (m : ResultMessage) (p : Published) (u : Tables) (es : List ConsumerEvent)
      → msg ≡ some m
      → apply_judge_result (tries.db n) hide_paths (tries.now n) m t ≡ (ok p, u)
      → marks_of es ≡ processed ∷ []
      → IsSettled hide_paths tries msg t (u, es)
  given_up :
      (m : Mark) (es : List ConsumerEvent)
      → marks_of es ≡ m ∷ []
      → is_given_up m ≡ true
      → count_forwards es ≡ forwards_with tries.dlt
      → IsSettled hide_paths tries msg t (t, es)
  left : (es : List ConsumerEvent) → marks_of es ≡ [] → IsSettled hide_paths tries msg t (t, es)

module _ (hide_paths : Text → Text) (tries : Tries) (t : Tables) where
  Settles : Option ResultMessage → Handling → Type 0
  Settles msg h = IsSettled hide_paths tries msg t h

  pausing-IsSettled :
      (msg : Option ResultMessage) (n : ℕ) (h : Handling)
      → Settles msg h
      → Settles msg (pausing n h)
  unfolding pausing Settles marks_of count_forwards
  pausing-IsSettled msg n h (applied k m p u es e a c) = applied k m p u _ e a c
  pausing-IsSettled msg n h (given_up m es c g f) = given_up m _ c g f
  pausing-IsSettled msg n h (left es c) = left _ c

  sent-IsSettled :
      (msg : Option ResultMessage) (m : Mark) (n : ℕ) (d : DltAnswer)
      → tries.dlt ≡ d
      → is_given_up m ≡ true
      → Settles msg (t, send_result_to_dlt d n (commits m ∷ []))
  unfolding Settles marks_of count_forwards send_result_to_dlt
  sent-IsSettled msg m n published e g = given_up m _ refl g (sym (ap forwards_with e))
  sent-IsSettled msg m n no_publisher e g = given_up m _ refl g (sym (ap forwards_with e))
  sent-IsSettled msg m n rejected e g = given_up m _ refl g (sym (ap forwards_with e))

  wait_or_end-IsSettled :
      (msg : Option ResultMessage) (left_tries n : ℕ) (next : Handling)
      → Settles msg next
      → Settles msg (wait_or_end hide_paths tries left_tries n t next)
  unfolding wait_or_end Settles marks_of
  wait_or_end-IsSettled msg zero n next h = h
  wait_or_end-IsSettled msg (suc k) n next h =
      if_either (tries.ended_waiting n) (IsSettled hide_paths tries msg t) (left [] refl)
        (pausing-IsSettled msg n next h)

  failed-IsSettled :
      (msg : Option ResultMessage) (left_tries n : ℕ) (e : Error) (go_on : Tables → Handling)
      → Settles msg (go_on t)
      → Settles msg (after_apply hide_paths tries left_tries n go_on (err e, t))
  unfolding after_apply Settles marks_of
  failed-IsSettled msg k n e go_on h =
      if_either (is_non_retryable e) (IsSettled hide_paths tries msg t)
        (sent-IsSettled msg non_retryable_dlt (n - 1) tries.dlt refl refl)
        (if_either (tries.ended n) (IsSettled hide_paths tries msg t) (left [] refl)
          (wait_or_end-IsSettled msg k n (go_on t) h))

  after_apply-IsSettled :
      (m : ResultMessage) (left_tries n : ℕ) (go_on : Tables → Handling)
      (x : Result Published × Tables)
      → apply_judge_result (tries.db n) hide_paths (tries.now n) m t ≡ x
      → Settles (some m) (go_on t)
      → Settles (some m) (after_apply hide_paths tries left_tries n go_on x)
  unfolding Settles after_apply marks_of
  after_apply-IsSettled m k n go_on (ok p, u) a h = applied n m p u _ refl a refl
  after_apply-IsSettled m k n go_on (err e, u) a h =
      subst (λ v. Settles (some m) (after_apply hide_paths tries k n go_on (err e, v)))
        (sym (apply_judge_result-eq_err (tries.db n) hide_paths (tries.now n) m t u e a))
        (failed-IsSettled (some m) k n e go_on h)

  try_apply-IsSettled :
      (m : ResultMessage) (left_tries n : ℕ)
      → Settles (some m) (try_apply hide_paths tries m left_tries n t)
  unfolding try_apply Settles marks_of
  try_apply-IsSettled m zero n =
      sent-IsSettled (some m) dlt_forwarded default_result_max_retries tries.dlt refl refl
  try_apply-IsSettled m (suc k) n =
      after_apply-IsSettled m k n (try_apply hide_paths tries m k (suc n)) _ refl
        (try_apply-IsSettled m k (suc n))

  -- However its tries end, a result message is either applied to the tables by one try and committed once,
  -- as processed; or it leaves the tables as they were, and is committed once as given up, or not at all. A
  -- message that is given up is committed also where there is no dead-letter topic or the topic rejects
  -- it; the topic holds it once if it takes it.
  pub handle_result-IsSettled :
      (msg : Option ResultMessage)
      → IsSettled hide_paths tries msg t (handle_result hide_paths tries msg t)
  unfolding handle_result Settles marks_of
  handle_result-IsSettled none = sent-IsSettled none invalid_payload_dlt 0 tries.dlt refl refl
  handle_result-IsSettled (some m) = try_apply-IsSettled m default_result_max_retries 1
