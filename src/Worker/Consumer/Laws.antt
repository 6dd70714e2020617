-- ===== src/Worker/Consumer/Laws.antt =====
-- When a message of the jobs topic is committed, and how often its job runs.
use go_judge_system.Prelude.{
  ℕ, zero, suc, ◌≤◌, ltb, Text, codes, Bool, true, false, Bool-cases, ◌≡◌, refl, ap, ◌∙◌, inl, inr,
  Option, none, some, List, [], ◌∷◌, ◌++◌, arith,
}
use go_judge_system.Submission.Entity.{JobMessage}
use go_judge_system.Worker.Consumer.{
  default_max_retries, Event, executes, waits, dead_letters, marks, DltPublisher, missing, accepts,
  refuses, Delivery, send_to_dlt, backoff, give_up, after_try, retry, with_payload, with_slot,
  handle_message,
}

unfoldable pub count_marks : List Event → ℕ
count_marks [] = 0
count_marks (marks why ∷ es) = suc (count_marks es)
count_marks (executes n ∷ es) = count_marks es
count_marks (waits n ∷ es) = count_marks es
count_marks (dead_letters e n ∷ es) = count_marks es

unfoldable pub count_executes : List Event → ℕ
count_executes [] = 0
count_executes (executes n ∷ es) = suc (count_executes es)
count_executes (marks why ∷ es) = count_executes es
count_executes (waits n ∷ es) = count_executes es
count_executes (dead_letters e n ∷ es) = count_executes es

module _ (d : Delivery) where
  -- The session does not end while the message is handled.
  abbrev pub Uninterrupted : Type 0
  Uninterrupted =
      (d.has_slot ≡ true)
      × ((n : ℕ) → d.canceled_after n ≡ false)
      × ((n : ℕ) → d.canceled_waiting n ≡ false)

  sent_and_marked :
      (p : DltPublisher) (e why : Text) (n : ℕ)
      → (count_marks (send_to_dlt p e n ++ marks why ∷ []) ≡ 1)
        × (count_executes (send_to_dlt p e n ++ marks why ∷ []) ≡ 0)
  unfolding send_to_dlt count_marks count_executes
  sent_and_marked missing e why n = (refl, refl)
  sent_and_marked refuses e why n = (refl, refl)
  sent_and_marked accepts e why n = (refl, refl)

  after_try-marks :
      (attempt : ℕ) (r : Option Text) (next : Text → List Event)
      → Uninterrupted
      → ((e : Text) → count_marks (next e) ≡ 1)
      → count_marks (after_try d attempt r next) ≡ 1
  unfolding after_try count_marks
  after_try-marks attempt none next calm h = refl
  after_try-marks attempt (some e) next calm h =
      rw (calm.1 attempt) (elim (Bool-cases (ltb attempt default_max_retries)) [
        | inl more ↦ rw (more, calm.2 attempt) (h e)
        | inr last ↦ rw last (h e)
      ])

  retry-marks :
      (job : JobMessage) (attempt left : ℕ) (last : Text)
      → Uninterrupted
      → count_marks (retry d job attempt left last) ≡ 1
  unfolding retry count_marks give_up
  retry-marks job attempt zero last calm = (sent_and_marked d.dlt last _ _).0
  retry-marks job attempt (suc left) last calm =
      after_try-marks attempt (d.execute_error job attempt) (retry d job (suc attempt) left) calm
        λ e. retry-marks job (suc attempt) left e calm

  with_payload-marks : (p : Option JobMessage) → Uninterrupted → count_marks (with_payload d p) ≡ 1
  unfolding with_payload
  with_payload-marks none calm = (sent_and_marked d.dlt d.decode_error _ 0).0
  with_payload-marks (some job) calm = retry-marks job 1 default_max_retries [] calm

  -- A message whose session does not end while it is handled is committed exactly once: after a
  -- success, when its tries are used up, and when its bytes are no job; also when the
  -- dead-letter topic is missing or refuses it.
  pub handle_message-marked : Uninterrupted → count_marks (handle_message d) ≡ 1
  unfolding handle_message with_slot
  handle_message-marked calm =
      ap (λ b. count_marks (with_slot d b)) calm.0 ∙ with_payload-marks d.decoded calm

  after_try-executes :
      (attempt bound : ℕ) (r : Option Text) (next : Text → List Event)
      → ((e : Text) → count_executes (next e) ≤ bound)
      → count_executes (after_try d attempt r next) ≤ bound
  unfolding after_try count_executes
  after_try-executes attempt bound none next h = omega arith
  after_try-executes attempt bound (some e) next h = elim (Bool-cases (d.canceled_after attempt)) [
    | inl over ↦ rw over (omega arith)
    | inr on ↦ elim (Bool-cases (ltb attempt default_max_retries)) [
      | inl more ↦ elim (Bool-cases (d.canceled_waiting attempt)) [
        | inl over ↦ rw (on, more, over) (omega arith)
        | inr on' ↦ rw (on, more, on') (h e)
      ]
      | inr last ↦ rw (on, last) (h e)
    ]
  ]

  retry-executes :
      (job : JobMessage) (attempt left : ℕ) (last : Text)
      → count_executes (retry d job attempt left last) ≤ left
  unfolding retry count_executes give_up
  retry-executes job attempt zero last =
      omega (arith, (sent_and_marked d.dlt last (codes "dlt_forwarded") default_max_retries).1)
  retry-executes job attempt (suc left) last = omega (
    arith,
    after_try-executes attempt left (d.execute_error job attempt) (retry d job (suc attempt) left)
        (λ e. retry-executes job (suc attempt) left e),
  )

  with_payload-executes :
      (p : Option JobMessage) → count_executes (with_payload d p) ≤ default_max_retries
  unfolding with_payload
  with_payload-executes none =
      omega (arith, (sent_and_marked d.dlt d.decode_error (codes "invalid_payload_dlt") 0).1)
  with_payload-executes (some job) = retry-executes job 1 default_max_retries []

  with_slot-executes : (b : Bool) → count_executes (with_slot d b) ≤ default_max_retries
  unfolding with_slot count_executes
  with_slot-executes true = with_payload-executes d.decoded
  with_slot-executes false = omega arith

  -- A delivery of a message runs its job three times at most.
  pub handle_message-executes : count_executes (handle_message d) ≤ default_max_retries
  unfolding handle_message
  handle_message-executes = with_slot-executes d.has_slot

  -- When every try fails and the session goes on, the handler waits 500 ms after the first try and
  -- 1000 ms after the second, and gives up after the third without a wait.
  pub handle_message-exhausted :
      (job : JobMessage) (e1 e2 e3 : Text)
      → Uninterrupted
      → d.decoded ≡ some job
      → d.execute_error job 1 ≡ some e1
      → d.execute_error job 2 ≡ some e2
      → d.execute_error job 3 ≡ some e3
      → handle_message d
        ≡ executes 1 ∷ waits 500 ∷ executes 2 ∷ waits 1000 ∷ executes 3 ∷ send_to_dlt d.dlt e3 3
          ++ marks (codes "dlt_forwarded") ∷ []
  unfolding handle_message with_slot with_payload retry after_try give_up backoff
  handle_message-exhausted job e1 e2 e3 calm decoded f1 f2 f3 =
      ap (with_slot d) calm.0
      ∙ ap (with_payload d) decoded
      ∙ rw (f1, calm.1 1, calm.2 1, f2, calm.1 2, calm.2 2, f3, calm.1 3) refl
