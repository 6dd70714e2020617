-- ===== src/Submission/EventHub/Laws.antt =====
-- A subscriber that reads nothing holds the latest event of its submission, and no other.
use go_judge_system.Prelude.{
  ℕ, suc, ◌==◌, ℤ, ℤ_discrete, ite, true, false, Bool-cases, inl, inr, ◌≡◌, refl, ap, ◌∙◌, Option,
  none, some, List, [], ◌∷◌, if◌then◌else◌, arith,
}
use go_judge_system.Submission.Entity.{SubmissionEvent}
use go_judge_system.Submission.EventHub.{
  Subscriber, EventHub, subscribe, without_subscriber, unsubscribe, try_send_latest, publish_to,
  publish, count_for, is_closed, subscriber_count,
}

unfoldable pub find_subscriber : ℕ → List Subscriber → Option Subscriber
find_subscriber id [] = none
find_subscriber id (s ∷ ss) =
    let rest = find_subscriber id ss in if s.id == id then some s else rest

unfoldable pub publish_all : List SubmissionEvent → EventHub → EventHub
publish_all [] h = h
publish_all (e ∷ es) h = publish_all es (publish e h)

-- The last event of a list that is about submission `k`, or else `before`.
unfoldable pub latest : ℤ → List SubmissionEvent → Option SubmissionEvent → Option SubmissionEvent
latest k [] before = before
latest k (e ∷ es) before = latest k es (ite (ℤ_discrete k e.submission_id) (some e) before)

-- What an event makes of one subscriber.
unfoldable pub told : SubmissionEvent → Subscriber → Subscriber
told e s = ite (ℤ_discrete s.submission_id e.submission_id) (try_send_latest e s) s

find_subscriber-publish_to :
    (e : SubmissionEvent) (id : ℕ) (ss : List Subscriber) (s : Subscriber)
    → find_subscriber id ss ≡ some s
    → find_subscriber id (publish_to e ss) ≡ some (told e s)
unfolding find_subscriber publish_to told try_send_latest
find_subscriber-publish_to e id [] s h = cc
find_subscriber-publish_to e id (x ∷ ss) s h = ground (arith, find_subscriber-publish_to e id ss s)

told-open :
    (e : SubmissionEvent) (s : Subscriber)
    → s.closed ≡ false
    → ((told e s).waiting ≡ ite (ℤ_discrete s.submission_id e.submission_id) (some e) s.waiting)
      × ((told e s).submission_id ≡ s.submission_id)
      × ((told e s).closed ≡ false)
unfolding told try_send_latest
told-open e s h = ground arith

-- Subscriber `id` is open after the events and holds the latest.
abbrev pub HoldsLatest : ℤ → Option SubmissionEvent → List SubmissionEvent → ℕ → EventHub → Type 0
HoldsLatest k before es id h =
    (s' : Subscriber) × (find_subscriber id (publish_all es h).subscribers ≡ some s')
    × (s'.waiting ≡ latest k es before)
    × (s'.closed ≡ false)

-- Whatever events are published, in whatever order, an open subscriber that reads none of them holds
-- the last one that is about its submission, or what it held before if there is none; it stays open.
pub publish_all-latest :
    (es : List SubmissionEvent) (h : EventHub) (id : ℕ) (s : Subscriber)
    → find_subscriber id h.subscribers ≡ some s
    → s.closed ≡ false
    → HoldsLatest s.submission_id s.waiting es id h
unfolding publish_all latest publish
publish_all-latest [] h id s found open_ = (s, found, refl, open_)
publish_all-latest (e ∷ es) h id s found open_ =
    let (w, k, o) = told-open e s open_ in
    let (s', here, holds, still) =
      publish_all-latest es (publish e h) id (told e s)
        (find_subscriber-publish_to e id h.subscribers s found) o in
    (
      s',
      here,
      holds ∙ ap (λ x. latest x es (told e s).waiting) k ∙ ap (latest s.submission_id es) w,
      still,
    )

-- No subscriber has the next pointer, nor has a closed channel.
abbrev pub IsNew : EventHub → Type 0
IsNew h =
    (find_subscriber h.next_id h.subscribers ≡ none)
    × (is_closed h.next_id h.closed_channels ≡ false)

publish_to-find_none :
    (e : SubmissionEvent) (id : ℕ) (ss : List Subscriber)
    → find_subscriber id ss ≡ none
    → find_subscriber id (publish_to e ss) ≡ none
unfolding find_subscriber publish_to try_send_latest
publish_to-find_none e id [] h = refl
publish_to-find_none e id (x ∷ ss) h = ground (arith, publish_to-find_none e id ss)

without_subscriber-find_none :
    (id : ℕ) (ss : List Subscriber) → find_subscriber id ss ≡ none → without_subscriber id ss ≡ ss
unfolding find_subscriber without_subscriber
without_subscriber-find_none id [] h = refl
without_subscriber-find_none id (s ∷ ss) h = elim (Bool-cases (s.id == id)) [
  | inl same ↦ cc (rw same at h)
  | inr other ↦ rw other (ap (λ l. s ∷ l) (without_subscriber-find_none id ss (rw other at h)))
]

-- What a subscriber at the front and the others get.
told_all : List SubmissionEvent → Subscriber → Subscriber
told_all [] s = s
told_all (e ∷ es) s = told_all es (told e s)

told_id : (e : SubmissionEvent) (s : Subscriber) → (told e s).id ≡ s.id
unfolding told try_send_latest
told_id e s = ground arith

told_all_id : (es : List SubmissionEvent) (s : Subscriber) → (told_all es s).id ≡ s.id
unfolding told_all
told_all_id [] s = refl
told_all_id (e ∷ es) s = told_all_id es (told e s) ∙ told_id e s

-- The others, with the events they would have had without the first.
publish_all-front :
    (es : List SubmissionEvent) (s : Subscriber) (ss : List Subscriber) (n m : ℕ) (js : List ℕ)
    → (publish_all es (record { subscribers = s ∷ ss; next_id = m; closed_channels = js }))
      ≡ record (publish_all es (record { subscribers = ss; next_id = n; closed_channels = js })) {
        subscribers =
            told_all es s
            ∷ (publish_all es
                (record { subscribers = ss; next_id = n; closed_channels = js })).subscribers;
        next_id = m;
      }
unfolding publish_all publish publish_to told_all told
publish_all-front [] s ss n m js = refl
publish_all-front (e ∷ es) s ss n m js = publish_all-front es (told e s) (publish_to e ss) n m js

publish_all-IsNew :
    (es : List SubmissionEvent) (h : EventHub) (id : ℕ)
    → find_subscriber id h.subscribers ≡ none
    → is_closed id h.closed_channels ≡ false
    → (find_subscriber id (publish_all es h).subscribers ≡ none)
      × ((publish_all es h).closed_channels ≡ h.closed_channels)
unfolding publish_all publish
publish_all-IsNew [] h id none_found still = (none_found, refl)
publish_all-IsNew (e ∷ es) h id none_found still =
    publish_all-IsNew es (publish e h) id (publish_to-find_none e id h.subscribers none_found) still

without_first :
    (id : ℕ) (s : Subscriber) (ss : List Subscriber)
    → s.id ≡ id
    → find_subscriber id ss ≡ none
    → without_subscriber id (s ∷ ss) ≡ ss
unfolding without_subscriber
without_first id s ss same h = ground (arith, without_subscriber-find_none id ss h)

is_closed_first : (id : ℕ) (js : List ℕ) → is_closed id (id ∷ js) ≡ true
unfolding is_closed
is_closed_first id js = ground arith

unsubscribe-open :
    (id : ℕ) (h : EventHub)
    → is_closed id h.closed_channels ≡ false
    → unsubscribe id h ≡ record h {
      subscribers = without_subscriber id h.subscribers;
      closed_channels = id ∷ h.closed_channels;
    }
unfolding unsubscribe
unsubscribe-open id h e = rw e refl

unsubscribe_again :
    (id : ℕ) (h : EventHub) → is_closed id h.closed_channels ≡ true → unsubscribe id h ≡ h
unfolding unsubscribe
unsubscribe_again id h e = rw e refl

-- What a subscription, events and its end do.
abbrev pub ComesAndGoes : ℤ → List SubmissionEvent → EventHub → Type 0
ComesAndGoes k es h =
    let (id, h') = subscribe k h in
    let left = unsubscribe id (publish_all es h') in
    (find_subscriber id h'.subscribers
      ≡ some (record { id = id; submission_id = k; waiting = none; closed = false }))
    × (subscriber_count k h' ≡ suc (subscriber_count k h))
    × (left.subscribers ≡ (publish_all es h).subscribers)
    × (left.closed_channels ≡ id ∷ h.closed_channels)
    × (unsubscribe id left ≡ left)

-- A new subscriber is found, open and with an empty buffer, and is counted for its submission. Where it leaves
-- after any events, the other subscribers are left with what the same events would have given them without
-- it; its channel is closed, and no other; and to leave again changes nothing.
pub subscribe-unsubscribe :
    (k : ℤ) (es : List SubmissionEvent) (h : EventHub) → IsNew h → ComesAndGoes k es h
unfolding subscribe find_subscriber subscriber_count count_for
subscribe-unsubscribe k es h (absent, still) =
    let sub : Subscriber = record {
      id = h.next_id;
      submission_id = k;
      waiting = none;
      closed = false;
    } in
    let (absent', same) = publish_all-IsNew es h h.next_id absent still in
    let front =
      publish_all-front es sub h.subscribers h.next_id (suc h.next_id) h.closed_channels in
    let channels = ap (λ x. x.closed_channels) front ∙ same in
    let left = unsubscribe-open h.next_id _ (ap (is_closed h.next_id) channels ∙ still) in
    let closed_now = ap (λ x. x.closed_channels) left ∙ ap (λ js. h.next_id ∷ js) channels in
    (
      ground arith,
      ground arith,
      ap (λ x. x.subscribers) left
          ∙ ap (λ x. without_subscriber h.next_id x.subscribers) front
          ∙ without_first h.next_id (told_all es sub) _ (told_all_id es sub) absent',
      closed_now,
      unsubscribe_again h.next_id _
          (ap (is_closed h.next_id) closed_now ∙ is_closed_first h.next_id h.closed_channels),
    )
