-- ===== src/Outbox/Published.antt =====
-- `publish` of src/outbox/outbox-publisher.service.ts among several workers: an event is marked
-- published only once its message is in the queue.

use mathlib.Core.Option.{some-injective}
use mathlib.Core.Path.{subst}
use api_whats_app.Base.{
  ℕ, ◌==◌, if◌then◌else◌, Bool, true, false, Option, none, some, List, [], ◌∷◌, ◌++◌, ◌≡◌, ◌⊎◌,
  refl, sym, ap, ◌∙◌, inl, inr, arith, Bool-cases, Option-cases, ==_iff, find, find-key,
  find-modify, find-claim_first, find-claim_first-none, max, Text, text, text_eq, In, In-append,
  In-last,
}
use api_whats_app.Base.Json.{str, get}
use api_whats_app.Message.{TrafficClass}
use api_whats_app.Queue.{Publication, queue_name, publish_outbound}
use api_whats_app.Outbox.{
  prepare_class, OutboxEvent, event_row, OutboxDb, is_published, claimable, claimed_row,
  claim_events, message_id_of, Surroundings, prepare, published_row, failed_row, update_event,
  enqueue, publish,
}
use api_whats_app.Outbox.Steps.{
  Step, claims, publishes, publish_row-none, publish_row-some, apply, run,
}

-- The publication carries the id, for the queue of the traffic class that it names, as a first attempt.
abbrev pub IsFor : Text → Publication → Type 0
IsFor id p =
    (get (text "messageId") p.content ≡ some (str id))
    × (p.retry_count ≡ some 0)
    × ((base : Text) × (p.queue ≡ queue_name base p.traffic_class))

-- The broker was handed such a message.
abbrev pub Sent : Text → List Publication → Type 0
Sent id queue = (p : Publication) × In p queue × IsFor id p

abbrev pub Covered : List Publication → OutboxEvent → Type 0
Covered queue e = (is_published e ≡ false) ⊎ Sent (message_id_of e) queue

-- Each published event's message is in the queue.
abbrev pub AllSent : OutboxDb → Type 0
AllSent db = (j : ℕ) (e : OutboxEvent) → find j db.events ≡ some e → Covered db.queue e

if_inr-eq-inr :
    {A : Type 0} (test : Bool) {a b : Publication} (other : A)
    → (if test then inr a else inl other) ≡ inr b
    → a ≡ b
if_inr-eq-inr true other h = ground (arith, h)
if_inr-eq-inr false other h = absurd (ground (arith, h))

prepare_class-Sent :
    (s : Surroundings) (e : OutboxEvent) (o : Option TrafficClass) (p : Publication)
    → prepare_class s e o ≡ inr p
    → IsFor (message_id_of e) p
unfolding publish_outbound
prepare_class-Sent s e none p h = absurd (ground (arith, h))
prepare_class-Sent s e (some c) p h =
    subst (IsFor (message_id_of e)) (if_inr-eq-inr _ _ h) (refl, refl, (s.base, refl))

prepare-Sent :
    (s : Surroundings) (e : OutboxEvent) (p : Publication)
    → prepare s e ≡ inr p
    → IsFor (message_id_of e) p
unfolding prepare
prepare-Sent s e p h =
    elim (Bool-cases (text_eq e.event_type (text "message.outbound.requested"))) [
      | inl known ↦
          prepare_class-Sent s e (s.class_of (message_id_of e)) p (rw (known, prepare) at h)
      | inr unknown ↦ absurd (ground (arith, rw (unknown, prepare) at h))
    ]

Covered-enqueue :
    (p : Publication) (queue : List Publication) (e : OutboxEvent)
    → Covered queue e
    → Covered (queue ++ p ∷ []) e
Covered-enqueue p queue e (inl h) = inl h
Covered-enqueue p queue e (inr (q, i, h)) = inr (q, In-append q queue _ i, h)

AllSent-enqueue : (p : Publication) (db : OutboxDb) → AllSent db → AllSent (enqueue p db)
AllSent-enqueue p db all j e there = Covered-enqueue p db.queue e (all j e there)

-- A row that is changed so that it stays covered.
updated-AllSent :
    (id : ℕ) (f : OutboxEvent → OutboxEvent) (db : OutboxDb)
    → ((x : OutboxEvent) → (f x).id ≡ x.id)
    → ((x : OutboxEvent) → find id db.events ≡ some x → Covered db.queue x → Covered db.queue (f x))
    → AllSent db
    → AllSent (update_event id f db)
updated-AllSent id f db keeps step all j e there = elim (Option-cases (find j db.events)) [
  | inl none_ ↦ absurd (ground (arith, find-modify id j f db.events keeps, none_, there))
  | inr (x, found) ↦ elim (Bool-cases (id == j)) [
    | inl hit ↦
        let same : f x ≡ e =
          some-injective _ _
            (ground (arith, find-modify id j f db.events keeps, found, there, hit)) in
        subst (Covered db.queue) same
          (step x (ap (λ n. find n db.events) ((==_iff _ _).0 hit) ∙ found) (all j x found))
    | inr miss ↦
        let same : x ≡ e =
          some-injective _ _
            (ground (arith, find-modify id j f db.events keeps, found, there, miss)) in
        subst (Covered db.queue) same (all j x found)
  ]
]

publish-AllSent :
    (s : Surroundings) (attempts : ℕ) (e : OutboxEvent) (db : OutboxDb)
    → find e.id db.events ≡ some e
    → AllSent db
    → AllSent (publish s attempts e db)
unfolding publish
publish-AllSent s attempts e db own all = by_prepared (prepare s e) refl
  where
    failed :
        (message : Text) (after : OutboxDb)
        → AllSent after
        → AllSent (update_event e.id (failed_row s.now attempts message) after)
    failed message after all = updated-AllSent e.id _ after (λ x. refl) (λ x there c. c) all

    by_prepared : (r : Text ⊎ Publication) → prepare s e ≡ r → AllSent (publish s attempts e db)
    by_prepared (inl message) h = rw (h, publish) (failed message db all)
    by_prepared (inr p) h = elim (Option-cases s.broker_error) [
      | inl none_ ↦
          rw (h, publish)
            (rw (none_, publish)
              (updated-AllSent e.id (published_row s.now) (enqueue p db) (λ x. refl)
                (λ x there c. inr (
                  p,
                  In-last p db.queue,
                  subst (λ (y : OutboxEvent). IsFor (message_id_of y) p)
                      (some-injective _ _ (sym own ∙ there)) (prepare-Sent s e p h),
                ))
                (AllSent-enqueue p db all)))
      | inr ((sent, message), some_) ↦
          rw (h, publish)
            (rw (some_, publish)
              (elim (Bool-cases sent) [
                | inl yes_ ↦ rw yes_ (failed message (enqueue p db) (AllSent-enqueue p db all))
                | inr no_ ↦ rw no_ (failed message db all)
              ]))
    ]

claim-AllSent :
    (locked : ℕ → Bool) (now config batch : ℕ) (db : OutboxDb)
    → AllSent db
    → AllSent (claim_events locked now config batch db).0
unfolding claim_events
claim-AllSent locked now config batch db all j e there = elim (Option-cases (find j db.events)) [
  | inl none_ ↦ absurd (
      ground (
        arith,
        there,
        find-claim_first-none j (max 1 batch) (claimable locked now) (claimed_row now config)
            db.events (λ x. refl) none_,
      ))
  | inr (x, found) ↦
      elim (find-claim_first j (max 1 batch) (claimable locked now) (claimed_row now config)
        db.events {a = x} (λ y. refl) found) [
          | inl same ↦
              subst (Covered db.queue) (some-injective _ _ (sym same ∙ there)) (all j x found)
          | inr (hit, same) ↦
              subst (Covered db.queue) (some-injective _ _ (sym same ∙ there)) (all j x found)
        ]
]

step-AllSent : (step : Step) (db : OutboxDb) → AllSent db → AllSent (apply step db)
unfolding apply
step-AllSent (claims locked now config batch) db all = claim-AllSent locked now config batch db all
step-AllSent (publishes s attempts id) db all = elim (Option-cases (find id db.events)) [
  | inl none_ ↦ subst AllSent (sym (publish_row-none s attempts id db none_)) all
  | inr (e, found) ↦ subst AllSent (sym (publish_row-some s attempts id db found)) (
      publish-AllSent s attempts e db
        (ap (λ n. find n db.events) (find-key id db.events found) ∙ found) all)
]

-- Let every event that is marked published have its message handed to the broker, as a first attempt
-- in the queue of the traffic class that the message names. It has so still, and so have the events
-- published meanwhile, whatever claims and publications the workers run, in any order, and whatever
-- the broker answers.
pub run-AllSent : (steps : List Step) (db : OutboxDb) → AllSent db → AllSent (run steps db)
unfolding run
run-AllSent [] db all = all
run-AllSent (step ∷ steps) db all = run-AllSent steps (apply step db) (step-AllSent step db all)
