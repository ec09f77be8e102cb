-- ===== src/Outbox/Unclaimed.antt =====
-- What src/outbox/outbox-publisher.service.ts does with an event that is published already: nothing.

use mathlib.Core.Path.{subst}
use api_whats_app.Base.{
  ℕ, ◌==◌, Bool, true, false, some, List, [], ◌∷◌, ◌≡◌, ◌⊎◌, refl, sym, inl, inr, arith, Bool-cases,
  Option-cases, find, find-modify, find-claim_first, max, Text,
}
use api_whats_app.Queue.{Publication}
use api_whats_app.Outbox.{
  OutboxEvent, event_row, OutboxDb, is_published, claimable, claimed_row, claim_events,
  Surroundings, prepare, published_row, failed_row, update_event, enqueue, publish,
}
use api_whats_app.Outbox.Steps.{
  Step, claims, publishes, publish_row-none, publish_row-some, apply, run,
}

-- A row that is published, as a step leaves it.
abbrev pub StaysPublished : ℕ → OutboxDb → Type 0
StaysPublished id db = (e : OutboxEvent) × (find id db.events ≡ some e) × (is_published e ≡ true)

updated-StaysPublished :
    (id other : ℕ) (f : OutboxEvent → OutboxEvent) (db : OutboxDb)
    → ((x : OutboxEvent) → (f x).id ≡ x.id)
    → ((x : OutboxEvent) → is_published x ≡ true → is_published (f x) ≡ true)
    → StaysPublished id db
    → StaysPublished id (update_event other f db)
updated-StaysPublished id other f db keeps step (e, there, h) = elim (Bool-cases (other == id)) [
  | inl hit ↦ (f e, ground (arith, find-modify other id f db.events keeps, there, hit), step e h)
  | inr miss ↦ (e, ground (arith, find-modify other id f db.events keeps, there, miss), h)
]

publish-StaysPublished :
    (s : Surroundings) (attempts id : ℕ) (x : OutboxEvent) (db : OutboxDb)
    → StaysPublished id db
    → StaysPublished id (publish s attempts x db)
unfolding publish
publish-StaysPublished s attempts id x db p = by_prepared (prepare s x) refl
  where
    failed :
        (message : Text) (after : OutboxDb)
        → StaysPublished id after
        → StaysPublished id (update_event x.id (failed_row s.now attempts message) after)
    failed message after q = updated-StaysPublished id x.id _ after (λ y. refl) (λ y h. h) q

    by_prepared :
        (r : Text ⊎ Publication) → prepare s x ≡ r → StaysPublished id (publish s attempts x db)
    by_prepared (inl message) h = rw (h, publish) (failed message db p)
    by_prepared (inr q) h = elim (Option-cases s.broker_error) [
      | inl none_ ↦
          rw (h, publish)
            (rw (none_, publish)
              (updated-StaysPublished id x.id (published_row s.now) (enqueue q db) (λ y. refl)
                (λ y k. refl) p))
      | inr ((sent, message), some_) ↦
          rw (h, publish)
            (rw (some_, publish)
              (elim (Bool-cases sent) [
                | inl yes_ ↦ rw yes_ (failed message (enqueue q db) p)
                | inr no_ ↦ rw no_ (failed message db p)
              ]))
    ]

step-StaysPublished :
    (step : Step) (db : OutboxDb) (id : ℕ)
    → StaysPublished id db
    → StaysPublished id (apply step db)
unfolding apply claim_events
step-StaysPublished (claims locked now config batch) db id (e, there, h) =
    elim (find-claim_first id (max 1 batch) (claimable locked now) (claimed_row now config)
      db.events {a = e} (λ y. refl) there) [
        | inl same ↦ (e, same, h)
        | inr (hit, same) ↦ (claimed_row now config e, same, h)
      ]
step-StaysPublished (publishes s attempts other) db id p =
    elim (Option-cases (find other db.events)) [
      | inl none_ ↦ subst (StaysPublished id) (sym (publish_row-none s attempts other db none_)) p
      | inr (x, found) ↦
          subst (StaysPublished id) (sym (publish_row-some s attempts other db found))
            (publish-StaysPublished s attempts id x db p)
    ]

run-StaysPublished :
    (steps : List Step) (db : OutboxDb) (id : ℕ)
    → StaysPublished id db
    → StaysPublished id (run steps db)
unfolding run
run-StaysPublished [] db id p = p
run-StaysPublished (step ∷ steps) db id p =
    run-StaysPublished steps (apply step db) id (step-StaysPublished step db id p)

-- An event that is marked published is never claimed again: after any steps of the workers, in any
-- order, it still is so marked, and no claim at any time may take its row.
pub run-unclaimable :
    (steps : List Step) (db : OutboxDb) (id : ℕ) (e : OutboxEvent) (locked : ℕ → Bool) (now : ℕ)
    → find id db.events ≡ some e
    → is_published e ≡ true
    → (r : OutboxEvent) × (find id (run steps db).events ≡ some r)
      × (is_published r ≡ true)
      × (claimable locked now r ≡ false)
unfolding claimable
run-unclaimable steps db id e locked now there h =
    let (r, found, k) = run-StaysPublished steps db id (e, there, h) in
    (r, found, k, ground (arith, k))
