-- ===== src/Outbox/Steps.antt =====
-- The steps of the workers of src/outbox/outbox-publisher.service.ts, which interleave.

use api_whats_app.Base.{ℕ, Bool, none, some, List, [], ◌∷◌, ◌≡◌, refl, find}
use api_whats_app.Outbox.{OutboxEvent, event_row, OutboxDb, claim_events, Surroundings, publish}

pub data Step : Type 0 where
  claims : (ℕ → Bool) → ℕ → ℕ → ℕ → Step
  publishes : Surroundings → ℕ → ℕ → Step

-- A worker's publication of a row of the id; it has read the attempts when it claimed the row.
abbrev pub publish_row : Surroundings → ℕ → ℕ → OutboxDb → OutboxDb
publish_row s attempts id db = elim (find id db.events) [
  | none ↦ db
  | some e ↦ publish s attempts e db
]

unfoldable pub apply : Step → OutboxDb → OutboxDb
unfolding claim_events publish
apply (claims locked now config batch) db = (claim_events locked now config batch db).0
apply (publishes s attempts id) db = publish_row s attempts id db

unfoldable pub run : List Step → OutboxDb → OutboxDb
unfolding apply
run [] db = db
run (step ∷ steps) db = run steps (apply step db)

pub publish_row-none :
    (s : Surroundings) (attempts id : ℕ) (db : OutboxDb)
    → find id db.events ≡ none
    → publish_row s attempts id db ≡ db
publish_row-none s attempts id db e = rw (e, publish_row) refl

pub publish_row-some :
    (s : Surroundings) (attempts id : ℕ) (db : OutboxDb) {e : OutboxEvent}
    → find id db.events ≡ some e
    → publish_row s attempts id db ≡ publish s attempts e db
publish_row-some s attempts id db e = rw (e, publish_row) refl
