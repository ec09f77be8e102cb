-- ===== src/Outbox/Examples.antt =====
-- An outbox of one event, on which the steps of src/outbox/outbox-publisher.service.ts run.

use api_whats_app.Base.{◌≡◌, refl, true, false, none, some, List, [], ◌∷◌, text, arith, find, inl}
use api_whats_app.Base.Json.{str, obj, field, end}
use api_whats_app.Message.{otp}
use api_whats_app.Outbox.{event_row, is_published, claimable, OutboxEvent, OutboxDb, Surroundings}
use api_whats_app.Outbox.Steps.{Step, claims, publishes, run}
use api_whats_app.Outbox.Published.{AllSent, run-AllSent}
use api_whats_app.Outbox.Unclaimed.{run-unclaimable}

abbrev event : OutboxEvent
event = record {
  id = 5;
  aggregate_id = text "m-1";
  event_type = text "message.outbound.requested";
  payload = obj (field (text "messageId") (str (text "m-1")) end);
  attempts = 0;
  next_attempt_at = 100;
  processing_lease_until = none;
  last_error = none;
  published_at = none;
}

abbrev outbox : OutboxDb
outbox = record { events = event ∷ []; queue = [] }

abbrev surroundings : Surroundings
surroundings = record {
  now = 2000;
  base = text "whatsapp.outbound";
  class_of = λ id. some otp;
  producer = λ t. t;
  broker_error = none;
}

abbrev steps : List Step
steps = claims (λ id. false) 1000 30000 50 ∷ publishes surroundings 1 5 ∷ []

outbox-AllSent : AllSent outbox
outbox-AllSent j e there = inl (ground (arith, there))

run-AllSent_example : AllSent (run steps outbox)
run-AllSent_example = run-AllSent steps outbox outbox-AllSent

abbrev published : OutboxDb
published = record { events = record event { published_at = some 900 } ∷ []; queue = [] }

run-unclaimable_example :
    (r : OutboxEvent) × (find 5 (run steps published).events ≡ some r)
    × (is_published r ≡ true)
    × (claimable (λ id. false) 9000 r ≡ false)
run-unclaimable_example =
    run-unclaimable steps published 5 (record event { published_at = some 900 }) (λ id. false) 9000
      refl refl
