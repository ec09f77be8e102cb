-- ===== src/Outbox.antt =====
-- src/outbox/outbox-publisher.service.ts: events that the API stores with a message are claimed under
-- a lease and published to the queue.
mod Steps
mod Published
mod Unclaimed
mod Examples
use api_whats_app.Base.{
  ℕ, ◌+◌, ◌-◌, ◌*◌, ◌^◌, leb, min, max, if◌then◌else◌, Bool, true, false, not, ◌&&◌, Option, none,
  some, List, [], ◌∷◌, ◌++◌, take, Text, text, text_eq, is_blank, Row, find, modify, claim_first,
  claimed_first, ◌⊎◌, inl, inr,
}
use api_whats_app.Base.Json.{Json, str, get}
use api_whats_app.Message.{TrafficClass, otp, transactional, marketing, same_class, class_name}
use api_whats_app.Trace.{TraceCarrier, parse_carrier}
use api_whats_app.Queue.{Publication, publish_outbound}

pub record OutboxEvent : Type 0 where
  pub id : ℕ
  pub aggregate_id : Text
  pub event_type : Text
  pub payload : Json
  pub attempts : ℕ
  pub next_attempt_at : ℕ
  pub processing_lease_until : Option ℕ
  pub last_error : Option Text
  pub published_at : Option ℕ

instance abbrev pub event_row : Row OutboxEvent
event_row = record { key = λ e. e.id }

-- The events in the order of their creation, and what was put in the queue.
pub record OutboxDb : Type 0 where
  pub events : List OutboxEvent
  pub queue : List Publication

abbrev pub is_published : OutboxEvent → Bool
is_published e = elim e.published_at [ none ↦ false | some at ↦ true ]

abbrev lease_free : ℕ → Option ℕ → Bool
lease_free now none = true
lease_free now (some until) = leb until now

-- The `WHERE` of `claimEvents`.
unfoldable pub claimable : (ℕ → Bool) → ℕ → OutboxEvent → Bool
claimable locked now e =
    not (is_published e)
    && (leb e.next_attempt_at now && (lease_free now e.processing_lease_until && not (locked e.id)))

abbrev pub claimed_row : ℕ → ℕ → OutboxEvent → OutboxEvent
claimed_row now config e = record e {
  processing_lease_until = some (now + max 5000 config);
  attempts = e.attempts + 1;
}

-- `claimEvents`: the tables, and the claimed rows; `locked` are the rows that `SKIP LOCKED` passes over.
unfoldable pub claim_events : (ℕ → Bool) → ℕ → ℕ → ℕ → OutboxDb → OutboxDb × List OutboxEvent
claim_events locked now config batch db = (
  record db {
    events = claim_first (max 1 batch) (claimable locked now) (claimed_row now config) db.events;
  },
  claimed_first (max 1 batch) (claimable locked now) (claimed_row now config) db.events,
)

-- `extractMessageId(payload) ?? aggregateId`
abbrev or_aggregate : Text → Option Json → Text
or_aggregate aggregate (some (str id)) = if is_blank id then aggregate else id
or_aggregate aggregate _ = aggregate

abbrev pub message_id_of : OutboxEvent → Text
message_id_of e = or_aggregate e.aggregate_id (get (text "messageId") e.payload)

-- `extractTrafficClass`
abbrev class_of_text : Text → Option TrafficClass
class_of_text t =
    if text_eq t (class_name otp)
    then some otp
    else if text_eq t (class_name transactional)
    then some transactional
    else if text_eq t (class_name marketing)
    then some marketing
    else none

abbrev class_of_json : Option Json → Option TrafficClass
class_of_json (some (str t)) = class_of_text t
class_of_json _ = none

unfoldable pub extract_traffic_class : Json → Option TrafficClass
extract_traffic_class payload = class_of_json (get (text "trafficClass") payload)

-- What a publication needs of its surroundings: the class of a message by its id, the carrier of the
-- producer's span, and the error of the broker, if any, with whether the queue has the message then.
pub record Surroundings : Type 0 where
  pub now : ℕ
  pub base : Text
  pub class_of : Text → Option TrafficClass
  pub producer : TraceCarrier → TraceCarrier
  pub broker_error : Option (Bool × Text)

abbrev class_agrees : TrafficClass → Option TrafficClass → Bool
class_agrees persisted none = true
class_agrees persisted (some c) = same_class c persisted

abbrev class_text : Option TrafficClass → Text
class_text none = []
class_text (some c) = class_name c

abbrev carrier_of : (TraceCarrier → TraceCarrier) → Option TraceCarrier → Option TraceCarrier
carrier_of producer none = none
carrier_of producer (some t) = some (producer t)

-- The publication for a message of a class, or the message of the error that is thrown before it.
abbrev pub prepare_class : Surroundings → OutboxEvent → Option TrafficClass → Text ⊎ Publication
prepare_class s e none =
    inl (text "Outbound message " ++ message_id_of e ++ text " no longer exists")
prepare_class s e (some persisted) =
    let given = extract_traffic_class e.payload in
    if class_agrees persisted given
    then inr (
        publish_outbound s.base (message_id_of e) persisted
          (carrier_of s.producer (parse_carrier (get (text "trace") e.payload))))
    else inl (
        text "Outbox traffic class "
        ++ class_text given
        ++ text " does not match persisted message class "
        ++ class_name persisted)

unfoldable pub prepare : Surroundings → OutboxEvent → Text ⊎ Publication
prepare s e =
    if text_eq e.event_type (text "message.outbound.requested")
    then prepare_class s e (s.class_of (message_id_of e))
    else inl (text "Unsupported outbox event type: " ++ e.event_type)

unfoldable pub retry_delay : ℕ → ℕ
retry_delay attempts = min 60000 (1000 * 2 ^ min (attempts - 1) 6)

abbrev pub published_row : ℕ → OutboxEvent → OutboxEvent
published_row now e = record e {
  published_at = some now;
  processing_lease_until = none;
  last_error = none;
}

abbrev pub failed_row : ℕ → ℕ → Text → OutboxEvent → OutboxEvent
failed_row now attempts message e = record e {
  last_error = some (take 2000 message);
  next_attempt_at = now + retry_delay attempts;
  processing_lease_until = none;
}

abbrev pub update_event : ℕ → (OutboxEvent → OutboxEvent) → OutboxDb → OutboxDb
update_event id f db = record db { events = modify id f db.events }

abbrev pub enqueue : Publication → OutboxDb → OutboxDb
enqueue p db = record db { queue = db.queue ++ p ∷ [] }

-- `publish`. The columns that it reads of its claimed row do not change after the row is created.
unfoldable pub publish : Surroundings → ℕ → OutboxEvent → OutboxDb → OutboxDb
unfolding prepare
publish s attempts e db = elim (prepare s e) [
  | inl message ↦ update_event e.id (failed_row s.now attempts message) db
  | inr p ↦ elim s.broker_error [
    | none ↦ update_event e.id (published_row s.now) (enqueue p db)
    | some (sent, message) ↦
        update_event e.id (failed_row s.now attempts message) (if sent then enqueue p db else db)
  ]
]
