-- ===== src/Queue/Delivery.antt =====
-- `processDelivery` of src/queue/messaging-queue.service.ts with `scheduleRetry`,
-- `scheduleDeferredRetry` and `publishDeadLetter`.
use api_whats_app.Base.{
  ℕ, ◌+◌, if◌then◌else◌, Bool, true, false, Option, none, some, List, [], ◌∷◌, take, get_elem?, min,
  Text, text, text_eq, is_blank, ◌||◌, any,
}
use api_whats_app.Base.Json.{Json, null, str, obj, field}
use api_whats_app.Message.{TrafficClass, class_name}
use api_whats_app.Dispatch.{Action, ack, retry, defer, dead, Processing}
use api_whats_app.Trace.{TraceCarrier}
use api_whats_app.Queue.{
  QueueJob, Publication, Consumed, queue_name, retry_queue_name, dead_queue_name, trace_headers,
  trace_field, job_content, parse_message, retry_count,
}

-- How the handler of a job ends.
pub data Handled : Type 0 where
  returned : Processing → Handled
  threw : Handled

-- `ack`, `nack(message, false, true)`, or neither, when `processDelivery` itself rejects.
pub data Settlement : Type 0 where
  acked requeued unsettled : Settlement

-- What one delivery does: the messages it publishes, whether `onExhausted` is called, and how the
-- delivery is settled.
pub record Effects : Type 0 where
  pub published : List Publication
  pub exhausted : Bool
  pub settled : Settlement

-- The surroundings of a consumer: the handler, whether `onExhausted` succeeds, and whether the
-- broker confirms what is published.
pub record Consumer : Type 0 where
  pub base : Text
  pub traffic_class : TrafficClass
  pub delays : List ℕ
  pub handler : QueueJob → Handled
  pub on_exhausted_ok : Bool
  pub confirmed : Bool

-- `Math.min(...delays)`
abbrev pub least : ℕ → List ℕ → ℕ
least d [] = d
least d (e ∷ es) = least (min d e) es

abbrev pub min_delay : List ℕ → ℕ
min_delay [] = 0
min_delay (d ∷ ds) = least d ds

-- `reason ? { "x-last-error": reason.slice(0, 512) } : {}`
abbrev pub last_error_header : Option Text → Option Text
last_error_header none = none
last_error_header (some reason) = if is_blank reason then none else some (take 512 reason)

-- The message that `scheduleDeferredRetry` and `scheduleRetry` send, with the count in its header.
abbrev pub retry_publication : Text → QueueJob → ℕ → ℕ → Option Text → Publication
retry_publication base job delay count reason = record {
  queue = retry_queue_name base job.traffic_class delay;
  content = job_content job.message_id job.traffic_class job.trace;
  retry_count = some count;
  traffic_class = job.traffic_class;
  last_error = last_error_header reason;
  trace_headers = trace_headers job.trace;
}

unfoldable pub schedule_deferred_retry : Consumer → QueueJob → Option Text → Publication
schedule_deferred_retry c job reason =
    retry_publication c.base job (min_delay c.delays) job.attempt reason

-- `none` when the attempt is past the last delay.
unfoldable pub schedule_retry : Consumer → QueueJob → Option Text → Option Publication
schedule_retry c job reason = elim (get_elem? c.delays job.attempt) [
  | none ↦ none
  | some delay ↦ some (retry_publication c.base job delay (job.attempt + 1) reason)
]

abbrev text_or : Text → Option Text → Text
text_or fallback none = fallback
text_or fallback (some t) = t

abbrev id_json : Option Text → Json
id_json none = null
id_json (some id) = str id

-- `publishDeadLetter`; the instant `failedAt` in the content is left out.
unfoldable pub dead_letter :
    Text → TrafficClass → Option Text → Option Text → Option TraceCarrier → Publication
dead_letter base tc message_id reason trace = record {
  queue = dead_queue_name base tc;
  content = obj (
      field (text "messageId") (id_json message_id) (
        field (text "trafficClass") (str (class_name tc)) (
          field (text "reason") (str (text_or (text "Unknown failure") reason))
            (trace_field trace))));
  retry_count = none;
  traffic_class = tc;
  last_error = none;
  trace_headers = trace_headers trace;
}

-- An unconfirmed publication throws into the `catch`, which puts the delivery back.
abbrev pub settle : Consumer → Settlement
settle c = if c.confirmed then acked else requeued

abbrev pub published_one : Consumer → Publication → Effects
published_one c p = record { published = p ∷ []; exhausted = false; settled = settle c }

-- The budget is used up: `onExhausted`, then the dead letter.
abbrev pub exhaust : Consumer → QueueJob → Option Text → Effects
exhaust c job reason =
    if c.on_exhausted_ok
    then record {
      published =
          dead_letter c.base c.traffic_class (some job.message_id)
            (some (text_or (text "Retry policy exhausted") reason)) job.trace
          ∷ [];
      exhausted = true;
      settled = settle c;
    }
    else record { published = []; exhausted = true; settled = requeued }

-- The answer of the handler.
unfoldable pub settle_result : Consumer → QueueJob → Action → Option Text → Effects
settle_result c job ack reason = record { published = []; exhausted = false; settled = acked }
settle_result c job dead reason =
    published_one c (dead_letter c.base c.traffic_class (some job.message_id) reason job.trace)
settle_result c job defer reason = published_one c (schedule_deferred_retry c job reason)
settle_result c job retry reason = elim (schedule_retry c job reason) [
  | none ↦ exhaust c job reason
  | some p ↦ published_one c p
]

unfoldable pub run_job : Consumer → QueueJob → Effects
run_job c job = elim (c.handler job) [
  | threw ↦ record { published = []; exhausted = false; settled = requeued }
  | returned r ↦ settle_result c job r.action r.reason
]

-- A malformed delivery is dead-lettered outside the `try`.
unfoldable pub process_delivery : Consumer → Consumed → Effects
unfolding run_job
process_delivery c d = elim (parse_message d.content) [
  | none ↦ record {
    published =
        dead_letter c.base c.traffic_class none (some (text "Malformed outbound queue message"))
          none
        ∷ [];
    exhausted = false;
    settled = if c.confirmed then acked else unsettled;
  }
  | some (id, trace) ↦ run_job c (record {
    message_id = id;
    attempt = retry_count d.retry_header;
    traffic_class = c.traffic_class;
    trace = trace;
  })
]

-- `assertTrafficTopology`: whether a queue leads back to the consumer. It is the queue of the class
-- itself, or one of its retry queues, whose messages the broker routes to that queue when they expire
-- (`x-message-ttl`, `x-dead-letter-routing-key`).
unfoldable pub leads_back : Text → TrafficClass → List ℕ → Text → Bool
leads_back base tc delays queue =
    text_eq queue (queue_name base tc)
    || any (λ delay. text_eq queue (retry_queue_name base tc delay)) delays
