-- ===== src/Queue.antt =====
-- src/queue/messaging-queue.service.ts: what is published to RabbitMQ, how a delivery is parsed, run
-- through its handler, and settled with a retry, a deferral or a dead letter. The broker is the list
-- of publications that a delivery makes; connections, channels and topology calls are not modelled.
mod Examples
pub mod Delivery
pub mod Routes
pub mod Settled
pub mod Retries
use api_whats_app.Base.{
  ℕ, zero, suc, ◌+◌, ◌/◌, leb, ltb, ◌==◌, if◌then◌else◌, Bool, true, false, ◌≡◌, Option, none, some,
  List, [], ◌∷◌, ◌++◌, length, take, get_elem?, min, max, Text, text, decimal, to_lower, is_blank,
}
use api_whats_app.Base.Json.{Json, num, str, obj, Fields, end, field, get}
use api_whats_app.Message.{TrafficClass, otp, transactional, marketing, class_name}
use api_whats_app.Dispatch.{Action, ack, retry, defer, dead, Processing}
use api_whats_app.Trace.{TraceCarrier, parse_carrier, carrier_json}

pub record QueueJob : Type 0 where
  pub message_id : Text
  pub attempt : ℕ
  pub traffic_class : TrafficClass
  pub trace : Option TraceCarrier

-- One `sendToQueue` of a persistent message: the headers that are read back are `retry_count` and
-- `traffic_class`.
pub record Publication : Type 0 where
  pub queue : Text
  pub content : Json
  pub retry_count : Option ℕ
  pub traffic_class : TrafficClass
  pub last_error : Option Text
  pub trace_headers : List (Text × Text)

-- A consumed message: its content, `none` where `JSON.parse` throws, and the retry header.
pub record Consumed : Type 0 where
  pub content : Option Json
  pub retry_header : Option Json

abbrev pub default_delays : List ℕ
default_delays = 5000 ∷ 30000 ∷ 120000 ∷ 600000 ∷ []

-- `raw.split(",")`
split_commas : Text → Text → List Text
split_commas cur [] = cur ∷ []
split_commas cur (c ∷ s) =
    let closed = split_commas [] s in
    let longer = split_commas (cur ++ c ∷ []) s in if c == b',' then cur ∷ closed else longer

-- The numbers that are finite and positive.
positives : (Text → Option ℕ) → List Text → List ℕ
positives number [] = []
positives number (t ∷ ts) =
    let rest = positives number ts in
    elim (number t) [ none ↦ rest | some n ↦ if ltb 0 n then n ∷ rest else rest ]

-- `retryDelays`, from the environment's text; `number` is `Number(value.trim())`, `none` where that
-- is not a finite whole number.
unfoldable pub retry_delays : (Text → Option ℕ) → Option Text → List ℕ
unfolding split_commas positives
retry_delays number none = default_delays
retry_delays number (some raw) = elim (positives number (split_commas [] raw)) [
  | [] ↦ default_delays
  | d ∷ ds ↦ d ∷ ds
]

-- `positiveInteger(raw, fallback)`, where `raw` is the number that the variable holds, if any.
abbrev positive_integer : Option ℕ → ℕ → ℕ
positive_integer none fallback = fallback
positive_integer (some n) fallback = if ltb 0 n then n else fallback

-- `Math.ceil(n / k)`
abbrev half_up : ℕ → ℕ
half_up n = (n + 1) / 2

abbrev quarter_up : ℕ → ℕ
quarter_up n = (n + 3) / 4

pub record PrefetchConfig : Type 0 where
  pub base : Option ℕ
  pub otp : Option ℕ
  pub transactional : Option ℕ
  pub marketing : Option ℕ

unfoldable pub prefetch_for : PrefetchConfig → TrafficClass → ℕ
prefetch_for c otp = positive_integer c.otp (max 5 (half_up (positive_integer c.base 20)))
prefetch_for c transactional = positive_integer c.transactional (positive_integer c.base 20)
prefetch_for c marketing =
    positive_integer c.marketing (max 1 (quarter_up (positive_integer c.base 20)))

-- The names of the queues; `base` is `OUTBOUND_QUEUE_NAME`.
unfoldable pub queue_name : Text → TrafficClass → Text
queue_name base c = base ++ text "." ++ to_lower (class_name c)

unfoldable pub dead_queue_name : Text → TrafficClass → Text
unfolding queue_name
dead_queue_name base c = queue_name base c ++ text ".dead"

unfoldable pub retry_queue_name : Text → TrafficClass → ℕ → Text
unfolding queue_name
retry_queue_name base c delay = queue_name base c ++ text ".retry." ++ decimal delay

abbrev flags_or_sampled : Option Text → Text
flags_or_sampled none = text "01"
flags_or_sampled (some flags) = flags

-- `traceHeaders`
unfoldable pub trace_headers : Option TraceCarrier → List (Text × Text)
trace_headers none = []
trace_headers (some c) =
    (text "x-trace-id", c.trace_id) ∷ request c.request_id ++ parent c.parent_span_id
  where
    request : Option Text → List (Text × Text)
    request none = []
    request (some id) = if is_blank id then [] else (text "x-request-id", id) ∷ []

    parent : Option Text → List (Text × Text)
    parent none = []
    parent (some span) =
        if is_blank span
        then []
        else (
          text "traceparent",
          text "00-"
              ++ c.trace_id
              ++ text "-"
              ++ span
              ++ text "-"
              ++ flags_or_sampled c.trace_flags,
        )
          ∷ []

abbrev trace_field : Option TraceCarrier → Fields
trace_field none = end
trace_field (some c) = field (text "trace") (carrier_json c) end

-- `JSON.stringify({ messageId, trafficClass, trace? })`
abbrev pub job_content : Text → TrafficClass → Option TraceCarrier → Json
job_content message_id c trace = obj (
    field (text "messageId") (str message_id)
      (field (text "trafficClass") (str (class_name c)) (trace_field trace)))

-- `publishOutboundMessage`
unfoldable pub publish_outbound : Text → Text → TrafficClass → Option TraceCarrier → Publication
unfolding trace_headers queue_name
publish_outbound base message_id c trace = record {
  queue = queue_name base c;
  content = job_content message_id c trace;
  retry_count = some 0;
  traffic_class = c;
  last_error = none;
  trace_headers = trace_headers trace;
}

-- `parseMessage`: the id and the trace of a well-formed content.
unfoldable pub parse_message : Option Json → Option (Text × Option TraceCarrier)
parse_message none = none
parse_message (some value) = named (get (text "messageId") value)
  where
    named : Option Json → Option (Text × Option TraceCarrier)
    named (some (str id)) =
        if is_blank id then none else some (id, parse_carrier (get (text "trace") value))
    named _ = none

-- `retryCount`
unfoldable pub retry_count : Option Json → ℕ
retry_count (some (num n)) = n
retry_count _ = 0
