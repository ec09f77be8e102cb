-- ===== src/Trace.antt =====
-- src/observability/trace-context.service.ts: the trace carrier that travels in outbox payloads and
-- queue messages, its validation by `parseCarrier`, and the sampling flag of a new span.
pub mod Carrier
use api_whats_app.Base.{
  ℕ, ◌+◌, ◌-◌, ◌*◌, ◌/◌, ◌%◌, leb, ltb, ◌==◌, if◌then◌else◌, Bool, true, false, not, ◌&&◌, ◌||◌,
  Option, none, some, List, [], ◌∷◌, ◌++◌, all, length, drop, Text, text, text_eq,
}
use api_whats_app.Base.Json.{Json, str, obj, Fields, end, field, get}

pub record TraceCarrier : Type 0 where
  pub trace_id : Text
  pub parent_span_id : Option Text
  pub trace_flags : Option Text
  pub request_id : Option Text

-- `[0-9a-f]`
abbrev pub is_hex : ℕ → Bool
is_hex c = leb b'0' c && leb c b'9' || leb b'a' c && leb c b'f'

-- `/^[0-9a-f]{n}$/`
abbrev pub is_hex_text : ℕ → Text → Bool
is_hex_text n s = all is_hex s && length s == n

-- `[A-Za-z0-9._:@/-]`
abbrev is_request_unit : ℕ → Bool
is_request_unit c =
    leb b'A' c && leb c b'Z'
    || leb b'a' c && leb c b'z'
    || leb b'-' c && leb c b':'
    || c == b'_'
    || c == b'@'

unfoldable pub valid_trace_id : Text → Bool
valid_trace_id s = is_hex_text 32 s && not (text_eq s (text "00000000000000000000000000000000"))

unfoldable pub valid_span_id : Text → Bool
valid_span_id s = is_hex_text 16 s && not (text_eq s (text "0000000000000000"))

-- `TRACE_FLAGS_PATTERN`
unfoldable pub valid_flags : Text → Bool
valid_flags s = is_hex_text 2 s

-- `REQUEST_ID_PATTERN`
unfoldable pub valid_request_id : Text → Bool
valid_request_id s = all is_request_unit s && leb 1 (length s) && leb (length s) 128

-- A property that is kept if it is a string that passes its test.
abbrev pub checked : (Text → Bool) → Option Json → Option Text
checked valid (some (str s)) = if valid s then some s else none
checked valid _ = none

-- `parseCarrier`
unfoldable pub parse_carrier : Option Json → Option TraceCarrier
parse_carrier none = none
parse_carrier (some value) = elim (checked valid_trace_id (get (text "traceId") value)) [
  | none ↦ none
  | some trace_id ↦ some (record {
    trace_id = trace_id;
    parent_span_id = checked valid_span_id (get (text "parentSpanId") value);
    trace_flags = checked valid_flags (get (text "traceFlags") value);
    request_id = checked valid_request_id (get (text "requestId") value);
  })
]

abbrev optional_text : Text → Option Text → Fields → Fields
optional_text k none rest = rest
optional_text k (some s) rest = field k (str s) rest

-- `JSON.stringify(trace)`: absent properties are left out.
unfoldable pub carrier_json : TraceCarrier → Json
carrier_json c = obj (
    field (text "traceId") (str c.trace_id) (
      optional_text (text "parentSpanId") c.parent_span_id (
        optional_text (text "traceFlags") c.trace_flags
          (optional_text (text "requestId") c.request_id end))))

pub data Sampler : Type 0 where
  always_on always_off ratio parent_on parent_off parent_ratio : Sampler

-- The value of a hexadecimal digit, and of a text of them.
abbrev hex_digit : ℕ → ℕ
hex_digit c = if leb c b'9' then c - 48 else c - 87

abbrev hex_value : ℕ → Text → ℕ
hex_value acc [] = acc
hex_value acc (c ∷ s) = hex_value (acc * 16 + hex_digit c) s

-- `sampleTraceId`: the low 64 bits without the last one, against the threshold.
unfoldable pub sample_trace_id : ℕ → Text → Bool
sample_trace_id threshold trace_id =
    if leb threshold 0
    then false
    else if leb 9223372036854775808 threshold
    then true
    else ltb (hex_value 0 (drop 16 trace_id) / 2) threshold

abbrev hex_unit : ℕ → ℕ
hex_unit d = if ltb d 10 then 48 + d else 87 + d

-- `flags.toString(16).padStart(2, "0")` of a byte.
abbrev byte_text : ℕ → Text
byte_text n = hex_unit (n / 16) ∷ hex_unit (n % 16) ∷ []

abbrev flags_value : Option Text → ℕ
flags_value none = 0
flags_value (some s) = if valid_flags s then hex_value 0 s else 0

-- Whether the new span is sampled.
unfoldable pub is_sampled : Sampler → ℕ → Text → ℕ → Bool → Bool
unfolding sample_trace_id
is_sampled always_on threshold trace_id flags has_parent = true
is_sampled always_off threshold trace_id flags has_parent = false
is_sampled ratio threshold trace_id flags has_parent = sample_trace_id threshold trace_id
is_sampled parent_off threshold trace_id flags has_parent =
    if has_parent then flags % 2 == 1 else false
is_sampled parent_ratio threshold trace_id flags has_parent =
    if has_parent then flags % 2 == 1 else sample_trace_id threshold trace_id
is_sampled parent_on threshold trace_id flags has_parent =
    if has_parent then flags % 2 == 1 else true

-- `samplingFlags`: `(flags & 0xfe) | bit` is the even part of the byte and the new bit.
unfoldable pub sampling_flags : Sampler → ℕ → Text → Option Text → Bool → Text
unfolding is_sampled valid_flags
sampling_flags sampler threshold trace_id parent_flags has_parent =
    let flags = flags_value parent_flags in
    byte_text
      (flags / 2 * 2 + (if is_sampled sampler threshold trace_id flags has_parent then 1 else 0))
