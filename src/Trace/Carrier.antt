-- ===== src/Trace/Carrier.antt =====
-- `parseCarrier` and `samplingFlags` of src/observability/trace-context.service.ts.
use mathlib.Core.Path.{subst}
use mathlib.Core.Option.{some-injective}
use api_whats_app.Base.{
  inl, inr, text, ◌≡◌, refl, Bool, true, Option, none, some, Text, arith, Option-cases, Bool-cases,
}
use api_whats_app.Base.Json.{Json, null, str, get}
use api_whats_app.Trace.{
  TraceCarrier, parse_carrier, carrier_json, valid_trace_id, valid_span_id, valid_flags,
  valid_request_id, checked,
}

abbrev pub Holds : (Text → Bool) → Option Text → Type 0
Holds valid none = Unit
Holds valid (some s) = valid s ≡ true

checked-Holds : (valid : Text → Bool) (j : Option Json) → Holds valid (checked valid j)
checked-Holds valid none = tt
checked-Holds valid (some (str s)) = elim (Bool-cases (valid s)) [
  | inl e ↦ rw e e
  | inr e ↦ rw e tt
]
checked-Holds valid (some null) = tt
checked-Holds valid (some _) = tt

checked-eq-some :
    (valid : Text → Bool) (j : Option Json) (s : Text) → checked valid j ≡ some s → valid s ≡ true
checked-eq-some valid j s e = rw e at (checked-Holds valid j)

-- Every part of the carrier passes its pattern.
pub record IsValid (c : TraceCarrier) : Type 0 where
  pub trace : valid_trace_id c.trace_id ≡ true
  pub parent : Holds valid_span_id c.parent_span_id
  pub flags : Holds valid_flags c.trace_flags
  pub request : Holds valid_request_id c.request_id

-- Whatever value is parsed, a carrier that comes out is valid in every part.
pub parse_carrier-IsValid :
    (value : Option Json) (c : TraceCarrier) → parse_carrier value ≡ some c → IsValid c
unfolding parse_carrier
parse_carrier-IsValid none c e = absurd (cc)
parse_carrier-IsValid (some value) c e =
    elim (Option-cases (checked valid_trace_id (get (text "traceId") value))) [
      | inl missing ↦ absurd (ground (arith, missing))
      | inr (t, found) ↦
          subst IsValid (some-injective _ _ (rw (found, parse_carrier) at e)) (record {
            trace = checked-eq-some valid_trace_id (get (text "traceId") value) t found;
            parent = checked-Holds valid_span_id (get (text "parentSpanId") value);
            flags = checked-Holds valid_flags (get (text "traceFlags") value);
            request = checked-Holds valid_request_id (get (text "requestId") value);
          })
    ]

written :
    (t : Text) (p f r : Option Text)
    → valid_trace_id t ≡ true
    → Holds valid_span_id p
    → Holds valid_flags f
    → Holds valid_request_id r
    → let c : TraceCarrier = record {
      trace_id = t;
      parent_span_id = p;
      trace_flags = f;
      request_id = r;
    } in
      parse_carrier (some (carrier_json c)) ≡ some c
unfolding parse_carrier carrier_json
written t none none none a b c d = rw (a, parse_carrier) refl
written t none none (some r) a b c d = rw (a, d, parse_carrier) refl
written t none (some f) none a b c d = rw (a, c, parse_carrier) refl
written t none (some f) (some r) a b c d = rw (a, c, d, parse_carrier) refl
written t (some p) none none a b c d = rw (a, b, parse_carrier) refl
written t (some p) none (some r) a b c d = rw (a, b, d, parse_carrier) refl
written t (some p) (some f) none a b c d = rw (a, b, c, parse_carrier) refl
written t (some p) (some f) (some r) a b c d = rw (a, b, c, d, parse_carrier) refl

-- A valid carrier that is written as JSON is read back unchanged.
pub parse_carrier-carrier_json :
    (c : TraceCarrier) → IsValid c → parse_carrier (some (carrier_json c)) ≡ some c
unfolding parse_carrier carrier_json
parse_carrier-carrier_json c v =
    written c.trace_id c.parent_span_id c.trace_flags c.request_id v.trace v.parent v.flags
      v.request
