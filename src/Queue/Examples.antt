-- ===== src/Queue/Examples.antt =====
-- The theorems about src/queue/messaging-queue.service.ts at one consumer and one delivery.
use api_whats_app.Base.{◌≡◌, ◌↔◌, refl, true, false, none, some, text, length, count_if, arith}
use api_whats_app.Base.Json.{num}
use api_whats_app.Message.{otp}
use api_whats_app.Dispatch.{retry, Processing}
use api_whats_app.Trace.{TraceCarrier, parse_carrier, valid_trace_id, valid_span_id, valid_flags}
use api_whats_app.Trace.Carrier.{IsValid}
use api_whats_app.Queue.{Consumed, default_delays, job_content, parse_message, retry_count}
use api_whats_app.Queue.Delivery.{
  returned, unsettled, Effects, Consumer, process_delivery, run_job, settle_result, schedule_retry,
}
use api_whats_app.Queue.Settled.{
  parse_message-job_content, Kept, job_of, acked_not_lost, delivery-unsettled_iff,
}
use api_whats_app.Queue.Retries.{follow, retry_budget}

abbrev retrying : Consumer
retrying = record {
  base = text "whatsapp.outbound";
  traffic_class = otp;
  delays = default_delays;
  handler = λ _. returned (record { action = retry; reason = some (text "HTTP 503") });
  on_exhausted_ok = true;
  confirmed = true;
}

abbrev first_delivery : Consumed
first_delivery = record {
  content = some (job_content (text "m-1") otp none);
  retry_header = some (num 0);
}

abbrev malformed : Consumed
malformed = record { content = none; retry_header = none }

abbrev carrier : TraceCarrier
carrier = record {
  trace_id = text "4bf92f3577b34da6a3ce929d0e0e4736";
  parent_span_id = some (text "00f067aa0ba902b7");
  trace_flags = some (text "01");
  request_id = none;
}

carrier-IsValid : IsValid carrier
unfolding valid_trace_id valid_span_id valid_flags
carrier-IsValid = record { trace = refl; parent = refl; flags = refl; request = tt }

parse_message-job_content_example :
    parse_message (some (job_content (text "m-1") otp (some carrier)))
    ≡ some (text "m-1", some carrier)
parse_message-job_content_example =
    parse_message-job_content (text "m-1") otp (some carrier) refl carrier-IsValid

acked_not_lost_example :
    (r : Processing) × (retrying.handler (job_of retrying first_delivery (text "m-1") none)
      ≡ returned r)
    × Kept retrying
        (job_of retrying first_delivery (text "m-1") none)
        r.action
        (process_delivery retrying first_delivery)
unfolding parse_message process_delivery run_job settle_result schedule_retry retry_count
    parse_carrier
acked_not_lost_example =
    acked_not_lost retrying first_delivery (text "m-1") none (omega arith) refl refl

delivery-unsettled_iff_example :
    ((process_delivery (record retrying { confirmed = false }) malformed).settled ≡ unsettled)
    ↔ ((parse_message malformed.content ≡ none) × (false ≡ false))
delivery-unsettled_iff_example =
    delivery-unsettled_iff (record retrying { confirmed = false }) malformed

-- Four delays: five handlings, the last of which exhausts the message.
retry_budget_example :
    (length (follow 9 retrying first_delivery) ≡ 5)
    × (count_if (λ (e : Effects). e.exhausted) (follow 9 retrying first_delivery) ≡ 1)
unfolding parse_message retry_count parse_carrier
retry_budget_example =
    retry_budget retrying (text "m-1") none 4 0 9 first_delivery (λ job. (_, refl, refl)) refl refl
      refl tt (refl, refl) refl (omega arith)
