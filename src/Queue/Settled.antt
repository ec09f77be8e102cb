-- ===== src/Queue/Settled.antt =====
-- How `processDelivery` of src/queue/messaging-queue.service.ts settles a delivery, and what a
-- published job reads like when it comes back.
use api_whats_app.Base.{
  ℕ, zero, suc, ◌<◌, ◌≤◌, length, true, ◌≡◌, ◌≢◌, refl, ◌↔◌, ◌⊎◌, inl, inr, false, Option, none,
  some, List, [], ◌∷◌, get_elem?, Text, text, is_blank, arith, Bool-cases, Option-cases,
}
use api_whats_app.Base.Json.{str, get}
use api_whats_app.Message.{TrafficClass}
use api_whats_app.Dispatch.{Action, ack, retry, defer, dead, Processing}
use api_whats_app.Trace.{TraceCarrier, parse_carrier}
use api_whats_app.Trace.Carrier.{IsValid, parse_carrier-carrier_json}
use api_whats_app.Queue.{
  QueueJob, Publication, Consumed, job_content, parse_message, retry_count, dead_queue_name,
}
use api_whats_app.Queue.Routes.{leads_back-get_elem?, leads_back-min_delay}
use api_whats_app.Queue.Delivery.{
  Handled, returned, threw, acked, unsettled, Effects, Consumer, settle, leads_back, exhaust,
  schedule_retry, schedule_deferred_retry, dead_letter, settle_result, run_job, process_delivery,
}

abbrev pub ValidTrace : Option TraceCarrier → Type 0
ValidTrace none = Unit
ValidTrace (some c) = IsValid c

-- The content that is published for a job is parsed back into its message id and trace, if the id
-- is not empty and the trace is a valid carrier.
pub parse_message-job_content :
    (id : Text) (c : TrafficClass) (trace : Option TraceCarrier)
    → is_blank id ≡ false
    → ValidTrace trace
    → parse_message (some (job_content id c trace)) ≡ some (id, trace)
unfolding parse_message parse_carrier
parse_message-job_content id c none h v = rw h refl
parse_message-job_content id c (some t) h v = rw h (rw (parse_carrier-carrier_json t v) refl)

Handled-cases : (h : Handled) → ((r : Processing) × (h ≡ returned r)) ⊎ (h ≡ threw)
Handled-cases (returned r) = inl (r, refl)
Handled-cases threw = inr refl

-- The job that a well-formed delivery stands for.
abbrev pub job_of : Consumer → Consumed → Text → Option TraceCarrier → QueueJob
job_of c d id trace = record {
  message_id = id;
  attempt = retry_count d.retry_header;
  traffic_class = c.traffic_class;
  trace = trace;
}

-- The answer asks for the message to be handled again: later, or once more within the schedule.
abbrev pub GoesOn : Consumer → QueueJob → Action → Type 0
GoesOn c job a = (a ≡ defer) ⊎ ((a ≡ retry) × (job.attempt < length c.delays))

-- The answer gives the message up: at once, or past the schedule, with `onExhausted` called.
abbrev pub GivesUp : Consumer → QueueJob → Action → Effects → Type 0
GivesUp c job a e =
    (a ≡ dead) ⊎ ((a ≡ retry) × (length c.delays ≤ job.attempt) × (e.exhausted ≡ true))

-- The broker has confirmed the one message that is published, and it carries the message id.
pub record IsPublished (c : Consumer) (id : Text) (e : Effects) (p : Publication) : Type 0 where
  pub one : e.published ≡ p ∷ []
  pub carried : get (text "messageId") p.content ≡ some (str id)
  pub confirmed : c.confirmed ≡ true

-- Where a message is that the handler has answered with an action and that is acknowledged.
pub data Kept (c : Consumer) (job : QueueJob) (a : Action) (e : Effects) : Type 0 where
  finished : a ≡ ack → e.published ≡ [] → Kept c job a e
  rescheduled :
      (p : Publication)
      → GoesOn c job a
      → IsPublished c job.message_id e p
      → leads_back c.base c.traffic_class c.delays p.queue ≡ true
      → Kept c job a e
  dead_lettered :
      (p : Publication)
      → GivesUp c job a e
      → IsPublished c job.message_id e p
      → p.queue ≡ dead_queue_name c.base c.traffic_class
      → Kept c job a e

module _ (c : Consumer) (job : QueueJob) (own : job.traffic_class ≡ c.traffic_class)
    (some_delay : 0 < length c.delays) where
  confirmed-acked : settle c ≡ acked → c.confirmed ≡ true
  confirmed-acked h = ground arith

  exhaust-Kept :
      (reason : Option Text)
      → length c.delays ≤ job.attempt
      → (exhaust c job reason).settled ≡ acked
      → Kept c job retry (exhaust c job reason)
  unfolding dead_letter
  exhaust-Kept reason past h = elim (Bool-cases c.on_exhausted_ok) [
    | inl called ↦ rw called (
        dead_lettered _ (inr (refl, past, refl))
          (record { one = refl; carried = refl; confirmed = confirmed-acked (rw called at h) })
          refl)
    | inr failing ↦ absurd (ground (arith, failing, h))
  ]

  settle_result-Kept :
      (a : Action) (reason : Option Text)
      → (settle_result c job a reason).settled ≡ acked
      → Kept c job a (settle_result c job a reason)
  unfolding settle_result dead_letter schedule_retry schedule_deferred_retry
  settle_result-Kept ack reason h = finished refl refl
  settle_result-Kept dead reason h =
      dead_lettered _ (inl refl)
        (record { one = refl; carried = refl; confirmed = confirmed-acked h }) refl
  settle_result-Kept defer reason h =
      rescheduled _ (inl refl)
        (record { one = refl; carried = refl; confirmed = confirmed-acked h })
        (rw own (leads_back-min_delay c.base c.traffic_class c.delays some_delay))
  settle_result-Kept retry reason h = elim (Option-cases (get_elem? c.delays job.attempt)) [
    | inl e ↦
        rw (e, settle_result)
          (exhaust-Kept reason (get_elem?-none c.delays job.attempt e) (rw (e, settle_result) at h))
    | inr (delay, e) ↦
        rw (e, settle_result)
          (rescheduled _ (inr (refl, get_elem?-some c.delays job.attempt e))
            (record {
              one = refl;
              carried = refl;
              confirmed = confirmed-acked (rw (e, settle_result) at h);
            })
            (rw own (leads_back-get_elem? c.base c.traffic_class c.delays job.attempt e)))
  ]
    where
      get_elem?-some : (ds : List ℕ) (i : ℕ) {d : ℕ} → get_elem? ds i ≡ some d → i < length ds
      get_elem?-some [] i e = ground arith
      get_elem?-some (d ∷ ds) zero e = omega arith
      get_elem?-some (d ∷ ds) (suc i) e = omega (arith, get_elem?-some ds i e)

      get_elem?-none : (ds : List ℕ) (i : ℕ) → get_elem? ds i ≡ none → length ds ≤ i
      get_elem?-none [] i e = omega arith
      get_elem?-none (d ∷ ds) zero e = ground arith
      get_elem?-none (d ∷ ds) (suc i) e = omega (arith, get_elem?-none ds i e)

-- A well-formed delivery that is acknowledged, with a schedule that is not empty, is not lost. Its
-- handler returned. If it answered `ack`, nothing is published. Otherwise exactly one message with the
-- same message id is published, which the broker has confirmed: where the answer was to defer, or to
-- retry within the schedule, in a queue that leads back to the consumer; and where it was `dead`, or to
-- retry past the schedule, in which case `onExhausted` was called, in the dead-letter queue.
pub acked_not_lost :
    (c : Consumer) (d : Consumed) (id : Text) (trace : Option TraceCarrier)
    → 0 < length c.delays
    → parse_message d.content ≡ some (id, trace)
    → (process_delivery c d).settled ≡ acked
    → (r : Processing) × (c.handler (job_of c d id trace) ≡ returned r)
      × Kept c (job_of c d id trace) r.action (process_delivery c d)
unfolding process_delivery
acked_not_lost c d id trace some_delay parsed h =
    elim (Handled-cases (c.handler (job_of c d id trace))) [
      | inl (r, e) ↦ (
        r,
        e,
        rw (parsed, process_delivery)
            (rw (e, run_job)
              (settle_result-Kept c (job_of c d id trace) refl some_delay r.action r.reason
                (rw (e, run_job) at (rw (parsed, process_delivery) at h)))),
      )
      | inr e ↦ absurd (ground (arith, rw (e, run_job) at (rw (parsed, process_delivery) at h)))
    ]

run_job_settled : (c : Consumer) (job : QueueJob) → (run_job c job).settled ≢ unsettled
unfolding run_job settle_result schedule_retry
run_job_settled c job = elim (Handled-cases (c.handler job)) [
  | inr e ↦ rw (e, run_job) (λ h. absurd (ground (arith, h)))
  | inl (r, e) ↦ rw (e, run_job) (settled r.action r.reason)
]
  where
    settled :
        (a : Action) (reason : Option Text) → (settle_result c job a reason).settled ≢ unsettled
    settled ack reason h = ground arith
    settled dead reason h = ground arith
    settled defer reason h = ground arith
    settled retry reason h = ground arith

-- A delivery is left neither acknowledged nor put back exactly when its content is malformed and the
-- broker does not confirm its dead letter.
pub delivery-unsettled_iff :
    (c : Consumer) (d : Consumed)
    → ((process_delivery c d).settled ≡ unsettled)
      ↔ ((parse_message d.content ≡ none) × (c.confirmed ≡ false))
unfolding process_delivery
delivery-unsettled_iff c d = elim (Option-cases (parse_message d.content)) [
  | inl e ↦ rw (e, process_delivery) (ground arith)
  | inr ((id, trace), e) ↦
      rw (e, process_delivery)
        (λ h. absurd (run_job_settled c (job_of c d id trace) h), λ h. absurd (ground (arith, h.0)))
]
