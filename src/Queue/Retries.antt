-- ===== src/Queue/Retries.antt =====
-- A message whose every handling asks for a retry: `scheduleRetry` of
-- src/queue/messaging-queue.service.ts and the redelivery of what it publishes.
use mathlib.Core.Option
use api_whats_app.Base.{
  ℕ, zero, suc, ◌+◌, ◌≤◌, ◌<◌, ◌≡◌, refl, true, false, Option, none, some, List, [], ◌∷◌, length,
  if◌then◌else◌, get_elem?, get_elem?-lt, get_elem?-ge, count_if, Text, is_blank, arith,
}
use api_whats_app.Base.Json.{num}
use api_whats_app.Dispatch.{retry, Processing}
use api_whats_app.Trace.{TraceCarrier}
use api_whats_app.Queue.{
  QueueJob, Publication, Consumed, parse_message, retry_count, dead_queue_name,
}
use api_whats_app.Queue.Routes.{leads_back-get_elem?, leads_back-dead}
use api_whats_app.Queue.Delivery.{
  returned, Effects, Consumer, retry_publication, dead_letter, schedule_retry, settle_result,
  run_job, process_delivery, leads_back,
}
use api_whats_app.Queue.Settled.{ValidTrace, parse_message-job_content, job_of}

-- The delivery that the broker makes of a message: the content and the retry header are those that
-- were published.
abbrev pub redelivered : Publication → Consumed
redelivered p = record { content = some p.content; retry_header = Option.map num p.retry_count }

-- The first of the messages that stands in a queue that leads back to the consumer is followed. A
-- delivery publishes one message at most.
abbrev next : Consumer → (Publication → List Effects) → List Publication → List Effects
next c rest [] = []
next c rest (p ∷ ps) =
    let after = rest p in if leads_back c.base c.traffic_class c.delays p.queue then after else []

-- The deliveries that follow from one, up to `fuel` of them: a message that is published in a queue
-- that leads back to the consumer is delivered again; one in another queue is not.
pub follow : ℕ → Consumer → Consumed → List Effects
follow zero c d = []
follow (suc fuel) c d =
    let rest : Publication → List Effects = λ p. follow fuel c (redelivered p) in
    process_delivery c d ∷ next c rest (process_delivery c d).published

-- A handler that asks for a retry of every job.
abbrev pub Retries : Consumer → Type 0
Retries c = (job : QueueJob) → (r : Processing) × (c.handler job ≡ returned r) × (r.action ≡ retry)

-- A delivery of a job that the queue itself may have published.
abbrev pub Delivers : Text → Option TraceCarrier → ℕ → Consumed → Type 0
Delivers id trace attempt d =
    (parse_message d.content ≡ some (id, trace)) × (retry_count d.retry_header ≡ attempt)

-- Within the schedule the delivery publishes one retry, with the count one higher, in a queue that
-- leads back.
record IsRetried (c : Consumer) (id : Text) (trace : Option TraceCarrier) (a : ℕ) (e : Effects)
    : Type 0 where
  message : Publication
  one : e.published ≡ message ∷ []
  back : leads_back c.base c.traffic_class c.delays message.queue ≡ true
  delivers : Delivers id trace (suc a) (redelivered message)
  kept : e.exhausted ≡ false

-- Past the schedule it publishes one dead letter and calls `onExhausted`.
record IsLast (c : Consumer) (e : Effects) : Type 0 where
  message : Publication
  one : e.published ≡ message ∷ []
  dead_lettered : message.queue ≡ dead_queue_name c.base c.traffic_class
  called : e.exhausted ≡ true

module _ (c : Consumer) (id : Text) (trace : Option TraceCarrier) (again : Retries c)
    (sure : c.confirmed ≡ true) (ok : c.on_exhausted_ok ≡ true) (named : is_blank id ≡ false)
    (valid : ValidTrace trace) where
  process-retry :
      (d : Consumed) (r : Processing)
      → parse_message d.content ≡ some (id, trace)
      → c.handler (job_of c d id trace) ≡ returned r
      → r.action ≡ retry
      → process_delivery c d ≡ settle_result c (job_of c d id trace) retry r.reason
  unfolding process_delivery
  process-retry d r parsed e asked = rw (parsed, process_delivery) (rw (e, run_job) (rw asked refl))

  retried :
      (a : ℕ) (d : Consumed)
      → Delivers id trace a d
      → a < length c.delays
      → IsRetried c id trace a (process_delivery c d)
  unfolding settle_result schedule_retry retry_count
  retried a d there within =
      let job = job_of c d id trace in
      let (r, e, asked) = again job in
      let (x, found) = get_elem?-lt c.delays (retry_count d.retry_header) (omega arith) in
      let back =
        leads_back-get_elem? c.base c.traffic_class c.delays (retry_count d.retry_header) found in
      rw (process-retry d r there.0 e asked) (
        rw (found, settle_result)
          (rw sure (record {
            message = retry_publication c.base job x (job.attempt + 1) r.reason;
            one = refl;
            back = back;
            delivers = (
              parse_message-job_content id c.traffic_class trace named valid,
              ground (arith, there.1),
            );
            kept = refl;
          })))

  last :
      (a : ℕ) (d : Consumed)
      → Delivers id trace a d
      → length c.delays ≤ a
      → IsLast c (process_delivery c d)
  unfolding settle_result schedule_retry dead_letter
  last a d there past =
      let job = job_of c d id trace in
      let (r, e, asked) = again job in
      let missing : get_elem? c.delays (retry_count d.retry_header) ≡ none =
        get_elem?-ge c.delays (retry_count d.retry_header) (omega arith) in
      rw (process-retry d r there.0 e asked) (
        rw (missing, settle_result)
          (rw (ok, sure) (record { message = _; one = refl; dead_lettered = refl; called = refl })))

  budget :
      (n a fuel : ℕ) (d : Consumed)
      → Delivers id trace a d
      → length c.delays ≡ a + n
      → n < fuel
      → (length (follow fuel c d) ≡ n + 1)
        × (count_if (λ (e : Effects). e.exhausted) (follow fuel c d) ≡ 1)
  unfolding follow
  budget n a zero d there len enough = absurd (omega arith)
  budget zero a (suc fuel) d there len enough =
      let e = last a d there (omega arith) in
      rw (e.one, next)
        (rw e.dead_lettered
          (rw (leads_back-dead c.base c.traffic_class c.delays) (rw e.called (refl, refl))))
  budget (suc n) a (suc fuel) d there len enough =
      let e = retried a d there (omega arith) in
      let rest =
        budget n (suc a) fuel (redelivered e.message) e.delivers (omega arith) (omega arith) in
      rw (e.one, next) (rw e.back (rw e.kept (ground (arith, rest.0), rest.1)))

-- If every handling of a message asks for a retry, the broker confirms each publication and
-- `onExhausted` does not throw, then a delivery at attempt `a` of a schedule of `a + n` delays, with a
-- message id that is not empty and no trace or a valid one, is handled `n + 1` times in all, through
-- the messages that the handlings publish in queues that lead back to the consumer, and exactly one of
-- these handlings calls `onExhausted`. Any fuel above `n` follows them all.
pub retry_budget :
    (c : Consumer) (id : Text) (trace : Option TraceCarrier) (n a fuel : ℕ) (d : Consumed)
    → Retries c
    → c.confirmed ≡ true
    → c.on_exhausted_ok ≡ true
    → is_blank id ≡ false
    → ValidTrace trace
    → Delivers id trace a d
    → length c.delays ≡ a + n
    → n < fuel
    → (length (follow fuel c d) ≡ n + 1)
      × (count_if (λ (e : Effects). e.exhausted) (follow fuel c d) ≡ 1)
retry_budget c id trace n a fuel d again sure ok named valid there len enough =
    budget c id trace again sure ok named valid n a fuel d there len enough
