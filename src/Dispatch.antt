-- ===== src/Dispatch.antt =====
-- src/worker/message-dispatcher.service.ts and src/meta/meta-api.error.ts: one queue job is
-- dispatched. The row is claimed under a lease, the sender resolved, a rate slot awaited, the
-- message sent, and the outcome written back. The services it awaits are the fields of `World`.

mod Examples
pub mod Lease
pub mod Branches
pub mod Outcome
pub mod Redelivery
use api_whats_app.Base.{
  ℕ, ◌+◌, leb, max, if◌then◌else◌, Bool, true, false, not, ◌&&◌, ◌||◌, Option, none, some, [], ◌++◌,
  take, Text, text, decimal, is_blank, Thrown, message_or, ◌⊎◌, inl, inr,
}
use api_whats_app.Base.Json.{Json, null, bool, num, str, obj, Fields, end, field}
use api_whats_app.Message.{
  MessageStatus, created, queued, processing, submitted, sent, delivered, read, failed, cancelled,
  expired, TrafficClass, same_class, class_name, Message, message_row, StatusEvent, Db,
}
use api_whats_app.Message.Store.{find_message, update_message, create_event}

pub record Job : Type 0 where
  pub message_id : ℕ
  pub attempt : ℕ
  pub traffic_class : TrafficClass

pub data Action : Type 0 where
  ack retry defer dead : Action

pub record Processing : Type 0 where
  pub action : Action
  pub reason : Option Text

pub record MetaError : Type 0 where
  pub message : Text
  pub http_status : Option ℕ
  pub code : Option ℕ
  pub subcode : Option ℕ
  pub retryable : Bool
  pub response : Option Json

-- How `meta.sendMessage` ends: with a result, with a `MetaApiError`, or with another exception.
pub data SendOutcome : Type 0 where
  accepted : Text → Option Json → SendOutcome
  refused : MetaError → SendOutcome
  broken : Thrown → SendOutcome

pub record Sender : Type 0 where
  pub phone_number_id : Text
  pub rate_limit_per_second : Option ℕ

-- What the services answer during one dispatch, and the clock at the claim and at its end.
pub record World : Type 0 where
  pub now : ℕ
  pub later : ℕ
  pub lease_config : ℕ
  pub resolve : ℕ → Thrown ⊎ Sender
  pub wait_for_slot : Sender → TrafficClass → Option Thrown
  pub send : Message → Sender → SendOutcome
  pub submit_error : Option Thrown

-- `TERMINAL_OR_SUBMITTED_STATUSES.has(status)`
abbrev pub is_settled : MessageStatus → Bool
is_settled submitted = true
is_settled sent = true
is_settled delivered = true
is_settled read = true
is_settled failed = true
is_settled cancelled = true
is_settled expired = true
is_settled _ = false

abbrev pub is_processing : MessageStatus → Bool
is_processing processing = true
is_processing _ = false

-- `value ?? null` through JSON.
abbrev pub to_json : Option Json → Json
to_json none = null
to_json (some j) = j

-- A key whose value is `undefined` is dropped by `JSON.stringify`.
abbrev optional_field : Text → Option Json → Fields
optional_field k none = end
optional_field k (some j) = field k j end

-- The `where` of the claim.
unfoldable pub claimable : ℕ → Message → Bool
claimable now m = no_provider m.provider_message_id && by_status m.status
  where
    no_provider : Option Text → Bool
    no_provider none = true
    no_provider (some id) = false

    lapsed : Option ℕ → Bool
    lapsed none = true
    lapsed (some until) = leb until now

    by_status : MessageStatus → Bool
    by_status created = true
    by_status queued = true
    by_status processing = lapsed m.processing_lease_until
    by_status _ = false

abbrev pub lease_ms : ℕ → ℕ
lease_ms config = max 5000 config

abbrev pub claimed_row : ℕ → ℕ → Message → Message
claimed_row now config m = record m {
  status = processing;
  attempt_count = m.attempt_count + 1;
  last_attempt_at = some now;
  processing_lease_until = some (now + lease_ms config);
  error_code = none;
  error_message = none;
}

-- `claimMessage`: the new tables, whether a row was updated, and the row as it reads then.
unfoldable pub claim_message : ℕ → ℕ → ℕ → Db → Db × Bool × Option Message
unfolding claimable
claim_message now config id db = elim (find_message id db) [
  | none ↦ (db, false, none)
  | some m ↦
      if claimable now m
      then (update_message id (claimed_row now config) db, true, some (claimed_row now config m))
      else (db, false, some m)
]

unfoldable pub meta_error_code : MetaError → Text
meta_error_code e = elim e.code [
  | some code ↦ text "META_" ++ decimal code ++ suffix e.subcode
  | none ↦ elim e.http_status [
    | some status ↦ text "HTTP_" ++ decimal status
    | none ↦ text "META_API_ERROR"
  ]
]
  where
    suffix : Option ℕ → Text
    suffix none = []
    suffix (some subcode) = text "_" ++ decimal subcode

abbrev pub retryable_row : Text → Text → Message → Message
retryable_row error_code error_message m = record m {
  status = queued;
  processing_lease_until = none;
  error_code = some error_code;
  error_message = some (take 2000 error_message);
}

-- `markRetryableFailure`
unfoldable pub mark_retryable_failure : ℕ → Text → Text → ℕ → Option Json → Db → Db
mark_retryable_failure id error_code error_message attempt response db =
    create_event (record { message_id = id; status = queued; payload = payload; created_at = none })
      (update_message id (retryable_row error_code error_message) db)
  where
    payload : Json
    payload = obj (
        field (text "retry") (bool true) (
          field (text "queueAttempt") (num (attempt + 1)) (
            field (text "errorCode") (str error_code) (
              field (text "errorMessage") (str error_message)
                (optional_field (text "response") response)))))

-- `response !== undefined ? { providerResponse } : {}`
abbrev pub stored_response : Option Json → Message → Option Json
stored_response none m = m.provider_response
stored_response (some j) m = some j

abbrev pub failed_row : ℕ → Text → Text → Option Json → Message → Message
failed_row now error_code error_message response m = record m {
  status = failed;
  processing_lease_until = none;
  error_code = some error_code;
  error_message = some (take 2000 error_message);
  failed_at = some now;
  provider_response = stored_response response m;
}

-- `markFailed`
unfoldable pub mark_failed : ℕ → ℕ → Text → Text → Option Json → Db → Db
mark_failed now id error_code error_message response db =
    create_event (record { message_id = id; status = failed; payload = payload; created_at = none })
      (update_message id (failed_row now error_code error_message response) db)
  where
    payload : Json
    payload = obj (
        field (text "errorCode") (str error_code) (
          field (text "errorMessage") (str error_message)
            (optional_field (text "response") response)))

abbrev pub submitted_row : ℕ → Text → Option Json → Message → Message
submitted_row now provider_message_id response m = record m {
  status = submitted;
  provider_message_id = some provider_message_id;
  provider_response = some (to_json response);
  submitted_at = some now;
  processing_lease_until = none;
  error_code = none;
  error_message = none;
}

-- The update that follows an accepted send.
unfoldable pub mark_submitted : ℕ → ℕ → Text → Option Json → Db → Db
mark_submitted now id provider_message_id response db =
    create_event
      (record {
        message_id = id;
        status = submitted;
        payload = obj (field (text "providerMessageId") (str provider_message_id) end);
        created_at = none;
      })
      (update_message id (submitted_row now provider_message_id response) db)

abbrev has_provider_id : Message → Bool
has_provider_id m = elim m.provider_message_id [ none ↦ false | some id ↦ not (is_blank id) ]

-- The answer when no row was claimed.
unfoldable pub not_claimed : Option Message → Processing
not_claimed none = record { action = ack; reason = none }
not_claimed (some m) =
    if has_provider_id m || is_settled m.status
    then record { action = ack; reason = none }
    else if is_processing m.status
    then record {
      action = defer;
      reason = some (text "Message is currently leased by another worker");
    }
    else record { action = ack; reason = none }

-- The last `try` of `dispatch`: send and write the outcome.
unfoldable pub send_and_record : World → Job → Message → Sender → Db → Db × Processing
send_and_record w job m s db = elim (w.send m s) [
  | accepted provider_id response ↦ elim w.submit_error [
    | none ↦ (
      mark_submitted w.later m.id provider_id response db,
      record { action = ack; reason = none },
    )
    | some thrown ↦ invalid thrown
  ]
  | refused e ↦
      if e.retryable
      then (
        mark_retryable_failure m.id (meta_error_code e) e.message job.attempt e.response db,
        record { action = retry; reason = some e.message },
      )
      else (
        mark_failed w.later m.id (meta_error_code e) e.message e.response db,
        record { action = dead; reason = some e.message },
      )
  | broken thrown ↦ invalid thrown
]
  where
    invalid : Thrown → Db × Processing
    invalid thrown =
        let reason = message_or (text "Outbound message mapping failed") thrown in
        (
          mark_failed w.later m.id (text "OUTBOUND_VALIDATION_ERROR") reason none db,
          record { action = dead; reason = some reason },
        )

-- `dispatch` from the sender's resolution on.
unfoldable pub resolve_and_send : World → Job → Message → Db → Db × Processing
resolve_and_send w job m db = elim (w.resolve m.sender_id) [
  | inl thrown ↦
      let reason = message_or (text "WhatsApp sender configuration is unavailable") thrown in
      (
        mark_failed w.later m.id (text "SENDER_CONFIGURATION_ERROR") reason none db,
        record { action = dead; reason = some reason },
      )
  | inr s ↦ elim (w.wait_for_slot s m.traffic_class) [
    | some thrown ↦
        let reason = message_or (text "Rate limiter unavailable") thrown in
        (
          mark_retryable_failure m.id (text "RATE_LIMITER_UNAVAILABLE") reason job.attempt none db,
          record { action = retry; reason = some reason },
        )
    | none ↦ send_and_record w job m s db
  ]
]

-- The event that a claimed dispatch appends before it resolves the sender.
abbrev pub started_event : Job → Message → StatusEvent
started_event job m = record {
  message_id = m.id;
  status = processing;
  payload = obj (
      field (text "queueAttempt") (num (job.attempt + 1))
        (field (text "trafficClass") (str (class_name m.traffic_class)) end));
  created_at = none;
}

-- `dispatch` for a claimed row.
unfoldable pub dispatch_claimed : World → Job → Message → Db → Db × Processing
dispatch_claimed w job m db =
    if same_class m.traffic_class job.traffic_class
    then resolve_and_send w job m (create_event (started_event job m) db)
    else (
      mark_failed w.later m.id (text "QUEUE_TRAFFIC_CLASS_MISMATCH") mismatch none db,
      record { action = dead; reason = some mismatch },
    )
  where
    mismatch : Text
    mismatch =
        text "Queue traffic class "
        ++ class_name job.traffic_class
        ++ text " does not match persisted class "
        ++ class_name m.traffic_class

-- `dispatch` after the claim: the tables, whether a row was claimed, and the row.
unfoldable pub after_claim : World → Job → Db × Bool × Option Message → Db × Processing
after_claim w job (db, false, row) = (db, not_claimed row)
after_claim w job (db, true, none) =
    (db, record { action = retry; reason = some (text "Claimed message could not be reloaded") })
after_claim w job (db, true, some m) = dispatch_claimed w job m db

unfoldable pub dispatch : World → Job → Db → Db × Processing
unfolding after_claim
dispatch w job db = after_claim w job (claim_message w.now w.lease_config job.message_id db)

-- The lease runs past `now`.
abbrev pub runs_past : ℕ → Option ℕ → Bool
runs_past now none = false
runs_past now (some until) = not (leb until now)

-- `reason ?? …`
abbrev exhausted_text : Job → Option Text → Text
exhausted_text job (some reason) = reason
exhausted_text job none =
    text "Outbound retry policy exhausted after "
    ++ decimal (job.attempt + 1)
    ++ text " queue attempts"

-- `markRetryExhausted`
unfoldable pub mark_retry_exhausted : ℕ → Job → Option Text → Db → Db
mark_retry_exhausted now job reason db = elim (find_message job.message_id db) [
  | none ↦ db
  | some m ↦
      if is_settled m.status
      then db
      else if is_processing m.status && runs_past now m.processing_lease_until
      then db
      else mark_failed now m.id (text "RETRY_EXHAUSTED") (exhausted_text job reason) none db
]
