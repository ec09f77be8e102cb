-- ===== src/Webhook/Apply.antt =====
-- The writes of src/webhooks/webhook-status.service.ts: `applyStatus`, and the loop of
-- `processWebhookEvent` over the statuses of one payload.
use api_whats_app.Base.{
  ℕ, if◌then◌else◌, Bool, false, Option, none, some, List, [], ◌∷◌, Text, text, text_eq,
}
use api_whats_app.Base.Json.{Json, arr, obj, Fields, end, field, str, of_list}
use api_whats_app.Message.{
  MessageStatus, sent, delivered, read, failed, Message, message_row, StatusEvent, Db,
}
use api_whats_app.Message.Store.{update_message, create_event}
use api_whats_app.Webhook.{
  ProviderStatus, ProviderError, map_status, should_apply, parse_timestamp, extract_error,
  extract_statuses,
}

-- `"providerMessageId" = id`, which is not true of NULL.
abbrev pub carries : Text → Message → Bool
carries id m = elim m.provider_message_id [ none ↦ false | some other ↦ text_eq other id ]

-- `SELECT … WHERE "providerMessageId" = …`, the first row.
unfoldable pub find_provider : Text → List Message → Option Message
find_provider id [] = none
find_provider id (m ∷ ms) = let rest = find_provider id ms in if carries id m then some m else rest

-- The columns that the update writes, for the target status.
unfoldable pub status_row : MessageStatus → ℕ → ProviderError → Message → Message
status_row sent at error m = record m { status = sent; sent_at = some at }
status_row delivered at error m = record m { status = delivered; delivered_at = some at }
status_row read at error m = record m { status = read; read_at = some at }
status_row failed at error m = record m {
  status = failed;
  failed_at = some at;
  error_code = error.code;
  error_message = error.message;
}
status_row target at error m = record m { status = target }

abbrev optional_text : Text → Option Text → Fields → Fields
optional_text k none rest = rest
optional_text k (some s) rest = field k (str s) rest

abbrev optional_list : Text → Option (List Json) → Fields → Fields
optional_list k none rest = rest
optional_list k (some js) rest = field k (arr (of_list js)) rest

-- `toJson(providerStatus)`
abbrev status_json : ProviderStatus → Json
status_json p = obj (
    field (text "id") (str p.id) (
      field (text "status") (str p.status) (
        optional_text (text "timestamp") p.timestamp (optional_list (text "errors") p.errors end))))

-- The transaction of `applyStatus`, for a row that was found.
unfoldable pub apply_target : MessageStatus → ℕ → ProviderStatus → Message → Db → Db
apply_target target at p m db =
    let logged = create_event event db in
    if should_apply m.status target
    then update_message m.id (status_row target at (extract_error p.errors)) logged
    else logged
  where
    event : StatusEvent
    event = record {
      message_id = m.id;
      status = target;
      payload = status_json p;
      created_at = some at;
    }

abbrev or_now : ℕ → Option ℕ → ℕ
or_now now none = now
or_now now (some at) = at

module _ (number : Text → Option ℕ) (now : ℕ) where
  unfoldable pub apply_status : ProviderStatus → Db → Db
  apply_status p db = elim (map_status p.status) [
    | none ↦ db
    | some target ↦ elim (find_provider p.id db.messages) [
      | none ↦ db
      | some m ↦ apply_target target (or_now now (parse_timestamp number p.timestamp)) p m db
    ]
  ]

  unfoldable pub apply_statuses : List ProviderStatus → Db → Db
  apply_statuses [] db = db
  apply_statuses (p ∷ ps) db = apply_statuses ps (apply_status p db)

  -- `processWebhookEvent` on the message tables.
  unfoldable pub process_payload : Json → Db → Db
  unfolding apply_statuses
  process_payload payload db = apply_statuses (extract_statuses payload) db
