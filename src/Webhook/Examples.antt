-- ===== src/Webhook/Examples.antt =====
-- The theorems about src/webhooks/webhook-status.service.ts at one payload and one message row.
use api_whats_app.Base.{refl, none, some, [], ◌∷◌, Text, text}
use api_whats_app.Base.Json.{Json, str, arr, obj, end, field, cons, nil}
use api_whats_app.Message.{otp, submitted, Message}
use api_whats_app.Webhook.Apply.{process_payload}
use api_whats_app.Webhook.Progress.{HasAdvanced, process_payload-HasAdvanced}

abbrev row : Message
row = record {
  id = 7;
  sender_id = 2;
  traffic_class = otp;
  status = submitted;
  provider_message_id = some (text "wamid.1");
  provider_response = none;
  attempt_count = 1;
  last_attempt_at = none;
  processing_lease_until = none;
  error_code = none;
  error_message = none;
  submitted_at = none;
  sent_at = none;
  delivered_at = none;
  read_at = none;
  failed_at = none;
}

abbrev one : Text → Json → Json
one k v = obj (field k v end)

abbrev list_of : Json → Json
list_of j = arr (cons j nil)

-- One `sent` status of the message.
abbrev payload : Json
payload = one (text "entry") (
    list_of (
      one (text "changes") (
        list_of (
          one (text "value") (
            one (text "statuses") (
              list_of (
                obj (
                  field (text "id") (str (text "wamid.1"))
                    (field (text "status") (str (text "sent")) end)))))))))

process_payload-HasAdvanced_example :
    HasAdvanced 7 row
      (process_payload (λ _. none) 1000 payload (record { messages = row ∷ []; events = [] }))
process_payload-HasAdvanced_example =
    process_payload-HasAdvanced (λ _. none) 1000 payload
      (record { messages = row ∷ []; events = [] }) 7 row (tt, tt) refl
