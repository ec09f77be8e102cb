-- ===== src/Webhook.antt =====
-- src/webhooks/webhook-status.service.ts: the delivery statuses of a Meta webhook payload are
-- extracted and applied to the messages that carry the provider's id. `Number(text)` is the argument
-- `number`: `none` where it is not a finite whole number.
mod Examples
pub mod Apply
pub mod Progress
use api_whats_app.Base.{
  ℕ, ◌*◌, ◌≡◌, leb, if◌then◌else◌, Bool, true, false, not, ◌&&◌, Option, none, some, List, [], ◌∷◌,
  ◌++◌, take, length, Text, text, text_eq, to_lower, decimal, is_blank,
}
use api_whats_app.Base.Json.{
  Json, null, num, real, str, arr, obj, Fields, end, field, get, elements, of_list,
}
use api_whats_app.Message.{
  MessageStatus, created, received, queued, processing, submitted, sent, delivered, read, failed,
  cancelled, expired, Message, message_row, StatusEvent, Db,
}
use api_whats_app.Message.Store.{update_message, create_event}

pub record ProviderStatus : Type 0 where
  pub id : Text
  pub status : Text
  pub timestamp : Option Text
  pub errors : Option (List Json)

-- `STATUS_RANK[status] ?? -1`, one higher, so that it is a natural number.
abbrev pub rank : MessageStatus → ℕ
rank created = 1
rank queued = 2
rank processing = 3
rank submitted = 4
rank sent = 5
rank delivered = 6
rank read = 7
rank received = 0
rank failed = 0
rank cancelled = 0
rank expired = 0

unfoldable pub map_status : Text → Option MessageStatus
map_status s =
    let t = to_lower s in
    if text_eq t (text "sent")
    then some sent
    else if text_eq t (text "delivered")
    then some delivered
    else if text_eq t (text "read")
    then some read
    else if text_eq t (text "failed")
    then some failed
    else none

-- `shouldApplyStatus(current, target)`
unfoldable pub should_apply : MessageStatus → MessageStatus → Bool
should_apply read failed = false
should_apply delivered failed = false
should_apply current failed = true
should_apply failed target = false
should_apply cancelled target = false
should_apply expired target = false
should_apply current target = leb (rank current) (rank target)

-- An optional string of the candidate: another type of value is ignored.
abbrev string_of : Option Json → Option Text
string_of (some (str s)) = some s
string_of _ = none

abbrev array_of : Option Json → Option (List Json)
array_of (some (arr js)) = some (elements (some (arr js)))
array_of _ = none

-- One element of a `statuses` array.
unfoldable pub extract_status : Json → List ProviderStatus
extract_status j = elim (string_of (get (text "id") j)) [
  | none ↦ []
  | some id ↦ elim (string_of (get (text "status") j)) [
    | none ↦ []
    | some status ↦
        record {
          id = id;
          status = status;
          timestamp = string_of (get (text "timestamp") j);
          errors = array_of (get (text "errors") j);
        }
        ∷ []
  ]
]

abbrev pub flat {ℓ κ} : {A : Type ℓ} {B : Type κ} → (A → List B) → List A → List B
flat f [] = []
flat f (x ∷ xs) = f x ++ flat f xs

abbrev value_of : Json → Json
value_of change = elim (get (text "value") change) [ none ↦ null | some value ↦ value ]

-- `extractStatuses`: entry → changes → value.statuses.
unfoldable pub extract_statuses : Json → List ProviderStatus
unfolding extract_status
extract_statuses payload =
    flat
      (λ entry.
        flat (λ change. flat extract_status (elements (get (text "statuses") (value_of change))))
          (elements (get (text "changes") entry)))
      (elements (get (text "entry") payload))

-- `parseTimestamp`, in milliseconds.
unfoldable pub parse_timestamp : (Text → Option ℕ) → Option Text → Option ℕ
parse_timestamp number none = none
parse_timestamp number (some t) = if is_blank t then none else positive (number t)
  where
    positive : Option ℕ → Option ℕ
    positive none = none
    positive (some seconds) = if leb seconds 0 then none else some (seconds * 1000)

pub record ProviderError : Type 0 where
  pub code : Option Text
  pub message : Option Text

-- The first candidate that is a non-empty string.
abbrev first_text : List (Option Json) → Option Text
first_text [] = none
first_text (some (str s) ∷ rest) =
    let later = first_text rest in if is_blank s then later else some s
first_text (_ ∷ rest) = first_text rest

abbrev code_text : Option Json → Option Text
code_text (some (num n)) = some (decimal n)
code_text (some (real t)) = some t
code_text (some (str s)) = some s
code_text _ = none

abbrev details_of : Option Json → Option Json
details_of none = none
details_of (some data_) = get (text "details") data_

abbrev sliced : Option Text → Option Text
sliced none = none
sliced (some s) = some (take 2000 s)

unfoldable pub extract_error : Option (List Json) → ProviderError
extract_error none = record { code = none; message = none }
extract_error (some []) = record { code = none; message = none }
extract_error (some (value ∷ _)) = record {
  code = code_text (get (text "code") value);
  message = sliced (
      first_text (
        get (text "title") value
        ∷ get (text "message") value
        ∷ details_of (get (text "error_data") value)
        ∷ []));
}
