-- ===== src/Message.antt =====
-- The message rows of prisma/schema.prisma as src/worker, src/outbox and src/webhooks use them:
-- statuses, traffic classes, the columns of `Message` that those components read or write, the
-- append-only `MessageStatusEvent` rows, and the two tables together. Instants are milliseconds.
pub mod Store
use api_whats_app.Base.{ℕ, Bool, true, false, Option, List, Text, text, Row}
use api_whats_app.Base.Json.{Json}

pub data MessageStatus : Type 0 where
  created received queued processing submitted sent delivered read failed cancelled expired :
      MessageStatus

pub MessageStatus-discrete : Discrete MessageStatus
MessageStatus-discrete = hlevel

pub data TrafficClass : Type 0 where
  otp transactional marketing : TrafficClass

-- `===` on two traffic classes.
abbrev pub same_class : TrafficClass → TrafficClass → Bool
same_class otp otp = true
same_class transactional transactional = true
same_class marketing marketing = true
same_class _ _ = false

-- The text of the enum constant.
abbrev pub class_name : TrafficClass → Text
class_name otp = text "OTP"
class_name transactional = text "TRANSACTIONAL"
class_name marketing = text "MARKETING"

pub record Message : Type 0 where
  pub id : ℕ
  pub sender_id : ℕ
  pub traffic_class : TrafficClass
  pub status : MessageStatus
  pub provider_message_id : Option Text
  pub provider_response : Option Json
  pub attempt_count : ℕ
  pub last_attempt_at : Option ℕ
  pub processing_lease_until : Option ℕ
  pub error_code : Option Text
  pub error_message : Option Text
  pub submitted_at : Option ℕ
  pub sent_at : Option ℕ
  pub delivered_at : Option ℕ
  pub read_at : Option ℕ
  pub failed_at : Option ℕ

instance abbrev pub message_row : Row Message
message_row = record { key = λ m. m.id }

pub record StatusEvent : Type 0 where
  pub message_id : ℕ
  pub status : MessageStatus
  pub payload : Json
  -- `none` is the default of the column, the instant of the insertion.
  pub created_at : Option ℕ

-- The tables that a worker's transactions change.
pub record Db : Type 0 where
  pub messages : List Message
  pub events : List StatusEvent
