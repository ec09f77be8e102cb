-- ===== src/Base/Errors.antt =====
-- What JavaScript code throws: an `Error` with its message, or any other value.
use api_whats_app.Base.Strings.{Text}

pub data Thrown : Type 0 where
  error : Text → Thrown
  other : Thrown

-- `error instanceof Error ? error.message : fallback`
abbrev pub message_or : Text → Thrown → Text
message_or fallback (error message) = message
message_or fallback other = fallback
