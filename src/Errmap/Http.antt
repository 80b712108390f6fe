-- ===== src/Errmap/Http.antt =====
-- internal/errmap/http.go.
use realtime_messaging_platf.Prelude.{ℕ, String, [], ◌∷◌, Option, none, some}
use realtime_messaging_platf.Domain.Errors.{
  Error, not_found, already_exists, duplicate_message, unauthorized, invalid_otp, otp_expired,
  device_mismatch, invalid_refresh_token, refresh_token_reuse, session_expired, session_revoked,
  forbidden, not_member, invalid_input, message_too_large, invalid_content_type, empty_id,
  invalid_id, invalid_phone_number, rate_limited, phone_rate_limited, ip_rate_limited,
  max_sessions_exceeded, slow_consumer, unavailable,
}
use realtime_messaging_platf.Errmap.Table.{Table, first_match}

pub record HttpError : Type 0 where
  pub status_code : ℕ
  pub code : String
  pub message : String

unfoldable pub http_mappings : Table (ℕ × String)
http_mappings =
    (not_found, (404, "NOT_FOUND"))
    ∷ (already_exists, (409, "ALREADY_EXISTS"))
    ∷ (duplicate_message, (200, "DUPLICATE"))
    ∷ (unauthorized, (401, "UNAUTHENTICATED"))
    ∷ (invalid_otp, (401, "INVALID_OTP"))
    ∷ (otp_expired, (401, "OTP_EXPIRED"))
    ∷ (device_mismatch, (401, "DEVICE_MISMATCH"))
    ∷ (invalid_refresh_token, (401, "INVALID_REFRESH_TOKEN"))
    ∷ (refresh_token_reuse, (401, "REFRESH_TOKEN_REUSE"))
    ∷ (session_expired, (401, "SESSION_EXPIRED"))
    ∷ (session_revoked, (401, "SESSION_REVOKED"))
    ∷ (forbidden, (403, "PERMISSION_DENIED"))
    ∷ (not_member, (403, "NOT_MEMBER"))
    ∷ (invalid_input, (400, "INVALID_ARGUMENT"))
    ∷ (message_too_large, (400, "INVALID_ARGUMENT"))
    ∷ (invalid_content_type, (400, "INVALID_ARGUMENT"))
    ∷ (empty_id, (400, "INVALID_ARGUMENT"))
    ∷ (invalid_id, (400, "INVALID_ARGUMENT"))
    ∷ (invalid_phone_number, (400, "INVALID_ARGUMENT"))
    ∷ (rate_limited, (429, "RATE_LIMITED"))
    ∷ (phone_rate_limited, (429, "PHONE_RATE_LIMITED"))
    ∷ (ip_rate_limited, (429, "IP_RATE_LIMITED"))
    ∷ (max_sessions_exceeded, (429, "MAX_SESSIONS_EXCEEDED"))
    ∷ (slow_consumer, (429, "RESOURCE_EXHAUSTED"))
    ∷ (unavailable, (503, "UNAVAILABLE"))
    ∷ []

-- `text` is the error's own text, `err.Error()`.
module _ (text : Error → String) where
  unfoldable pub http_error_of : Error → Option (ℕ × String) → HttpError
  http_error_of e none = record { status_code = 500; code = "INTERNAL"; message = "internal error" }
  http_error_of e (some (n, c)) = record { status_code = n; code = c; message = text e }

  -- `none` is the nil error.
  unfoldable pub to_http_error : Option Error → HttpError
  unfolding http_error_of
  to_http_error none = record { status_code = 200; code = ""; message = "" }
  to_http_error (some e) = http_error_of e (first_match e http_mappings)

  unfoldable pub to_http_status_code : Option Error → ℕ
  to_http_status_code e = (to_http_error e).status_code
