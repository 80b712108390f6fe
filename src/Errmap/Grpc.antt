-- ===== src/Errmap/Grpc.antt =====
-- internal/errmap/grpc.go.
use realtime_messaging_platf.Prelude.{String, [], ◌∷◌, Option, none, some}
use realtime_messaging_platf.Domain.Errors.{
  Error, not_found, already_exists, duplicate_message, unauthorized, invalid_otp, otp_expired,
  device_mismatch, invalid_refresh_token, refresh_token_reuse, session_expired, session_revoked,
  forbidden, not_member, invalid_input, message_too_large, invalid_content_type, empty_id,
  invalid_id, invalid_phone_number, rate_limited, phone_rate_limited, ip_rate_limited,
  max_sessions_exceeded, slow_consumer, unavailable,
}
use realtime_messaging_platf.Errmap.Table.{Table, first_match}

-- The gRPC status codes that the mapping uses.
pub data Code : Type 0 where
  ok missing exists unauthenticated permission_denied invalid_argument resource_exhausted : Code
  service_unavailable internal unknown : Code

unfoldable pub grpc_mappings : Table Code
grpc_mappings =
    (not_found, missing)
    ∷ (already_exists, exists)
    ∷ (duplicate_message, exists)
    ∷ (unauthorized, unauthenticated)
    ∷ (invalid_otp, unauthenticated)
    ∷ (otp_expired, unauthenticated)
    ∷ (device_mismatch, unauthenticated)
    ∷ (invalid_refresh_token, unauthenticated)
    ∷ (refresh_token_reuse, unauthenticated)
    ∷ (session_expired, unauthenticated)
    ∷ (session_revoked, unauthenticated)
    ∷ (forbidden, permission_denied)
    ∷ (not_member, permission_denied)
    ∷ (invalid_input, invalid_argument)
    ∷ (message_too_large, invalid_argument)
    ∷ (invalid_content_type, invalid_argument)
    ∷ (empty_id, invalid_argument)
    ∷ (invalid_id, invalid_argument)
    ∷ (invalid_phone_number, invalid_argument)
    ∷ (rate_limited, resource_exhausted)
    ∷ (phone_rate_limited, resource_exhausted)
    ∷ (ip_rate_limited, resource_exhausted)
    ∷ (max_sessions_exceeded, resource_exhausted)
    ∷ (slow_consumer, resource_exhausted)
    ∷ (unavailable, service_unavailable)
    ∷ []

pub record Status : Type 0 where
  pub code : Code
  pub message : String

-- `text` is the error's own text, `err.Error()`.
module _ (text : Error → String) where
  unfoldable pub status_of : Error → Option Code → Status
  status_of e none = record { code = internal; message = "internal error" }
  status_of e (some c) = record { code = c; message = text e }

  -- `none` is the nil error.
  unfoldable pub to_grpc_status : Option Error → Status
  unfolding status_of
  to_grpc_status none = record { code = ok; message = "" }
  to_grpc_status (some e) = status_of e (first_match e grpc_mappings)
