-- ===== src/Errmap/WebSocket.antt =====
-- internal/errmap/websocket.go.
use realtime_messaging_platf.Prelude.{ℕ, String, [], ◌∷◌, Option, none, some}
use realtime_messaging_platf.Domain.Errors.{
  Error, not_found, already_exists, duplicate_message, unauthorized, invalid_otp, otp_expired,
  device_mismatch, invalid_refresh_token, refresh_token_reuse, session_expired, session_revoked,
  forbidden, not_member, invalid_input, message_too_large, invalid_content_type, empty_id,
  invalid_id, invalid_phone_number, rate_limited, phone_rate_limited, ip_rate_limited,
  max_sessions_exceeded, slow_consumer, unavailable,
}
use realtime_messaging_platf.Errmap.Table.{Table, first_match}

abbrev pub close_normal_closure : ℕ
close_normal_closure = 1000

abbrev pub close_internal_error : ℕ
close_internal_error = 1011

abbrev pub close_try_again_later : ℕ
close_try_again_later = 1013

abbrev pub close_invalid_message : ℕ
close_invalid_message = 4000

abbrev pub close_unauthorized : ℕ
close_unauthorized = 4001

abbrev pub close_forbidden : ℕ
close_forbidden = 4003

abbrev pub close_not_found : ℕ
close_not_found = 4004

abbrev pub close_already_exists : ℕ
close_already_exists = 4009

abbrev pub close_message_too_large : ℕ
close_message_too_large = 4013

abbrev pub close_rate_limited : ℕ
close_rate_limited = 4029

pub record WebSocketClose : Type 0 where
  pub code : ℕ
  pub reason : String

unfoldable pub ws_mappings : Table WebSocketClose
ws_mappings =
    (unauthorized, record { code = close_unauthorized; reason = "unauthorized" })
    ∷ (invalid_otp, record { code = close_unauthorized; reason = "invalid_otp" })
    ∷ (otp_expired, record { code = close_unauthorized; reason = "otp_expired" })
    ∷ (device_mismatch, record { code = close_unauthorized; reason = "device_mismatch" })
    ∷ (
      invalid_refresh_token,
      record { code = close_unauthorized; reason = "invalid_refresh_token" },
    )
    ∷ (refresh_token_reuse, record { code = close_unauthorized; reason = "refresh_token_reuse" })
    ∷ (session_expired, record { code = close_unauthorized; reason = "session_expired" })
    ∷ (session_revoked, record { code = close_unauthorized; reason = "session_revoked" })
    ∷ (forbidden, record { code = close_forbidden; reason = "forbidden" })
    ∷ (not_member, record { code = close_forbidden; reason = "not_a_member" })
    ∷ (not_found, record { code = close_not_found; reason = "not_found" })
    ∷ (already_exists, record { code = close_already_exists; reason = "already_exists" })
    ∷ (duplicate_message, record { code = close_already_exists; reason = "duplicate_message" })
    ∷ (invalid_input, record { code = close_invalid_message; reason = "invalid_message" })
    ∷ (empty_id, record { code = close_invalid_message; reason = "invalid_message" })
    ∷ (invalid_id, record { code = close_invalid_message; reason = "invalid_message" })
    ∷ (
      invalid_phone_number,
      record { code = close_invalid_message; reason = "invalid_phone_number" },
    )
    ∷ (message_too_large, record { code = close_message_too_large; reason = "message_too_large" })
    ∷ (
      invalid_content_type,
      record { code = close_invalid_message; reason = "invalid_content_type" },
    )
    ∷ (rate_limited, record { code = close_rate_limited; reason = "rate_limited" })
    ∷ (phone_rate_limited, record { code = close_rate_limited; reason = "phone_rate_limited" })
    ∷ (ip_rate_limited, record { code = close_rate_limited; reason = "ip_rate_limited" })
    ∷ (
      max_sessions_exceeded,
      record { code = close_rate_limited; reason = "max_sessions_exceeded" },
    )
    ∷ (slow_consumer, record { code = close_rate_limited; reason = "slow_consumer" })
    ∷ (unavailable, record { code = close_try_again_later; reason = "service_unavailable" })
    ∷ []

unfoldable pub close_of : Option WebSocketClose → WebSocketClose
close_of none = record { code = close_internal_error; reason = "internal_error" }
close_of (some c) = c

-- `none` is the nil error.
unfoldable pub to_web_socket_close : Option Error → WebSocketClose
unfolding close_of
to_web_socket_close none = record { code = close_normal_closure; reason = "normal_closure" }
to_web_socket_close (some e) = close_of (first_match e ws_mappings)
