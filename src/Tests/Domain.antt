-- ===== src/Tests/Domain.antt =====
-- Domain errors, phone numbers and the wire mappings.
use realtime_messaging_platf.Prelude.{◌≡◌, refl, true, String, [], ◌∷◌, some, codes, ◌⊎◌}
use realtime_messaging_platf.Domain.Errors.{
  Error, sentinel, plain, wrap, join, is, forbidden, invalid_phone_number, unavailable, invalid_otp,
}
use realtime_messaging_platf.Domain.Errors.Laws.{wraps}
use realtime_messaging_platf.Domain.Phone.{valid, invalid, new_phone_number}
use realtime_messaging_platf.Domain.Phone.Pattern.{Matches, e164_pattern, new_phone_number_cases}
use realtime_messaging_platf.Errmap.Table.{first_match}
use realtime_messaging_platf.Errmap.Grpc.{to_grpc_status, grpc_mappings}
use realtime_messaging_platf.Errmap.Http.{to_http_error, to_http_status_code}
use realtime_messaging_platf.Errmap.WebSocket.{to_web_socket_close}
use realtime_messaging_platf.Errmap.Agreement.{
  http_of_code, closes, to_http_status_code-to_grpc_status, internal-hides_text,
  to_web_socket_close-to_grpc_status,
}

abbrev forbidden_error : Error
forbidden_error = wrap "join chat" (sentinel forbidden)

abbrev redis_error : Error
redis_error = wrap "check phone rate limit" (join (plain "redis: timeout") (sentinel unavailable))

abbrev text : Error → String
text e = "…"

to_http_status_code-to_grpc_status_example :
    to_http_status_code text (some redis_error)
    ≡ http_of_code (to_grpc_status text (some redis_error)).code
unfolding is
to_http_status_code-to_grpc_status_example =
    to_http_status_code-to_grpc_status text redis_error refl

internal-hides_text_example :
    ((to_grpc_status text (some (plain "disk full"))).message ≡ "internal error")
    × (to_http_error text (some (plain "disk full"))
        ≡ record { status_code = 500; code = "INTERNAL"; message = "internal error" })
    × (to_web_socket_close (some (plain "disk full"))
        ≡ record { code = 1011; reason = "internal_error" })
unfolding to_grpc_status grpc_mappings first_match is
internal-hides_text_example = internal-hides_text text (plain "disk full") refl

to_web_socket_close-to_grpc_status_example :
    closes
      (to_grpc_status text (some (wraps ("a" ∷ "b" ∷ []) (sentinel invalid_otp)))).code
      (to_web_socket_close (some (wraps ("a" ∷ "b" ∷ []) (sentinel invalid_otp)))).code
    ≡ true
to_web_socket_close-to_grpc_status_example =
    to_web_socket_close-to_grpc_status text ("a" ∷ "b" ∷ []) invalid_otp

abbrev caller : String
caller = "+14155550123"

new_phone_number_cases_example :
    (Matches e164_pattern (codes caller)
      × (new_phone_number caller ≡ valid (record { value = caller })))
    ⊎ ((¬ Matches e164_pattern (codes caller))
        × ((e : Error) × (new_phone_number caller ≡ invalid e)
            × (is e invalid_phone_number ≡ true)))
new_phone_number_cases_example = new_phone_number_cases caller
