-- ===== src/Tests/Port.antt =====
-- The handler with fixed headers.
use realtime_messaging_platf.Prelude.{
  ◌≡◌, refl, none, some, String, str_eq, List, [], ◌∷◌, if◌then◌else◌,
}
use realtime_messaging_platf.Domain.Errors.{Error, sentinel, session_revoked, unauthorized}
use realtime_messaging_platf.Effect.{err}
use realtime_messaging_platf.Errmap.Grpc.{to_grpc_status}
use realtime_messaging_platf.Chatmgmt.Port.{
  Context, AuthFlows, failure, handle_refresh_tokens, handle_logout,
}
use realtime_messaging_platf.Chatmgmt.Port.Requests.{handle_refresh_tokens-failure}
use realtime_messaging_platf.Tests.Memory.{World, runtime, fresh}

abbrev headers : String → List String
headers key =
    if str_eq key "authorization"
    then "Bearer abc" ∷ []
    else if str_eq key "x-device-id"
    then "d-1" ∷ []
    else []

abbrev with_headers : Context
with_headers = record { metadata = some headers; peer = none }

abbrev from_peer : Context
from_peer = record { metadata = none; peer = some "127.0.0.1:54321" }

abbrev text : Error → String
text e = "error"

abbrev flows : AuthFlows World
flows = record {
  request_otp = λ phone ip w. (err (sentinel unauthorized), w);
  verify_otp = λ phone otp device w. (err (sentinel unauthorized), w);
  refresh_tokens = λ access refresh device w. (err (sentinel session_revoked), w);
  logout = λ access w. (err (sentinel unauthorized), w);
}

handle_refresh_tokens-failure_example :
    (handle_refresh_tokens runtime text flows with_headers "r" fresh
      ≡ (failure (to_grpc_status text (some (sentinel session_revoked))), fresh))
    × (handle_logout runtime text flows with_headers fresh
        ≡ (failure (to_grpc_status text (some (sentinel unauthorized))), fresh))
handle_refresh_tokens-failure_example =
    handle_refresh_tokens-failure runtime text flows with_headers headers "abc" "d-1" "r" [] []
      fresh fresh fresh fresh (sentinel session_revoked) (sentinel unauthorized) refl refl refl refl
      refl
