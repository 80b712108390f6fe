-- ===== src/Domain/Errors.antt =====
-- internal/domain/errors.go, and the Go error values that the rest of the program builds.
-- An error is a tree: a leaf, a text wrapped round another (`fmt.Errorf("…: %w", …)`, of which
-- the format string is kept), or two errors joined (`errors.Join`, and `%w: %w`).
pub mod Laws
use realtime_messaging_platf.Prelude.{
  ℕ, Bool, true, false, ◌||◌, ◌==◌, String, List, [], ◌∷◌, if◌then◌else◌,
}

-- The package's error variables, in their order.
pub data Sentinel : Type 0 where
  empty_id invalid_id not_found already_exists unauthorized forbidden not_member : Sentinel
  invalid_input message_too_large invalid_content_type : Sentinel
  rate_limited unavailable slow_consumer duplicate_message : Sentinel
  invalid_otp otp_expired device_mismatch invalid_refresh_token refresh_token_reuse : Sentinel
  session_expired session_revoked max_sessions_exceeded : Sentinel
  phone_rate_limited ip_rate_limited invalid_phone_number config_required : Sentinel

-- The identity of an error variable.
unfoldable pub index : Sentinel → ℕ
index empty_id = 0
index invalid_id = 1
index not_found = 2
index already_exists = 3
index unauthorized = 4
index forbidden = 5
index not_member = 6
index invalid_input = 7
index message_too_large = 8
index invalid_content_type = 9
index rate_limited = 10
index unavailable = 11
index slow_consumer = 12
index duplicate_message = 13
index invalid_otp = 14
index otp_expired = 15
index device_mismatch = 16
index invalid_refresh_token = 17
index refresh_token_reuse = 18
index session_expired = 19
index session_revoked = 20
index max_sessions_exceeded = 21
index phone_rate_limited = 22
index ip_rate_limited = 23
index invalid_phone_number = 24
index config_required = 25

-- The error variables of the JWT library that the validator tells apart.
pub data JwtError : Type 0 where
  token_expired token_malformed token_unverifiable token_signature_invalid : JwtError
  token_not_valid_yet token_invalid_audience token_invalid_issuer : JwtError
  token_required_claim_missing token_used_before_issued : JwtError

pub data Error : Type 0 where
  sentinel : Sentinel → Error
  jwt : JwtError → Error
  conditional_check_failed : Error
  transaction_canceled : List String → Error
  plain : String → Error
  wrap : String → Error → Error
  join : Error → Error → Error

-- errors.Is at a domain error.
unfoldable pub is : Error → Sentinel → Bool
unfolding index
is (sentinel s) t = index s == index t
is (wrap _ e) t = is e t
is (join a b) t = is a t || is b t
is (jwt _) t = false
is conditional_check_failed t = false
is (transaction_canceled _) t = false
is (plain _) t = false

unfoldable pub is_retryable : Error → Bool
is_retryable e =
    is e unavailable
    || (is e rate_limited
        || (is e phone_rate_limited || (is e ip_rate_limited || is e max_sessions_exceeded)))

abbrev pub client_errors : List Sentinel
client_errors =
    invalid_input ∷ message_too_large ∷ invalid_content_type ∷ not_found ∷ not_member ∷ forbidden
    ∷ unauthorized ∷ empty_id ∷ invalid_id ∷ invalid_otp ∷ otp_expired ∷ device_mismatch
    ∷ invalid_refresh_token ∷ refresh_token_reuse ∷ session_expired ∷ session_revoked
    ∷ invalid_phone_number ∷ []

-- The loop of IsClientError, which returns at the first match.
unfoldable pub is_any : Error → List Sentinel → Bool
is_any e [] = false
is_any e (target ∷ rest) = if is e target then true else is_any e rest

unfoldable pub is_client_error : Error → Bool
unfolding is_any
is_client_error e = is_any e client_errors

unfoldable pub is_permission_denied : Error → Bool
is_permission_denied e = is e forbidden || (is e not_member || is e unauthorized)

unfoldable pub is_not_found : Error → Bool
is_not_found e = is e not_found
