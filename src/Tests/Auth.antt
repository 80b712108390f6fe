-- ===== src/Tests/Auth.antt =====
-- One-time passwords and access tokens.
use realtime_messaging_platf.Prelude.{◌≡◌, ◌≢◌, ◌⊎◌, refl, true, false, some, none}
use realtime_messaging_platf.Domain.Errors.{
  Error, token_expired, token_signature_invalid, token_invalid_issuer, token_invalid_audience,
}
use realtime_messaging_platf.Auth.Tokens.{
  Parsed, key_func, validate_ignore_expiry, parser_options, is_jwt, only_expired_error,
}
use realtime_messaging_platf.Auth.Tokens.Laws.{validate_ignore_expiry-ok}
use realtime_messaging_platf.Tests.Memory.{runtime, jwt_library, validator, claims, fresh}

validate_ignore_expiry-ok_example :
    (p : Parsed) × (jwt_library.parse_with_claims "access-1"
        (key_func runtime jwt_library validator)
        (parser_options runtime jwt_library validator)
        fresh
      ≡ (p, fresh))
    × (claims ≡ p.claims)
    × (claims.session_id ≢ "")
    × ((p.error ≡ none)
        ⊎ ((e : Error) × (p.error ≡ some e)
            × (p.has_token ≡ true)
            × (is_jwt e token_expired ≡ true)
            × (is_jwt e token_signature_invalid ≡ false)
            × (is_jwt e token_invalid_issuer ≡ false)
            × (is_jwt e token_invalid_audience ≡ false)))
unfolding validate_ignore_expiry only_expired_error is_jwt
validate_ignore_expiry-ok_example =
    validate_ignore_expiry-ok runtime jwt_library validator "access-1" fresh fresh claims refl
