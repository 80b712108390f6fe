-- ===== src/Chatmgmt/App/RefreshTokens/Outcomes.antt =====
-- Each answer of the refresh flow, and what was done before it.
use realtime_messaging_platf.Prelude.{
  ℕ, ◌≡◌, ◌≢◌, true, String, str_eq, eq_iff, arith, if◌then◌else◌, ltb, not, ◌&&◌,
}
use realtime_messaging_platf.Domain.Errors.{
  Error, sentinel, is, session_revoked, device_mismatch, session_expired, refresh_token_reuse,
  invalid_refresh_token, not_found,
}
use realtime_messaging_platf.Effect.{ok, err}
use realtime_messaging_platf.Auth.Refresh.{validate_refresh_hash}
use realtime_messaging_platf.Auth.Tokens.{Claims, validate_ignore_expiry}
use realtime_messaging_platf.Chatmgmt.App.{AuthService, SessionRecord}
use realtime_messaging_platf.Chatmgmt.App.RefreshTokens.{
  token_claims, token_session, refresh_tokens, rotate_refresh_token,
}

module _ {W K P : Type 0} (s : AuthService W K P) where
  -- With a valid access token whose session is not in the table, a refresh ends with
  -- ErrSessionRevoked, and nothing but the lookups was called.
  pub refresh_tokens-no_session :
      (access refresh device : String) (w w1 w2 : W) (claims : Claims) (e : Error)
      → validate_ignore_expiry s.runtime s.jwt_library s.validator access w ≡ (ok claims, w1)
      → s.session_store.get_by_id claims.session_id w1 ≡ (err e, w2)
      → is e not_found ≡ true
      → refresh_tokens s access refresh device w ≡ (err (sentinel session_revoked), w2)
  unfolding refresh_tokens token_claims token_session
  refresh_tokens-no_session access refresh device w w1 w2 claims e v g n = ground arith

  module _ (access refresh : String) (w w1 w2 : W) (claims : Claims) (session : SessionRecord)
      (valid : validate_ignore_expiry s.runtime s.jwt_library s.validator access w
        ≡ (ok claims, w1))
      (found : s.session_store.get_by_id claims.session_id w1 ≡ (ok session, w2)) where
    -- A refresh from a device that the session is not bound to ends with ErrDeviceMismatch, with no
    -- call after the lookups.
    pub refresh_tokens-device_mismatch :
        (device : String)
        → session.device_id ≢ device
        → refresh_tokens s access refresh device w ≡ (err (sentinel device_mismatch), w2)
    unfolding refresh_tokens token_claims token_session
    refresh_tokens-device_mismatch device d = ground (arith, eq_iff session.device_id device)

    -- On the device of the session, the clock and the two token hashes decide: after the expiry
    -- ErrSessionExpired; the current token rotates; the previous token, if there is one, deletes
    -- the session and revokes the access token's id, whether or not these succeed, and ends with
    -- ErrRefreshTokenReuse; any other token ends with ErrInvalidRefreshToken.
    pub refresh_tokens-decides :
        (w3 : W) (expires_at now : ℕ)
        → s.runtime.parse_rfc3339 session.expires_at ≡ ok expires_at
        → s.runtime.now w2 ≡ (now, w3)
        → refresh_tokens s access refresh session.device_id w ≡ (
            if ltb expires_at now
            then (err (sentinel session_expired), w3)
            else if validate_refresh_hash s.runtime refresh session.refresh_token_hash
            then rotate_refresh_token s claims.subject claims.session_id session w3
            else if not (str_eq session.prev_token_hash "")
                && validate_refresh_hash s.runtime refresh session.prev_token_hash
            then (
              err (sentinel refresh_token_reuse),
              (s.revocation_store.revoke claims.id
                  (s.session_store.delete claims.session_id w3).1).1,
            )
            else (err (sentinel invalid_refresh_token), w3))
    unfolding refresh_tokens token_claims token_session
    refresh_tokens-decides w3 expires_at now p n =
        ground (arith, eq_iff session.device_id session.device_id)
