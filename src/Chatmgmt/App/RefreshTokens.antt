-- ===== src/Chatmgmt/App/RefreshTokens.antt =====
-- internal/chatmgmt/app/auth_refresh.go.
pub mod Outcomes
pub mod Replay
pub mod Race
use realtime_messaging_platf.Prelude.{
  ℕ, ◌+◌, Bool, true, false, not, ◌&&◌, ltb, String, str_eq, if◌then◌else◌,
}
use realtime_messaging_platf.Domain.Constants.{refresh_token_lifetime}
use realtime_messaging_platf.Domain.Errors.{
  Error, sentinel, join, wrap, is, unauthorized, not_found, session_revoked, device_mismatch,
  session_expired, refresh_token_reuse, invalid_refresh_token,
}
use realtime_messaging_platf.Effect.{
  Result, ok, err, Action, pure, fail, label, call, attempt, ◌>>=◌, ◌>>◌,
}
use realtime_messaging_platf.Auth.Runtime.{unix}
use realtime_messaging_platf.Auth.Refresh.{
  generate_refresh_token, hash_refresh_token, validate_refresh_hash,
}
use realtime_messaging_platf.Auth.Tokens.{Claims, mint_access_token, validate_ignore_expiry}
use realtime_messaging_platf.Chatmgmt.App.{AuthService, SessionRecord, SessionUpdate, RefreshResult}

-- `fmt.Errorf("%w: %w", domain.ErrUnauthorized, err)`.
abbrev pub unauthorized_by : {A : Type 0} → Result A → Result A
unauthorized_by (ok a) = ok a
unauthorized_by (err e) = err (join (sentinel unauthorized) e)

session_or_revoked : Result SessionRecord → Result SessionRecord
session_or_revoked (ok session) = ok session
session_or_revoked (err e) =
    if is e not_found then err (sentinel session_revoked) else err (wrap "get session" e)

module _ {W K P : Type 0} (s : AuthService W K P) where
  session_update : SessionRecord → String → ℕ → SessionUpdate
  session_update session new_hash new_expiry = record {
    refresh_token_hash = new_hash;
    prev_token_hash = session.refresh_token_hash;
    expires_at = s.runtime.format_rfc3339 new_expiry;
    token_generation = session.token_generation + 1;
    ttl = unix new_expiry;
  }

  unfoldable pub rotate_refresh_token : String → String → SessionRecord → Action W RefreshResult
  unfolding session_update
  rotate_refresh_token user_id session_id session = do
    new_refresh ← label "generate refresh token" (generate_refresh_token s.runtime)
    now ← call s.runtime.now
    label "update session" (
        s.session_store.update session_id (
          session_update session (hash_refresh_token s.runtime new_refresh)
            (now + refresh_token_lifetime)))
    minted ←
        label "mint access token"
          (mint_access_token s.runtime s.jwt_library s.minter user_id session_id)
    pure (record {
      access_token = minted.token;
      refresh_token = new_refresh;
      access_token_expiry = minted.expires_at;
    })

  -- Failures to delete and to revoke are logged.
  reuse_detected : Claims → Action W RefreshResult
  reuse_detected claims = do
    attempt (s.session_store.delete claims.session_id)
    attempt (s.revocation_store.revoke claims.id)
    fail (sentinel refresh_token_reuse)

  -- Steps 5 and 6.
  check_refresh_token : Claims → SessionRecord → String → Action W RefreshResult
  unfolding reuse_detected
  check_refresh_token claims session refresh_token =
      if validate_refresh_hash s.runtime refresh_token session.refresh_token_hash
      then rotate_refresh_token claims.subject claims.session_id session
      else if not (str_eq session.prev_token_hash "")
          && validate_refresh_hash s.runtime refresh_token session.prev_token_hash
      then reuse_detected claims
      else fail (sentinel invalid_refresh_token)

  -- Steps 3 and 4.
  unfoldable pub check_session : Claims → SessionRecord → String → String → Action W RefreshResult
  unfolding check_refresh_token
  check_session claims session refresh_token device_id =
      if not (str_eq session.device_id device_id) then fail (sentinel device_mismatch) else do
        session_expiry ←
            label "parse session expiry" (λ w. (s.runtime.parse_rfc3339 session.expires_at, w))
        now ← call s.runtime.now
        if ltb session_expiry now
            then fail (sentinel session_expired)
            else check_refresh_token claims session refresh_token

  -- Steps 1 and 2: the claims of the access token, and its session.
  unfoldable pub token_claims : String → Action W Claims
  token_claims access_token w =
      let (r, w') = validate_ignore_expiry s.runtime s.jwt_library s.validator access_token w in
      (unauthorized_by r, w')

  unfoldable pub token_session : Claims → Action W SessionRecord
  unfolding session_or_revoked
  token_session claims w =
      let (r, w') = s.session_store.get_by_id claims.session_id w in (session_or_revoked r, w')

  unfoldable pub refresh_tokens : String → String → String → Action W RefreshResult
  unfolding check_session
  refresh_tokens access_token refresh_token device_id = do
    claims ← token_claims access_token
    session ← token_session claims
    check_session claims session refresh_token device_id
