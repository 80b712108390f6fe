-- ===== src/Chatmgmt/App/Login.antt =====
-- internal/chatmgmt/app/auth_verify_otp.go: login of an existing user.
pub mod Evictions
pub mod Handover
pub mod Limit
use realtime_messaging_platf.Prelude.{
  ℕ, ◌+◌, ◌-◌, Bool, true, false, not, ltb, String, str_eq, str_ltb, List, [], ◌∷◌, length, take,
  filter, if◌then◌else◌,
}
use realtime_messaging_platf.Domain.Constants.{max_sessions_per_user, refresh_token_lifetime}
use realtime_messaging_platf.Effect.{ok, err, Action, pure, label, call, ◌>>=◌, ◌>>◌}
use realtime_messaging_platf.Auth.Runtime.{unix}
use realtime_messaging_platf.Auth.Refresh.{generate_refresh_token, hash_refresh_token}
use realtime_messaging_platf.Auth.Tokens.{mint_access_token}
use realtime_messaging_platf.Chatmgmt.App.{
  AuthService, OtpRecord, UserRecord, SessionRecord, LoginParams, VerifyOtpResult,
}

unfoldable pub older : SessionRecord → SessionRecord → Bool
older a b = str_ltb a.created_at b.created_at

abbrev pub active_sessions : List SessionRecord → String → List SessionRecord
active_sessions sessions device_id = filter (λ sess. not (str_eq sess.device_id device_id)) sessions

module _ {W K P : Type 0} (s : AuthService W K P) where
  unfoldable pub evict_conflicting_sessions : List SessionRecord → String → Action W Unit
  evict_conflicting_sessions [] device_id = pure tt
  evict_conflicting_sessions (sess ∷ rest) device_id =
      let others = evict_conflicting_sessions rest device_id in
      if str_eq sess.device_id device_id
      then (do
        label "delete replaced session" (s.session_store.delete sess.session_id)
        label "revoke replaced session" (s.revocation_store.revoke sess.session_id)
        others)
      else others

  -- The loop over the first sessions of the sorted list.
  unfoldable pub evict_each : List SessionRecord → Action W Unit
  evict_each [] = pure tt
  evict_each (sess ∷ rest) = do
    label "delete evicted session" (s.session_store.delete sess.session_id)
    label "revoke evicted session" (s.revocation_store.revoke sess.session_id)
    evict_each rest

  -- The sessions that make room for one more, of a list that is at the limit or over it.
  unfoldable pub oldest_sessions : List SessionRecord → List SessionRecord
  oldest_sessions active =
      take (length active - max_sessions_per_user + 1) (s.sort_slice older active)

  unfoldable pub enforce_session_limit : List SessionRecord → String → Action W Unit
  unfolding oldest_sessions
  enforce_session_limit sessions device_id =
      if ltb (length (active_sessions sessions device_id)) max_sessions_per_user
      then pure tt
      else evict_each (oldest_sessions (active_sessions sessions device_id))

  login_params : String → OtpRecord → UserRecord → String → String → ℕ → String → LoginParams
  login_params phone_hash record' user device_id session_id now refresh_hash = record {
    phone_hash = phone_hash;
    otp_expires_at = record'.expires_at;
    otp_mac = record'.otp_mac;
    session_id = session_id;
    user_id = user.user_id;
    device_id = device_id;
    refresh_token_hash = refresh_hash;
    created_at = s.runtime.format_rfc3339 now;
    session_expires_at = s.runtime.format_rfc3339 (now + refresh_token_lifetime);
    session_ttl = unix (now + refresh_token_lifetime);
  }

  unfoldable pub create_login_session :
      String → OtpRecord → UserRecord → String → Action W VerifyOtpResult
  unfolding login_params
  create_login_session phone_hash record' user device_id = do
    session_id ← call s.runtime.new_uuid
    now ← call s.runtime.now
    refresh_token ← label "generate refresh token" (generate_refresh_token s.runtime)
    label "create login session" (
        s.transactor.verify_otp_and_create_session (
          login_params phone_hash record' user device_id session_id now
            (hash_refresh_token s.runtime refresh_token)))
    minted ←
        label "mint access token"
          (mint_access_token s.runtime s.jwt_library s.minter user.user_id session_id)
    pure (record {
      user = user;
      session_id = session_id;
      access_token = minted.token;
      refresh_token = refresh_token;
      is_new_user = false;
      access_token_expiry = minted.expires_at;
    })

  unfoldable pub verify_otp_existing_user :
      String → OtpRecord → UserRecord → String → Action W VerifyOtpResult
  verify_otp_existing_user phone_hash record' user device_id = do
    sessions ← label "list sessions" (s.session_store.list_by_user user.user_id)
    evict_conflicting_sessions sessions device_id
    enforce_session_limit sessions device_id
    create_login_session phone_hash record' user device_id
