-- ===== src/Tests/Refresh.antt =====
-- The refresh and the logout flows in the small world.
use realtime_messaging_platf.Prelude.{
  ◌≡◌, ◌≢◌, refl, String, str_eq, none, some, arith, eq_iff, if◌then◌else◌,
}
use realtime_messaging_platf.Domain.Errors.{sentinel, refresh_token_reuse}
use realtime_messaging_platf.Effect.{Result, err}
use realtime_messaging_platf.Auth.Runtime.{unix}
use realtime_messaging_platf.Auth.Refresh.{validate_refresh_hash, generate_refresh_token}
use realtime_messaging_platf.Auth.Tokens.{
  validate_ignore_expiry, is_jwt, only_expired_error, mint_access_token,
}
use realtime_messaging_platf.Chatmgmt.App.{SessionRecord, RefreshResult}
use realtime_messaging_platf.Chatmgmt.App.RefreshTokens.{
  refresh_tokens, rotate_refresh_token, token_claims, token_session,
}
use realtime_messaging_platf.Chatmgmt.App.RefreshTokens.Replay.{refresh_tokens-replay}
use realtime_messaging_platf.Tests.Memory.{World, service, fresh, claims, session_store}
use realtime_messaging_platf.Tests.Contracts.{rotation_contract}

abbrev pub session : SessionRecord
session = record {
  session_id = "s-1";
  user_id = "u-1";
  device_id = "d-1";
  refresh_token_hash = "r-old";
  prev_token_hash = "";
  created_at = "2026-01-01T00:00:00Z";
  expires_at = "2026-01-31T00:00:00Z";
  token_generation = 1;
  ttl = 0;
}

abbrev pub with_session : World
with_session = record fresh { sessions = λ id. if str_eq "s-1" id then some session else none }

abbrev refreshed : Result RefreshResult × World
refreshed = refresh_tokens service "access-1" "r-old" "d-1" with_session

abbrev refresh_result : RefreshResult
refresh_result = record {
  access_token = "access-new";
  refresh_token = "r-new";
  access_token_expiry = 3607;
}

abbrev rotated_row : SessionRecord
rotated_row = record session {
  refresh_token_hash = "r-new";
  prev_token_hash = "r-old";
  expires_at = "2026-01-01T00:00:00Z";
  token_generation = 2;
  ttl = 2592000;
}

old_not_empty : ◌≢◌ {A = String} "r-old" ""
old_not_empty = ground (arith, eq_iff "r-old" "")

old_not_new : ◌≢◌ {A = String} "r-old" "r-new"
old_not_new = ground (arith, eq_iff "r-old" "r-new")

other_device : ◌≢◌ {A = String} "d-1" "d-2"
other_device = ground (arith, eq_iff "d-1" "d-2")

refresh_tokens-replay_example : refresh_tokens service "access-2" "r-old" "d-1" refreshed.1 ≡ (
  err (sentinel refresh_token_reuse),
  (service.revocation_store.revoke "jti-1" (session_store.delete "s-1" refreshed.1).1).1,
)
unfolding refresh_tokens validate_ignore_expiry only_expired_error is_jwt token_claims token_session
    validate_refresh_hash rotate_refresh_token generate_refresh_token mint_access_token unix
refresh_tokens-replay_example =
    refresh_tokens-replay service rotation_contract "access-1" "access-2" "r-old" "d-1" with_session
      with_session refreshed.1 refreshed.1 refreshed.1 refreshed.1 refreshed.1 claims claims
      refresh_result rotated_row 1000 7 refl refl refl refl refl refl refl refl (omega arith)
      old_not_empty old_not_new
