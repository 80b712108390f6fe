-- ===== src/Tests/Rotated.antt =====
-- A refresh over a table of sessions in memory.
use realtime_messaging_platf.Prelude.{◌+◌, ◌≡◌, refl}
use realtime_messaging_platf.Effect.{Result, ok}
use realtime_messaging_platf.Auth.Runtime.{unix}
use realtime_messaging_platf.Auth.Refresh.{validate_refresh_hash, generate_refresh_token}
use realtime_messaging_platf.Auth.Tokens.{
  validate_ignore_expiry, only_expired_error, is_jwt, mint_access_token,
}
use realtime_messaging_platf.Chatmgmt.App.{SessionRecord, RefreshResult}
use realtime_messaging_platf.Chatmgmt.App.RefreshTokens.{
  refresh_tokens, check_session, token_claims, token_session, rotate_refresh_token,
}
use realtime_messaging_platf.Chatmgmt.Adapter.Sessions.{
  session_of, get_by_id, update, session_store, session_request, update_request, from_session_item,
}
use realtime_messaging_platf.Chatmgmt.Adapter.Sessions.Rotated.{
  Aside, stored_service, refresh_tokens-get_by_id,
}
use realtime_messaging_platf.Tests.Memory.{claims}
use realtime_messaging_platf.Tests.OneTable.{
  Table, strokes, codec, db, item_of, table, runtime, service, one_session,
}

abbrev aside : Aside service db codec strokes "sessions" table
aside = record {
  read_keeps = λ n w. refl;
  now_keeps = λ w. refl;
  uuid_keeps = λ w. refl;
  key_keeps = λ w. refl;
  sign_keeps = λ k kid c w. refl;
}

abbrev refreshed : Result RefreshResult × Table
refreshed =
    refresh_tokens (stored_service service db codec strokes "sessions" table aside) "access-1"
      "r-old" "d-1" one_session

abbrev refresh_result : RefreshResult
refresh_result = record {
  access_token = "access-new";
  refresh_token = "r-new";
  access_token_expiry = 3607;
}

refresh_tokens-get_by_id_example :
    (before after : SessionRecord) × (session_of runtime db codec strokes "sessions"
        (one_session "s-1")
      ≡ ok before)
    × (get_by_id runtime db codec strokes "sessions" "s-1" refreshed.1 ≡ (ok after, refreshed.1))
    × (after.device_id ≡ "d-1")
    × (after.refresh_token_hash ≡ "r-new")
    × (after.prev_token_hash ≡ "r-old")
    × (after.token_generation ≡ before.token_generation + 1)
unfolding refresh_tokens check_session validate_ignore_expiry only_expired_error is_jwt token_claims
    token_session validate_refresh_hash rotate_refresh_token generate_refresh_token
    mint_access_token unix get_by_id session_request session_of update update_request session_store
    db item_of codec from_session_item table
refresh_tokens-get_by_id_example =
    refresh_tokens-get_by_id service db codec strokes "sessions" table aside "access-1" "r-old"
      "d-1" one_session one_session refreshed.1 refreshed.1 claims refresh_result
      (refreshed.1 "s-1") refl refl refl
