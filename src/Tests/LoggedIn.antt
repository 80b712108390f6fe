-- ===== src/Tests/LoggedIn.antt =====
-- A login over a table of sessions in memory, and the refresh after it.
use realtime_messaging_platf.Prelude.{
  ◌≡◌, refl, ap, sym, ◌∙◌, false, String, eq_refl, some, none, [], ◌∷◌, arith, lookup,
}
use realtime_messaging_platf.Domain.Errors.{plain}
use realtime_messaging_platf.Effect.{Result, ok, err}
use realtime_messaging_platf.Auth.Runtime.{Runtime, unix}
use realtime_messaging_platf.Auth.Refresh.{generate_refresh_token, hash_refresh_token}
use realtime_messaging_platf.Auth.Tokens.{
  validate_ignore_expiry, only_expired_error, is_jwt, mint_access_token,
}
use realtime_messaging_platf.Dynamo.{
  AttributeMap, text, UpdateItemInput, PutItemInput, update_item, put_item,
}
use realtime_messaging_platf.Chatmgmt.App.{AuthService, SessionRecord, VerifyOtpResult}
use realtime_messaging_platf.Chatmgmt.App.Login.{create_login_session}
use realtime_messaging_platf.Chatmgmt.App.RefreshTokens.{refresh_tokens, rotate_refresh_token}
use realtime_messaging_platf.Chatmgmt.Adapter.Transactor.{
  Transactor, auth_transactor, verify_otp_and_create_session, classify_tx_error,
}
use realtime_messaging_platf.Chatmgmt.Adapter.Sessions.{SessionItem, get_by_id, session_request}
use realtime_messaging_platf.Chatmgmt.Adapter.Sessions.Rotated.{Aside}
use realtime_messaging_platf.Chatmgmt.Adapter.Sessions.LoggedIn
use realtime_messaging_platf.Chatmgmt.Adapter.Sessions.LoggedIn.{
  LoginTable, transacting, refresh_tokens-logged_in,
}
use realtime_messaging_platf.Tests.OneTable
use realtime_messaging_platf.Tests.OneTable.{
  Table, attributes, strokes, count, count-strokes, codec, db, table, item_of, text_at, put_all,
}
use realtime_messaging_platf.Tests.Handover.{code, user}
use realtime_messaging_platf.Tests.Memory.{claims}

abbrev runtime : Runtime Table
runtime = record OneTable.runtime { new_uuid = λ w. ("s-1", w) }

abbrev transactor : Transactor Table
transactor = record {
  db = db;
  otp_table = "otp_requests";
  users_table = "users";
  sessions_table = "sessions";
  user_codec = record { marshal_map = λ u. ok []; unmarshal_map = λ m. err (plain "unused") };
  session_codec = codec;
}

put-ok :
    (update : UpdateItemInput) (put : PutItemInput) (w w' : Table) (id : String)
    → lookup "session_id" put.item ≡ some (text id)
    → db.transact_write_items (update_item update ∷ put_item put ∷ []) w ≡ (ok tt, w')
    → w' id ≡ some put.item
unfolding lookup db
put-ok update put w w' id key e =
    ap (λ (x : Result Unit × Table). x.1 id) (sym e) ∙ rw key (rw (eq_refl id) refl)

marshals :
    (r : SessionItem)
    → (m : AttributeMap) × (codec.marshal_map r ≡ ok m)
      × (codec.unmarshal_map m ≡ ok r)
      × (lookup "session_id" m ≡ some (text r.session_id))
unfolding lookup codec item_of
marshals r =
    (attributes r, refl, rw (count-strokes r.token_generation, count-strokes r.ttl) refl, refl)

abbrev login_table : LoginTable transactor strokes table
unfolding table db lookup
login_table = record {
  put_ok = λ update put w w' id named key e. put-ok update put w w' id key e;
  marshals = marshals;
}

abbrev service : AuthService Table Unit Unit
service = record OneTable.service { runtime = runtime }

abbrev aside :
    Aside
      (transacting service transactor strokes table login_table)
      db
      codec
      strokes
      "sessions"
      table
unfolding table db lookup
aside = record {
  read_keeps = λ n w. refl;
  now_keeps = λ w. refl;
  uuid_keeps = λ w. refl;
  key_keeps = λ w. refl;
  sign_keeps = λ k kid c w. refl;
}

abbrev whole : AuthService Table Unit Unit
whole = LoggedIn.service service transactor strokes table login_table aside

abbrev logged_in : Table
logged_in = (create_login_session whole "h" code user "d-1" (λ id. none)).1

abbrev login : VerifyOtpResult
login = record {
  user = user;
  session_id = "s-1";
  access_token = "access-new";
  refresh_token = "r-new";
  is_new_user = false;
  access_token_expiry = 3607;
}

refresh_tokens-logged_in_example :
    (session : SessionRecord) × (get_by_id runtime db codec strokes "sessions" "s-1" logged_in
      ≡ (ok session, logged_in))
    × (session.device_id ≡ "d-1")
    × (refresh_tokens whole "access-1" "r-new" "d-1" logged_in
        ≡ rotate_refresh_token whole "u-1" "s-1" session logged_in)
unfolding create_login_session generate_refresh_token hash_refresh_token unix mint_access_token
    validate_ignore_expiry only_expired_error is_jwt auth_transactor verify_otp_and_create_session
    classify_tx_error lookup session_request table db
refresh_tokens-logged_in_example =
    refresh_tokens-logged_in service transactor strokes table login_table aside "h" code user "d-1"
      (λ id. none) logged_in login "access-1" logged_in logged_in logged_in logged_in claims
      (logged_in "s-1") 7 1000 refl refl refl refl refl refl refl (omega arith)
