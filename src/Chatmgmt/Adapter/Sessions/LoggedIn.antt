-- ===== src/Chatmgmt/Adapter/Sessions/LoggedIn.antt =====
-- A login and the refresh after it, with the sessions and the transactions in DynamoDB.
use realtime_messaging_platf.Prelude.{
  ℕ, ◌+◌, ◌≤◌, ◌≡◌, refl, ap, ◌∙◌, String, Option, some, arith, lookup, [], ◌∷◌,
}
use realtime_messaging_platf.Domain.Constants.{refresh_token_lifetime}
use realtime_messaging_platf.Effect.{Result, ok}
use realtime_messaging_platf.Auth.Refresh.{refresh_token_bytes}
use realtime_messaging_platf.Auth.Tokens.{Claims, validate_ignore_expiry}
use realtime_messaging_platf.Dynamo.{
  AttributeMap, text, UpdateItemInput, PutItemInput, update_item, put_item,
}
use realtime_messaging_platf.Chatmgmt.App.{
  AuthService, OtpRecord, UserRecord, SessionRecord, LoginParams, VerifyOtpResult,
}
use realtime_messaging_platf.Chatmgmt.App.Login.{create_login_session}
use realtime_messaging_platf.Chatmgmt.App.Login.Handover.{
  session_row, LoginContract, refresh_tokens-create_login_session, create_login_session-LoggedIn,
}
use realtime_messaging_platf.Chatmgmt.App.RefreshTokens.{refresh_tokens, rotate_refresh_token}
use realtime_messaging_platf.Chatmgmt.Adapter.Transactor.{
  Transactor, item_of, classified-ok, build_otp_verify_update, build_session_put, login_items,
  verify_otp_and_create_session, auth_transactor,
}
use realtime_messaging_platf.Chatmgmt.Adapter.Sessions.{
  SessionItem, to_session_item, from_session_item, session_of, session_request, get_by_id,
  session_store,
}
use realtime_messaging_platf.Chatmgmt.Adapter.Sessions.Stored.{
  SessionTable, option_of, row, get_by_id_of_row,
}
use realtime_messaging_platf.Chatmgmt.Adapter.Sessions.Rotated.{
  Aside, stored_service, rotation_contract,
}

-- What the transactions rely on: one that is carried out has put the item, and a struct that they
-- write can be written and is read back as it was.
pub record LoginTable {W : Type 0} (tr : Transactor W) (format_int : ℕ → String)
    (t : SessionTable tr.db tr.session_codec format_int tr.sessions_table) : Type 0 where
  pub put_ok :
      (update : UpdateItemInput) (put : PutItemInput) (w w' : W) (id : String)
      → put.table_name ≡ tr.sessions_table
      → lookup "session_id" put.item ≡ some (text id)
      → tr.db.transact_write_items (update_item update ∷ put_item put ∷ []) w ≡ (ok tt, w')
      → t.item_at w' id ≡ some put.item
  pub marshals :
      (item : SessionItem)
      → (m : AttributeMap) × (tr.session_codec.marshal_map item ≡ ok m)
        × (tr.session_codec.unmarshal_map m ≡ ok item)
        × (lookup "session_id" m ≡ some (text item.session_id))

module _ {W K P : Type 0} (s0 : AuthService W K P) (tr : Transactor W) (format_int : ℕ → String)
    (t : SessionTable tr.db tr.session_codec format_int tr.sessions_table)
    (l : LoginTable tr format_int t) where
  verify_otp_and_create_session-row :
      (p : LoginParams) (w w' : W)
      → verify_otp_and_create_session tr p w ≡ (ok tt, w')
      → row s0.runtime tr.db tr.session_codec format_int tr.sessions_table t w' p.session_id
        ≡ some (session_row p)
  unfolding verify_otp_and_create_session login_items build_otp_verify_update build_session_put
      session_of from_session_item to_session_item
  verify_otp_and_create_session-row p w w' h =
      let (m, written, read, key) = l.marshals (to_session_item (session_row p)) in
      let (r, w1) = tr.db.transact_write_items (login_items tr p) w in
      let done : tr.db.transact_write_items (login_items tr p) w ≡ (ok tt, w') =
        ground (arith, classified-ok "verify otp and create session" r) in
      let made = ap (λ (x : Result AttributeMap). lookup "session_id" (item_of x)) written ∙ key in
      let at = l.put_ok _ _ w w' p.session_id refl made done in
      let stored : t.item_at w' p.session_id ≡ some m =
        at ∙ ap (λ (x : Result AttributeMap). some (item_of x)) written in
      ground (arith, stored, read)

  -- The service with the transactions in DynamoDB too.
  abbrev pub transacting : AuthService W K P
  transacting = record s0 { transactor = auth_transactor tr }

  module _ (a : Aside transacting tr.db tr.session_codec format_int tr.sessions_table t) where
    abbrev pub service : AuthService W K P
    service = stored_service transacting tr.db tr.session_codec format_int tr.sessions_table t a

    -- The transactions meet what the flow of a login relies on.
    pub login_contract :
        LoginContract service
          (rotation_contract transacting tr.db tr.session_codec format_int tr.sessions_table t a)
    unfolding auth_transactor rotation_contract
    login_contract = record {
      session_created = λ p w w' h. verify_otp_and_create_session-row p w w' h;
    }

    -- With the sessions and the transactions in DynamoDB, the refresh token of a login is accepted. A
    -- refresh with it, from the device of the login and with an access token of the session, rotates
    -- the session that the transaction of the login wrote, as long as the session's item is the one
    -- that the login left, the database answers the read, and the lifetime of thirty days is not
    -- over. The session that is rotated is the one that the store reads.
    pub refresh_tokens-logged_in :
        (phone_hash : String) (o : OtpRecord) (user : UserRecord) (device_id : String) (w w' : W)
        (res : VerifyOtpResult) (access : String) (z z1 z2 z3 : W) (claims : Claims)
        (found : Option AttributeMap) (now expires_at : ℕ)
        → create_login_session service phone_hash o user device_id w ≡ (ok res, w')
        → validate_ignore_expiry s0.runtime s0.jwt_library s0.validator access z ≡ (ok claims, z1)
        → claims.session_id ≡ res.session_id
        → t.item_at z1 res.session_id ≡ t.item_at w' res.session_id
        → tr.db.get_item
            (session_request s0.runtime tr.db tr.session_codec format_int tr.sessions_table
              claims.session_id)
            z1
          ≡ (ok found, z2)
        → s0.runtime.parse_rfc3339 (
            s0.runtime.format_rfc3339
              ((s0.runtime.now (s0.runtime.new_uuid w).1).0 + refresh_token_lifetime))
          ≡ ok expires_at
        → s0.runtime.now z2 ≡ (now, z3)
        → now ≤ expires_at
        → (session : SessionRecord) × (get_by_id s0.runtime tr.db tr.session_codec format_int
              tr.sessions_table claims.session_id z1
            ≡ (ok session, z2))
          × (session.device_id ≡ device_id)
          × (refresh_tokens service access res.refresh_token device_id z
              ≡ rotate_refresh_token service claims.subject claims.session_id session z3)
    unfolding rotation_contract session_store
    refresh_tokens-logged_in phone_hash o user device_id w w' res access z z1 z2 z3 claims found now
          expires_at h valid id kept got parsed clock early =
        let c =
          rotation_contract transacting tr.db tr.session_codec format_int tr.sessions_table t a in
        let (session, at, device, _, _, _) =
          create_login_session-LoggedIn service c login_contract phone_hash o user device_id w w'
            res
            (s0.runtime.rand_read refresh_token_bytes
              (s0.runtime.now (s0.runtime.new_uuid w).1).1).0
            refl h in
        let same : row s0.runtime tr.db tr.session_codec format_int tr.sessions_table t z1
              res.session_id
            ≡ row s0.runtime tr.db tr.session_codec format_int tr.sessions_table t w'
                res.session_id =
          ap
            (λ (m : Option AttributeMap).
              option_of
                (session_of s0.runtime tr.db tr.session_codec format_int tr.sessions_table m))
            kept in
        let there : row s0.runtime tr.db tr.session_codec format_int tr.sessions_table t z1
              claims.session_id
            ≡ some session =
          ap (row s0.runtime tr.db tr.session_codec format_int tr.sessions_table t z1) id
          ∙ same
          ∙ at in
        let read =
          get_by_id_of_row s0.runtime tr.db tr.session_codec format_int tr.sessions_table t
            claims.session_id z1 z2 session found there got in
        (
          session,
          read,
          device,
          refresh_tokens-create_login_session service c login_contract phone_hash o user device_id w
              w' res access z z1 z2 z3 claims session now expires_at h valid id same read parsed
              clock early,
        )
