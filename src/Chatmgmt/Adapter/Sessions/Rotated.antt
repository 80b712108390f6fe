-- ===== src/Chatmgmt/Adapter/Sessions/Rotated.antt =====
-- A refresh over the store of sessions in DynamoDB: what the table gives afterwards.
use realtime_messaging_platf.Prelude.{ℕ, ◌+◌, ◌≡◌, ◌∙◌, String, Option}
use realtime_messaging_platf.Effect.{ok}
use realtime_messaging_platf.Auth.Tokens.{Claims, validate_ignore_expiry}
use realtime_messaging_platf.Dynamo.{AttributeMap, Client, Codec}
use realtime_messaging_platf.Chatmgmt.App.{AuthService, SessionRecord, RefreshResult}
use realtime_messaging_platf.Chatmgmt.App.Contract.{RotationContract}
use realtime_messaging_platf.Chatmgmt.App.RefreshTokens.{refresh_tokens}
use realtime_messaging_platf.Chatmgmt.App.RefreshTokens.Replay.{refresh_tokens-Refreshed}
use realtime_messaging_platf.Chatmgmt.Adapter.Sessions.{
  SessionItem, session_of, get_by_id, session_store, session_request,
}
use realtime_messaging_platf.Chatmgmt.Adapter.Sessions.Stored.{
  SessionTable, row, row_cong, get_by_id-row, get_by_id-keeps, update-row, option_of-some,
  get_by_id_of_row,
}

-- What a refresh calls besides the store leaves the table alone.
pub record Aside {W K P : Type 0} (s0 : AuthService W K P) (db : Client W)
    (codec : Codec SessionItem) (format_int : ℕ → String) (table_name : String)
    (t : SessionTable db codec format_int table_name) : Type 0 where
  pub read_keeps : (n : ℕ) (w : W) → t.item_at (s0.runtime.rand_read n w).1 ≡ t.item_at w
  pub now_keeps : (w : W) → t.item_at (s0.runtime.now w).1 ≡ t.item_at w
  pub uuid_keeps : (w : W) → t.item_at (s0.runtime.new_uuid w).1 ≡ t.item_at w
  pub key_keeps : (w : W) → t.item_at (s0.minter.key_store.signing_key w).1 ≡ t.item_at w
  pub sign_keeps :
      (k : K) (kid : String) (c : Claims) (w : W)
      → t.item_at (s0.jwt_library.sign k kid c w).1 ≡ t.item_at w

module _ {W K P : Type 0} (s0 : AuthService W K P) (db : Client W) (codec : Codec SessionItem)
    (format_int : ℕ → String) (table_name : String)
    (t : SessionTable db codec format_int table_name)
    (a : Aside s0 db codec format_int table_name t) where
  -- The service with the store in DynamoDB.
  abbrev pub stored_service : AuthService W K P
  stored_service = record s0 {
    session_store = session_store s0.runtime db codec format_int table_name;
  }

  -- The store meets what the flow of a refresh relies on.
  unfoldable pub rotation_contract : RotationContract stored_service
  unfolding session_store
  rotation_contract = record {
    session_at = row s0.runtime db codec format_int table_name t;
    get_ok = λ id w w' r g. get_by_id-row s0.runtime db codec format_int table_name t id w w' r g;
    get_keeps = λ id w.
        row_cong s0.runtime db codec format_int table_name t w
          (get_by_id s0.runtime db codec format_int table_name id w).1
          (get_by_id-keeps s0.runtime db codec format_int table_name t id w);
    update_ok =
        λ id u w w' r g at. update-row s0.runtime db codec format_int table_name t id u w w' r at g;
    read_keeps = λ n w.
        row_cong s0.runtime db codec format_int table_name t w (s0.runtime.rand_read n w).1
          (a.read_keeps n w);
    now_keeps = λ w.
        row_cong s0.runtime db codec format_int table_name t w (s0.runtime.now w).1 (a.now_keeps w);
    uuid_keeps = λ w.
        row_cong s0.runtime db codec format_int table_name t w (s0.runtime.new_uuid w).1
          (a.uuid_keeps w);
    key_keeps = λ w.
        row_cong s0.runtime db codec format_int table_name t w (s0.minter.key_store.signing_key w).1
          (a.key_keeps w);
    sign_keeps = λ k kid c w.
        row_cong s0.runtime db codec format_int table_name t w (s0.jwt_library.sign k kid c w).1
          (a.sign_keeps k kid c w);
  }

  -- With the sessions in DynamoDB, a refresh that succeeds under the claims of its access token has
  -- rotated the session of the claims in the table. The store, read next at a moment when the
  -- database answers, gives the session on the device of the refresh, with the hash of the token
  -- that was returned as the current one, that of the token that was given as the previous one, and
  -- a generation that is one more than that of the item which the table had when the claims were
  -- known.
  pub refresh_tokens-get_by_id :
      (access refresh device : String) (w w1 w' w2 : W) (claims : Claims) (res : RefreshResult)
      (found : Option AttributeMap)
      → validate_ignore_expiry s0.runtime s0.jwt_library s0.validator access w ≡ (ok claims, w1)
      → refresh_tokens stored_service access refresh device w ≡ (ok res, w')
      → db.get_item (session_request s0.runtime db codec format_int table_name claims.session_id) w'
        ≡ (ok found, w2)
      → (before after : SessionRecord) × (session_of s0.runtime db codec format_int table_name
            (t.item_at w1 claims.session_id)
          ≡ ok before)
        × (get_by_id s0.runtime db codec format_int table_name claims.session_id w'
            ≡ (ok after, w2))
        × (after.device_id ≡ device)
        × (after.refresh_token_hash ≡ s0.runtime.sha256_hex res.refresh_token)
        × (after.prev_token_hash ≡ s0.runtime.sha256_hex refresh)
        × (after.token_generation ≡ before.token_generation + 1)
  unfolding rotation_contract
  refresh_tokens-get_by_id access refresh device w w1 w' w2 claims res found v h g =
      let (before, was, on, current, (after, at, on', current', previous', generation')) =
        refresh_tokens-Refreshed stored_service rotation_contract access refresh device w w1 w'
          claims res v h in
      (
        before,
        after,
        option_of-some
            (session_of s0.runtime db codec format_int table_name (t.item_at w1 claims.session_id))
            before was,
        get_by_id_of_row s0.runtime db codec format_int table_name t claims.session_id w' w2 after
            found at g,
        on' ∙ on,
        current',
        previous' ∙ current,
        generation',
      )
