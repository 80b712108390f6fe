-- ===== src/Chatmgmt/Adapter/Sessions/LoggedOut.antt =====
-- A logout over the sessions in DynamoDB and the revocations in Redis, and a refresh after it.
use Prim.Native.String.{◌++◌}
use realtime_messaging_platf.Prelude.{
  ℕ, ◌≡◌, refl, ap, sym, ◌∙◌, true, String, Option, none, arith, [], ◌∷◌,
}
use realtime_messaging_platf.Domain.Errors.{sentinel, session_revoked, not_found, wrap, is}
use realtime_messaging_platf.Effect.{Result, ok, err, labelled-ok}
use realtime_messaging_platf.Auth.Tokens.{Claims, validate_access_token, validate_ignore_expiry}
use realtime_messaging_platf.Dynamo.{AttributeMap, text, Client, Codec, DeleteItemInput}
use realtime_messaging_platf.Chatmgmt.App.{AuthService}
use realtime_messaging_platf.Chatmgmt.App.Logout.{logout, logout-ok}
use realtime_messaging_platf.Chatmgmt.App.RefreshTokens.{refresh_tokens}
use realtime_messaging_platf.Chatmgmt.App.RefreshTokens.Outcomes.{refresh_tokens-no_session}
use realtime_messaging_platf.Chatmgmt.Adapter.Redis.{
  Commands, Cmdable, is_revoked, revoke, revocation_store, revoked_jti_prefix, revoked_jti_ttl,
}
use realtime_messaging_platf.Chatmgmt.Adapter.Redis.Revoked.{KeyContract, revoke-reported}
use realtime_messaging_platf.Chatmgmt.Adapter.Sessions.{
  SessionItem, session_of, session_request, get_by_id, delete, session_store,
}
use realtime_messaging_platf.Chatmgmt.Adapter.Sessions.Stored.{SessionTable}

-- A deletion that is carried out has removed the item, and Redis leaves the table alone.
pub record LogoutTable {D W : Type 0} (db : Client W) (cmd : Cmdable D W)
    (codec : Codec SessionItem) (format_int : ℕ → String) (table_name : String)
    (t : SessionTable db codec format_int table_name) : Type 0 where
  pub delete_ok :
      (request : DeleteItemInput) (w w' : W) (id : String)
      → request.table_name ≡ table_name
      → request.key ≡ ("session_id", text id) ∷ []
      → db.delete_item request w ≡ (ok tt, w')
      → t.item_at w' id ≡ none
  pub set_keeps : (k v : String) (ttl : ℕ) (w : W) → t.item_at (cmd.set k v ttl w).1 ≡ t.item_at w

is-not_found : is (wrap "session store: get by id" (sentinel not_found)) not_found ≡ true
unfolding is
is-not_found = refl

module _ {D W K P : Type 0} (s0 : AuthService W K P) (server : Commands D) (cmd : Cmdable D W)
    (keys : KeyContract cmd) (db : Client W) (codec : Codec SessionItem) (format_int : ℕ → String)
    (table_name : String) (t : SessionTable db codec format_int table_name)
    (l : LogoutTable db cmd codec format_int table_name t) where
  -- The service with the sessions in DynamoDB and the revocations in Redis.
  abbrev pub deployed : AuthService W K P
  deployed = record s0 {
    session_store = session_store s0.runtime db codec format_int table_name;
    revocation_store = revocation_store server cmd;
  }

  delete-gone :
      (id : String) (w w' : W)
      → delete s0.runtime db codec format_int table_name id w ≡ (ok tt, w')
      → t.item_at w' id ≡ none
  unfolding delete
  delete-gone id w w' h =
      let request : DeleteItemInput = record {
        table_name = table_name;
        key = ("session_id", text id) ∷ [];
      } in
      let done : db.delete_item request w ≡ (ok tt, w') =
        ground (arith, labelled-ok "session store: delete" (db.delete_item request w).0 tt) in
      l.delete_ok request w w' id refl refl done

  revoke-keeps : (jti : String) (w : W) → t.item_at (revoke server cmd jti w).1 ≡ t.item_at w
  unfolding revoke
  revoke-keeps jti w = l.set_keeps (revoked_jti_prefix ++ jti) "1" revoked_jti_ttl w

  get_by_id-gone :
      (id : String) (w w' : W) (found : Option AttributeMap)
      → t.item_at w id ≡ none
      → db.get_item (session_request s0.runtime db codec format_int table_name id) w
        ≡ (ok found, w')
      → get_by_id s0.runtime db codec format_int table_name id w
        ≡ (err (wrap "session store: get by id" (sentinel not_found)), w')
  unfolding get_by_id session_request session_of
  get_by_id-gone id w w' found gone h =
      let same =
        t.get_ok (session_request s0.runtime db codec format_int table_name id) w w' id found refl
          refl refl h in
      ground (arith, same, gone)

  -- With the sessions in DynamoDB and the revocations in Redis, a logout that succeeds and whose
  -- deletion of the session was carried out ends the session. Right after it the id of its access
  -- token is reported as revoked, whether Redis answers the question or fails; and a refresh with any
  -- valid or expired access token of the session and any refresh token, from any device, is refused
  -- with ErrSessionRevoked, and only looks the session up, as long as the table still has no item
  -- for the session and the database answers.
  pub logout-ends_session :
      (access access' refresh device : String) (w w1 w2 w' v v1 v2 : W) (claims claims' : Claims)
      (found : Option AttributeMap)
      → validate_access_token s0.runtime s0.jwt_library s0.validator access w ≡ (ok claims, w1)
      → delete s0.runtime db codec format_int table_name claims.session_id w1 ≡ (ok tt, w2)
      → logout deployed access w ≡ (ok tt, w')
      → validate_ignore_expiry s0.runtime s0.jwt_library s0.validator access' v ≡ (ok claims', v1)
      → claims'.session_id ≡ claims.session_id
      → t.item_at v1 claims.session_id ≡ t.item_at w' claims.session_id
      → db.get_item
          (session_request s0.runtime db codec format_int table_name claims'.session_id)
          v1
        ≡ (ok found, v2)
      → ((is_revoked server cmd claims.id w').0.0 ≡ true)
        × (refresh_tokens deployed access' refresh device v ≡ (err (sentinel session_revoked), v2))
  unfolding session_store revocation_store
  logout-ends_session access access' refresh device w w1 w2 w' v v1 v2 claims claims' found valid
        deleted h valid' same kept got =
      let (c, x, validated, revoked) = logout-ok deployed access w w' h in
      let is_claims : c ≡ claims = ground arith in
      let is_w1 : x ≡ w1 = ground arith in
      let after = λ (d : Claims) (y : W).
        revoke server cmd d.id
          (delete s0.runtime db codec format_int table_name d.session_id y).1 in
      let done : revoke server cmd claims.id w2 ≡ (ok tt, w') =
        ap (λ (y : W). revoke server cmd claims.id y)
          (sym (ap (λ (z : Result Unit × W). z.1) deleted))
        ∙ ap (after claims) (sym is_w1)
        ∙ ap (λ (d : Claims). after d x) (sym is_claims)
        ∙ revoked in
      let here = λ (f : String → Option AttributeMap). f claims.session_id in
      let gone : t.item_at w' claims.session_id ≡ none =
        ap (λ (z : Result Unit × W). t.item_at z.1 claims.session_id) (sym done)
        ∙ ap here (revoke-keeps claims.id w2)
        ∙ delete-gone claims.session_id w1 w2 deleted in
      let none_left : t.item_at v1 claims'.session_id ≡ none =
        ap (t.item_at v1) same ∙ kept ∙ gone in
      let missing = get_by_id-gone claims'.session_id v1 v2 found none_left got in
      (
        revoke-reported server cmd keys claims.id w2 w' done,
        refresh_tokens-no_session deployed access' refresh device v v1 v2 claims'
            (wrap "session store: get by id" (sentinel not_found)) valid' missing is-not_found,
      )
