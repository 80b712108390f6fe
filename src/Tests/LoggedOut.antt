-- ===== src/Tests/LoggedOut.antt =====
-- A logout over a table of sessions and a Redis in memory, and a refresh after it.
use realtime_messaging_platf.Prelude.{
  ℕ, ◌<◌, ◌≡◌, refl, ap, sym, ◌∙◌, true, ltb, String, str_eq, eq_refl, none, [], ◌∷◌, if◌then◌else◌,
  arith,
}
use realtime_messaging_platf.Domain.Errors.{sentinel, session_revoked}
use realtime_messaging_platf.Effect.{Result, ok, err}
use realtime_messaging_platf.Auth.Tokens.{
  validate_access_token, validate_ignore_expiry, only_expired_error, is_jwt,
}
use realtime_messaging_platf.Dynamo.{AttributeMap, text, Client, DeleteItemInput}
use realtime_messaging_platf.Chatmgmt.App.{AuthService}
use realtime_messaging_platf.Chatmgmt.App.Logout.{logout}
use realtime_messaging_platf.Chatmgmt.App.RefreshTokens.{refresh_tokens}
use realtime_messaging_platf.Chatmgmt.Adapter.Redis.{Cmdable, is_revoked, revoke, revocation_store}
use realtime_messaging_platf.Chatmgmt.Adapter.Redis.Revoked.{KeyContract}
use realtime_messaging_platf.Chatmgmt.Adapter.Sessions.{delete, session_request, session_store}
use realtime_messaging_platf.Chatmgmt.Adapter.Sessions.Stored.{SessionTable}
use realtime_messaging_platf.Chatmgmt.Adapter.Sessions.LoggedOut.{
  LogoutTable, deployed, logout-ends_session,
}
use realtime_messaging_platf.Tests.Redis.{Counts, server}
use realtime_messaging_platf.Tests.OneTable
use realtime_messaging_platf.Tests.OneTable.{
  Table, strokes, codec, key_of, item_of, one_session, runtime_in, service_in,
}
use realtime_messaging_platf.Tests.Memory.{claims}

abbrev World : Type 0
World = Table × Counts

-- A call on the table alone, and the other way round.
abbrev on_table : {A : Type 0} → Result A × Table → Counts → Result A × World
on_table (r, sessions) counts = (r, (sessions, counts))

abbrev to_table : {A : Type 0} → Result A × World → Result A × Table
to_table (r, (sessions, counts)) = (r, sessions)

abbrev db : Client World
db = record {
  get_item = λ request w. on_table (OneTable.db.get_item request w.0) w.1;
  put_item = λ request w. on_table (OneTable.db.put_item request w.0) w.1;
  update_item = λ request w. on_table (OneTable.db.update_item request w.0) w.1;
  query = λ request w. on_table (OneTable.db.query request w.0) w.1;
  delete_item = λ request w. on_table (OneTable.db.delete_item request w.0) w.1;
  transact_write_items = λ items w. on_table (OneTable.db.transact_write_items items w.0) w.1;
}

abbrev cmd : Cmdable Counts World
cmd = record {
  eval = λ p w. (ok (p w.1).0, (w.0, (p w.1).1));
  exists = λ k w. (ok (w.1 k), w);
  set = λ k v ttl w. (ok tt, (w.0, λ j. if str_eq k j then 1 else w.1 j));
}

set-ok :
    (k v : String) (ttl : ℕ) (w w' : World)
    → cmd.set k v ttl w ≡ (ok tt, w')
    → ltb 0 (w'.1 k) ≡ true
set-ok k v ttl w w' h =
    sym (ap (λ (x : Result Unit × World). ltb 0 (x.1.1 k)) h) ∙ rw (eq_refl k) refl

exists-ok :
    (k : String) (w w' : World) (n : ℕ) → cmd.exists k w ≡ (ok n, w') → ltb 0 (w.1 k) ≡ true → 0 < n
exists-ok k w w' n h p = ground arith

abbrev key_contract : KeyContract cmd
key_contract = record { present = λ w k. ltb 0 (w.1 k); set_ok = set-ok; exists_ok = exists-ok }

unfoldable table : SessionTable db codec strokes "sessions"
unfolding OneTable.table
table = record {
  item_at = λ w. w.0;
  get_ok = λ request w w' id m named key consistent e.
      OneTable.table.get_ok request w.0 w'.0 id m named key consistent (ap to_table e);
  get_keeps = λ request w. OneTable.table.get_keeps request w.0;
  set_ok = λ request w w' id m rth gen pth ea ttl named key set free names values e a.
      OneTable.table.set_ok request w.0 w'.0 id m rth gen pth ea ttl named key set free names values
        (ap to_table e) a;
  decodes = OneTable.table.decodes;
}

delete-ok :
    (request : DeleteItemInput) (w w' : World) (id : String)
    → request.key ≡ ("session_id", text id) ∷ []
    → db.delete_item request w ≡ (ok tt, w')
    → w'.0 id ≡ none
unfolding OneTable.db
delete-ok request w w' id key e =
    sym (ap (λ (x : Result Unit × World). x.1.0 id) e)
    ∙ ap (λ (k : AttributeMap). if str_eq (key_of k) id then none else w.0 id) key
    ∙ rw (eq_refl id) refl

abbrev logout_table : LogoutTable db cmd codec strokes "sessions" table
unfolding table
logout_table = record {
  delete_ok = λ request w w' id named key e. delete-ok request w w' id key e;
  set_keeps = λ k v ttl w. refl;
}

abbrev service : AuthService World Unit Unit
service = service_in World (session_store (runtime_in World) db codec strokes "sessions")

abbrev ended : AuthService World Unit Unit
ended = deployed service server cmd key_contract db codec strokes "sessions" table logout_table

abbrev world : World
world = (one_session, λ k. 0)

logout-ends_session_example :
    ((is_revoked server cmd "jti-1" (logout ended "access-1" world).1).0.0 ≡ true)
    × (refresh_tokens ended "access-2" "r-old" "d-1" (logout ended "access-1" world).1
        ≡ (err (sentinel session_revoked), (logout ended "access-1" world).1))
unfolding logout validate_access_token validate_ignore_expiry only_expired_error is_jwt delete
    session_request session_store revocation_store revoke table OneTable.db OneTable.table
logout-ends_session_example =
    let w : World = (logout ended "access-1" world).1 in
    let w2 : World = (delete service.runtime db codec strokes "sessions" "s-1" world).1 in
    logout-ends_session service server cmd key_contract db codec strokes "sessions" table
      logout_table "access-1" "access-2" "r-old" "d-1" world world w2 w w w w claims claims none
      refl refl refl refl refl refl refl
