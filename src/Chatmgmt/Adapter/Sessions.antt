-- ===== src/Chatmgmt/Adapter/Sessions.antt =====
-- internal/chatmgmt/adapter/dynamo_sessions.go. Numbers are written in decimal by strconv, a
-- parameter.
pub mod Listing
pub mod Stored
pub mod Rotated
pub mod LoggedIn
pub mod LoggedOut
use realtime_messaging_platf.Prelude.{
  ℕ, String, List, [], ◌∷◌, Option, none, some, Bool, true, if◌then◌else◌,
}
use realtime_messaging_platf.Domain.Errors.{Error, sentinel, wrap, already_exists, not_found}
use realtime_messaging_platf.Effect.{
  Result, ok, err, Action, label, labelled, attempt, call, ◌>>=◌, ◌>>◌,
}
use realtime_messaging_platf.Auth.Runtime.{Runtime}
use realtime_messaging_platf.Dynamo.{
  AttributeMap, text, number, Client, Codec, QueryInput, GetItemInput, UpdateItemInput,
  is_conditional_check_failed,
}
use realtime_messaging_platf.Chatmgmt.App.{SessionRecord, SessionUpdate, SessionStore}

pub record SessionItem : Type 0 where
  pub session_id : String
  pub user_id : String
  pub device_id : String
  pub refresh_token_hash : String
  pub token_generation : ℕ
  pub prev_token_hash : String
  pub created_at : String
  pub expires_at : String
  pub ttl : ℕ

unfoldable pub to_session_item : SessionRecord → SessionItem
to_session_item r = record {
  session_id = r.session_id;
  user_id = r.user_id;
  device_id = r.device_id;
  refresh_token_hash = r.refresh_token_hash;
  token_generation = r.token_generation;
  prev_token_hash = r.prev_token_hash;
  created_at = r.created_at;
  expires_at = r.expires_at;
  ttl = r.ttl;
}

unfoldable pub from_session_item : SessionItem → SessionRecord
from_session_item item = record {
  session_id = item.session_id;
  user_id = item.user_id;
  device_id = item.device_id;
  refresh_token_hash = item.refresh_token_hash;
  prev_token_hash = item.prev_token_hash;
  created_at = item.created_at;
  expires_at = item.expires_at;
  token_generation = item.token_generation;
  ttl = item.ttl;
}

-- The answer to the write of a new session.
session_written : Result Unit → Result Unit
session_written (ok u) = ok u
session_written (err e) =
    if is_conditional_check_failed e
    then err (wrap "session store: create" (sentinel already_exists))
    else err (wrap "session store: create" e)

module _ {W : Type 0} (rt : Runtime W) (db : Client W) (codec : Codec SessionItem)
    (format_int : ℕ → String) (table_name : String) where
  put_session : AttributeMap → Action W Unit
  unfolding session_written
  put_session item w =
      let (r, w') =
        db.put_item
          (record {
            table_name = table_name;
            item = item;
            condition_expression = "attribute_not_exists(session_id)";
            expression_attribute_names = [];
            expression_attribute_values = [];
          })
          w in
      (session_written r, w')

  unfoldable pub create : SessionRecord → Action W Unit
  unfolding put_session
  create session = do
    item ←
        label "session store: marshal session"
          (λ w. (codec.marshal_map (to_session_item session), w))
    put_session item

  unfoldable pub unmarshal_session : AttributeMap → Result SessionRecord
  unmarshal_session item = elim (codec.unmarshal_map item) [
    | ok si ↦ ok (from_session_item si)
    | err e ↦ err (wrap "session store: unmarshal session" e)
  ]

  unfoldable pub session_of : Option AttributeMap → Result SessionRecord
  unfolding unmarshal_session
  session_of none = err (wrap "session store: get by id" (sentinel not_found))
  session_of (some item) = unmarshal_session item

  unfoldable pub session_request : String → GetItemInput
  session_request session_id = record {
    table_name = table_name;
    key = ("session_id", text session_id) ∷ [];
    consistent_read = true;
  }

  unfoldable pub get_by_id : String → Action W SessionRecord
  get_by_id session_id = do
    item ← label "session store: get by id" (db.get_item (session_request session_id))
    (λ w. (session_of item, w))

  -- The loop over the items of a page stops at the first one that cannot be read.
  unfoldable pub unmarshal_sessions : List AttributeMap → Result (List SessionRecord)
  unmarshal_sessions [] = ok []
  unmarshal_sessions (item ∷ items) = elim (unmarshal_session item) [
    | err e ↦ err e
    | ok rec ↦ elim (unmarshal_sessions items) [ err e ↦ err e | ok sessions ↦ ok (rec ∷ sessions) ]
  ]

  unfoldable pub list_request : String → ℕ → QueryInput
  list_request user_id now = record {
    table_name = table_name;
    index_name = "user_sessions-index";
    key_condition_expression = "user_id = :uid";
    filter_expression = "expires_at > :now";
    expression_attribute_values =
        (":uid", text user_id) ∷ (":now", text (rt.format_rfc3339 now)) ∷ [];
  }

  unfoldable pub list_by_user : String → Action W (List SessionRecord)
  list_by_user user_id = do
    now ← call rt.now
    items ← label "session store: list by user" (db.query (list_request user_id now))
    (λ w. (unmarshal_sessions items, w))

  unfoldable pub update_request : String → SessionUpdate → UpdateItemInput
  update_request session_id updates = record {
    table_name = table_name;
    key = ("session_id", text session_id) ∷ [];
    update_expression =
        "SET refresh_token_hash = :rth, token_generation = :gen, prev_token_hash = :pth, expires_at = :ea, #ttl = :ttl";
    condition_expression = "";
    expression_attribute_names = ("#ttl", "ttl") ∷ [];
    expression_attribute_values =
        (":rth", text updates.refresh_token_hash)
        ∷ (":gen", number (format_int updates.token_generation))
        ∷ (":pth", text updates.prev_token_hash)
        ∷ (":ea", text updates.expires_at)
        ∷ (":ttl", number (format_int updates.ttl))
        ∷ [];
  }

  unfoldable pub update : String → SessionUpdate → Action W Unit
  update session_id updates =
      label "session store: update" (db.update_item (update_request session_id updates))

  unfoldable pub delete : String → Action W Unit
  delete session_id = label "session store: delete" (
      db.delete_item
        (record { table_name = table_name; key = ("session_id", text session_id) ∷ [] }))

  unfoldable pub session_store : SessionStore W
  session_store = record {
    create = create;
    get_by_id = get_by_id;
    list_by_user = list_by_user;
    update = update;
    delete = delete;
  }
