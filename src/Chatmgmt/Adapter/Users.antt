-- ===== src/Chatmgmt/Adapter/Users.antt =====
-- internal/chatmgmt/adapter/dynamo_users.go. Whether the context is cancelled is a
-- parameter.
use realtime_messaging_platf.Prelude.{String, List, [], ◌∷◌, Option, none, some, true}
use realtime_messaging_platf.Domain.Errors.{sentinel, wrap, not_found}
use realtime_messaging_platf.Effect.{Result, ok, err, Action, label, ◌>>=◌, ◌>>◌}
use realtime_messaging_platf.Dynamo.{AttributeMap, text, Client, Codec, QueryInput, GetItemInput}
use realtime_messaging_platf.Chatmgmt.App.{UserRecord, UserStore}

pub record UserItem : Type 0 where
  pub user_id : String
  pub phone_number : String
  pub display_name : String
  pub created_at : String
  pub updated_at : String

unfoldable pub from_user_item : UserItem → UserRecord
from_user_item item = record {
  user_id = item.user_id;
  phone_number = item.phone_number;
  display_name = item.display_name;
  created_at = item.created_at;
  updated_at = item.updated_at;
}

module _ {W : Type 0} (db : Client W) (user_codec : Codec UserItem) (user_id_codec : Codec String)
    (context_err : Action W Unit) (table_name : String) where
  user_of : Option AttributeMap → Result UserRecord
  unfolding from_user_item
  user_of none = err (wrap "user store: get by id" (sentinel not_found))
  user_of (some item) = elim (user_codec.unmarshal_map item) [
    | ok item' ↦ ok (from_user_item item')
    | err e ↦ err (wrap "user store: unmarshal user" e)
  ]

  unfoldable pub user_request : String → GetItemInput
  user_request user_id = record {
    table_name = table_name;
    key = ("user_id", text user_id) ∷ [];
    consistent_read = true;
  }

  unfoldable pub get_by_id : String → Action W UserRecord
  unfolding user_of
  get_by_id user_id = do
    item ← label "user store: get by id" (db.get_item (user_request user_id))
    (λ w. (user_of item, w))

  unfoldable pub phone_request : String → QueryInput
  phone_request phone_number = record {
    table_name = table_name;
    index_name = "phone_number-index";
    key_condition_expression = "phone_number = :phone";
    filter_expression = "";
    expression_attribute_values = (":phone", text phone_number) ∷ [];
  }

  -- The first item of the answer counts.
  projected : List AttributeMap → Result String
  projected [] = err (wrap "user store: find by phone" (sentinel not_found))
  projected (item ∷ items) = elim (user_id_codec.unmarshal_map item) [
    | ok user_id ↦ ok user_id
    | err e ↦ err (wrap "user store: unmarshal gsi projection" e)
  ]

  unfoldable pub find_by_phone : String → Action W UserRecord
  unfolding projected
  find_by_phone phone_number = do
    items ← label "user store: find by phone query" (db.query (phone_request phone_number))
    user_id ← (λ w. (projected items, w))
    label "user store: find by phone" context_err
    get_by_id user_id

  unfoldable pub user_store : UserStore W
  user_store = record { get_by_id = get_by_id; find_by_phone = find_by_phone }
