-- ===== src/Chatmgmt/Adapter/Transactor.antt =====
-- internal/chatmgmt/adapter/dynamo_tx.go.
pub mod Refusals
pub mod Rows
pub mod OneUser
pub mod SingleUse
use Prim.Native.String.{◌++◌}
use realtime_messaging_platf.Prelude.{
  ◌≡◌, arith, ℕ, String, str_eq, List, [], ◌∷◌, Option, none, some, Bool, true, false, ◌||◌,
  if◌then◌else◌,
}
use realtime_messaging_platf.Domain.Errors.{Error, sentinel, wrap, already_exists}
use realtime_messaging_platf.Effect.{Result, ok, err, Action}
use realtime_messaging_platf.Dynamo.{
  AttributeMap, text, TransactWriteItem, update_item, put_item, Client, Codec,
  is_transaction_canceled_exception,
}
use realtime_messaging_platf.Chatmgmt.App.{AuthTransactor, RegistrationParams, LoginParams}
use realtime_messaging_platf.Chatmgmt.Adapter.Users.{UserItem}
use realtime_messaging_platf.Chatmgmt.Adapter.Sessions.{SessionItem}

-- A marshalled item is used without a look at the error, which leaves an empty map.
pub record Transactor (W : Type 0) : Type 0 where
  pub db : Client W
  pub otp_table : String
  pub users_table : String
  pub sessions_table : String
  pub user_codec : Codec UserItem
  pub session_codec : Codec SessionItem

abbrev pub item_of : Result AttributeMap → AttributeMap
item_of (ok m) = m
item_of (err e) = []

unfoldable pub any_condition_failed : List String → Bool
any_condition_failed [] = false
any_condition_failed (reason ∷ reasons) =
    str_eq reason "ConditionalCheckFailed" || any_condition_failed reasons

-- The answer for a cancelled transaction, by its reasons. The index and the name of the item go
-- into the text only.
classify_reasons : Error → String → Option (List String) → Error
classify_reasons e op none = wrap ("transactor: " ++ op) e
classify_reasons e op (some reasons) =
    if any_condition_failed reasons
    then wrap ("transactor: " ++ (op ++ ": item %d (%s) condition failed"))
        (sentinel already_exists)
    else wrap ("transactor: " ++ (op ++ ": transaction canceled")) e

unfoldable pub classify_tx_error : Error → String → Error
unfolding classify_reasons
classify_tx_error e op = classify_reasons e op (is_transaction_canceled_exception e)

abbrev pub classified : String → Result Unit → Result Unit
unfolding classify_tx_error
classified op (ok u) = ok u
classified op (err e) = err (classify_tx_error e op)

pub classified-ok : (op : String) (r : Result Unit) → classified op r ≡ ok tt → r ≡ ok tt
unfolding classify_tx_error
classified-ok op (ok u) h = h
classified-ok op (err e) h = absurd (ground arith)

module _ {W : Type 0} (t : Transactor W) where
  unfoldable pub build_otp_verify_update : String → String → String → TransactWriteItem
  build_otp_verify_update phone_hash expires_at otp_mac = update_item (record {
    table_name = t.otp_table;
    key = ("phone_hash", text phone_hash) ∷ [];
    update_expression = "SET #st = :verified";
    condition_expression = "#st = :pending AND expires_at = :ea AND otp_mac = :mac";
    expression_attribute_names = ("#st", "status") ∷ [];
    expression_attribute_values =
        (":verified", text "verified")
        ∷ (":pending", text "pending")
        ∷ (":ea", text expires_at)
        ∷ (":mac", text otp_mac)
        ∷ [];
  })

  unfoldable pub build_user_put : String → String → String → TransactWriteItem
  build_user_put user_id phone_number now = put_item (record {
    table_name = t.users_table;
    item = item_of (
        t.user_codec.marshal_map (record {
          user_id = user_id;
          phone_number = phone_number;
          display_name = "";
          created_at = now;
          updated_at = now;
        }));
    condition_expression = "attribute_not_exists(user_id)";
    expression_attribute_names = [];
    expression_attribute_values = [];
  })

  unfoldable pub build_phone_sentinel_put : String → String → TransactWriteItem
  build_phone_sentinel_put phone_number user_id = put_item (record {
    table_name = t.users_table;
    item =
        ("user_id", text ("phone#" ++ phone_number))
        ∷ ("phone_number", text phone_number)
        ∷ ("owner_id", text user_id)
        ∷ [];
    condition_expression = "attribute_not_exists(user_id)";
    expression_attribute_names = [];
    expression_attribute_values = [];
  })

  unfoldable pub build_session_put :
      String → String → String → String → String → String → ℕ → TransactWriteItem
  build_session_put session_id user_id device_id refresh_token_hash created_at expires_at ttl =
      put_item (record {
        table_name = t.sessions_table;
        item = item_of (
            t.session_codec.marshal_map (record {
              session_id = session_id;
              user_id = user_id;
              device_id = device_id;
              refresh_token_hash = refresh_token_hash;
              prev_token_hash = "";
              created_at = created_at;
              expires_at = expires_at;
              token_generation = 1;
              ttl = ttl;
            }));
        condition_expression = "attribute_not_exists(session_id)";
        expression_attribute_names = [];
        expression_attribute_values = [];
      })

  unfoldable pub registration_items : RegistrationParams → List TransactWriteItem
  registration_items p =
      build_otp_verify_update p.phone_hash p.otp_expires_at p.otp_mac
      ∷ build_user_put p.user_id p.phone_number p.now
      ∷ build_phone_sentinel_put p.phone_number p.user_id
      ∷ build_session_put p.session_id p.user_id p.device_id p.refresh_token_hash p.now
          p.session_expires_at p.session_ttl
      ∷ []

  unfoldable pub verify_otp_and_create_user : RegistrationParams → Action W Unit
  unfolding classify_tx_error
  verify_otp_and_create_user p w =
      let (r, w') = t.db.transact_write_items (registration_items p) w in
      (classified "verify otp and create user" r, w')

  unfoldable pub login_items : LoginParams → List TransactWriteItem
  login_items p =
      build_otp_verify_update p.phone_hash p.otp_expires_at p.otp_mac
      ∷ build_session_put p.session_id p.user_id p.device_id p.refresh_token_hash p.created_at
          p.session_expires_at p.session_ttl
      ∷ []

  unfoldable pub verify_otp_and_create_session : LoginParams → Action W Unit
  unfolding classify_tx_error
  verify_otp_and_create_session p w =
      let (r, w') = t.db.transact_write_items (login_items p) w in
      (classified "verify otp and create session" r, w')

  unfoldable pub auth_transactor : AuthTransactor W
  auth_transactor = record {
    verify_otp_and_create_user = verify_otp_and_create_user;
    verify_otp_and_create_session = verify_otp_and_create_session;
  }
