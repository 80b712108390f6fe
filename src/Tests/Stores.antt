-- ===== src/Tests/Stores.antt =====
-- The transactor, the sessions and the users over databases with fixed answers.
use realtime_messaging_platf.Prelude.{
  ◌↔◌, ℕ, ◌≡◌, refl, ap, ◌∙◌, true, ◌&&◌, ◌==◌, ==_iff, String, [], ◌∷◌, if◌then◌else◌, arith,
}
use realtime_messaging_platf.Domain.Errors.{Error, plain, transaction_canceled, is, already_exists}
use realtime_messaging_platf.Effect.{Result, ok, err}
use realtime_messaging_platf.Dynamo.{AttributeMap, text, Client, Codec}
use realtime_messaging_platf.Chatmgmt.App.{SessionRecord, RegistrationParams, LoginParams}
use realtime_messaging_platf.Chatmgmt.Adapter.Transactor.{
  Transactor, verify_otp_and_create_user, verify_otp_and_create_session,
}
use realtime_messaging_platf.Chatmgmt.Adapter.Transactor.Refusals.{
  Conflict, transactions-already_exists,
}
use realtime_messaging_platf.Chatmgmt.Adapter.Sessions.{SessionItem}
use realtime_messaging_platf.Chatmgmt.Adapter.Users.{UserItem}
use realtime_messaging_platf.Tests.Tables.{Table, db, empty, text_of}

abbrev canceled : Error
canceled = transaction_canceled ("ConditionalCheckFailed" ∷ "" ∷ [])

abbrev user : UserItem
user = record {
  user_id = "phone#+15551234567";
  phone_number = "+15551234567";
  display_name = "";
  created_at = "";
  updated_at = "";
}

abbrev user_codec : Codec UserItem
user_codec = record { marshal_map = λ u. ok []; unmarshal_map = λ m. ok user }

abbrev transactor : Transactor Table
transactor = record {
  db = record db { transact_write_items = λ items w. (err canceled, w) };
  otp_table = "otp_requests";
  users_table = "users";
  sessions_table = "sessions";
  user_codec = user_codec;
  session_codec = record { marshal_map = λ r. ok []; unmarshal_map = λ m. err (plain "none") };
}

abbrev registration : RegistrationParams
registration = record {
  phone_hash = "h";
  otp_expires_at = "e";
  otp_mac = "m";
  user_id = "u-1";
  phone_number = "+15551234567";
  now = "n";
  session_id = "s-1";
  device_id = "d-1";
  refresh_token_hash = "r";
  session_expires_at = "x";
  session_ttl = 9;
}

abbrev login : LoginParams
login = record {
  phone_hash = "h";
  otp_expires_at = "e";
  otp_mac = "m";
  session_id = "s-1";
  user_id = "u-1";
  device_id = "d-1";
  refresh_token_hash = "r";
  created_at = "n";
  session_expires_at = "x";
  session_ttl = 9;
}

transactions-already_exists_example :
    ((e' : Error) × (verify_otp_and_create_user transactor registration empty ≡ (err e', empty))
      × ((is e' already_exists ≡ true) ↔ Conflict canceled))
    × ((f' : Error) × (verify_otp_and_create_session transactor login empty ≡ (err f', empty))
        × ((is f' already_exists ≡ true) ↔ Conflict canceled))
unfolding is
transactions-already_exists_example =
    transactions-already_exists transactor registration login empty empty empty empty canceled
      canceled refl refl refl refl

abbrev session_attributes : SessionItem → AttributeMap
session_attributes item =
    ("session_id", text item.session_id)
    ∷ ("user_id", text item.user_id)
    ∷ ("device_id", text item.device_id)
    ∷ ("refresh_token_hash", text item.refresh_token_hash)
    ∷ ("prev_token_hash", text item.prev_token_hash)
    ∷ ("created_at", text item.created_at)
    ∷ ("expires_at", text item.expires_at)
    ∷ []

abbrev session_item : AttributeMap → Result SessionItem
session_item ((_, a) ∷ (_, b) ∷ (_, c) ∷ (_, d) ∷ (_, e) ∷ (_, f) ∷ (_, g) ∷ rest) = ok (record {
  session_id = text_of a;
  user_id = text_of b;
  device_id = text_of c;
  refresh_token_hash = text_of d;
  token_generation = 1;
  prev_token_hash = text_of e;
  created_at = text_of f;
  expires_at = text_of g;
  ttl = 0;
})
session_item rest = err (plain "missing attributes")

-- Sessions of the first generation without a lifetime are the ones that it can write.
abbrev session_codec : Codec SessionItem
session_codec = record {
  marshal_map = λ item.
      if item.token_generation == 1 && item.ttl == 0
      then ok (session_attributes item)
      else err (plain "number");
  unmarshal_map = session_item;
}

session_marshalled :
    (item : SessionItem) (m : AttributeMap)
    → session_codec.marshal_map item ≡ ok m
    → session_codec.unmarshal_map m ≡ ok item
session_marshalled item m h =
    let attributes : m ≡ session_attributes item = ground arith in
    let first : 1 ≡ item.token_generation = ground (arith, ==_iff item.token_generation 1) in
    let lifetime : 0 ≡ item.ttl = ground (arith, ==_iff item.ttl 0) in
    ap session_item attributes
    ∙ ap (λ (n : ℕ). ok (record item { token_generation = n; ttl = 0 })) first
    ∙ ap (λ (t : ℕ). ok (record item { ttl = t })) lifetime

abbrev session : String → SessionRecord
session id = record {
  session_id = id;
  user_id = "u-1";
  device_id = "d-1";
  refresh_token_hash = "r";
  prev_token_hash = "";
  created_at = "c";
  expires_at = "e";
  token_generation = 1;
  ttl = 0;
}

abbrev item : String → AttributeMap
item id =
    ("session_id", text id)
    ∷ ("user_id", text "u-1")
    ∷ ("device_id", text "d-1")
    ∷ ("refresh_token_hash", text "r")
    ∷ ("prev_token_hash", text "")
    ∷ ("created_at", text "c")
    ∷ ("expires_at", text "e")
    ∷ []

abbrev listing : Client Table
listing = record db { query = λ request w. (ok (item "s-2" ∷ item "s-1" ∷ []), w) }
