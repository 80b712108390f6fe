-- ===== src/Chatmgmt/Adapter/Otps.antt =====
-- internal/chatmgmt/adapter/dynamo_otp.go.
pub mod Kept
pub mod Sent
use realtime_messaging_platf.Prelude.{
  ℕ, String, List, [], ◌∷◌, Option, none, some, Bool, true, if◌then◌else◌,
}
use realtime_messaging_platf.Domain.Errors.{Error, sentinel, wrap, already_exists, not_found}
use realtime_messaging_platf.Effect.{Result, ok, err, Action, label, attempt, call, ◌>>=◌, ◌>>◌}
use realtime_messaging_platf.Auth.Runtime.{Runtime}
use realtime_messaging_platf.Dynamo.{
  AttributeMap, text, number, Client, Codec, PutItemInput, GetItemInput, UpdateItemInput,
  is_conditional_check_failed,
}
use realtime_messaging_platf.Chatmgmt.App.{OtpRecord, OtpStore}

pub record OtpItem : Type 0 where
  pub phone_hash : String
  pub otp_mac : String
  pub otp_ciphertext : String
  pub created_at : String
  pub expires_at : String
  pub attempt_count : ℕ
  pub status : String
  pub ttl : ℕ

unfoldable pub to_otp_item : OtpRecord → OtpItem
to_otp_item r = record {
  phone_hash = r.phone_hash;
  otp_mac = r.otp_mac;
  otp_ciphertext = r.otp_ciphertext;
  created_at = r.created_at;
  expires_at = r.expires_at;
  attempt_count = r.attempt_count;
  status = r.status;
  ttl = r.ttl;
}

unfoldable pub from_otp_item : OtpItem → OtpRecord
from_otp_item item = record {
  phone_hash = item.phone_hash;
  otp_mac = item.otp_mac;
  otp_ciphertext = item.otp_ciphertext;
  created_at = item.created_at;
  expires_at = item.expires_at;
  status = item.status;
  attempt_count = item.attempt_count;
  ttl = item.ttl;
}

-- The answer to a conditional write.
unfoldable pub written : Result Unit → Result Unit
written (ok u) = ok u
written (err e) =
    if is_conditional_check_failed e
    then err (wrap "otp store: create otp" (sentinel already_exists))
    else err (wrap "otp store: create otp" e)

module _ {W : Type 0} (rt : Runtime W) (db : Client W) (codec : Codec OtpItem)
    (table_name : String) where
  unfoldable pub put_request : AttributeMap → ℕ → PutItemInput
  put_request item now = record {
    table_name = table_name;
    item = item;
    condition_expression = "attribute_not_exists(phone_hash) OR #st = :verified OR #ea < :now";
    expression_attribute_names = ("#st", "status") ∷ ("#ea", "expires_at") ∷ [];
    expression_attribute_values =
        (":verified", text "verified") ∷ (":now", text (rt.format_rfc3339 now)) ∷ [];
  }

  put_marshalled : AttributeMap → Action W Unit
  put_marshalled item w =
      let (now, w1) = rt.now w in
      let (r, w2) = db.put_item (put_request item now) w1 in (written r, w2)

  unfoldable pub create_otp : OtpRecord → Action W Unit
  unfolding put_marshalled
  create_otp r = do
    item ← label "otp store: marshal item" (λ w. (codec.marshal_map (to_otp_item r), w))
    put_marshalled item

  unfoldable pub get_request : String → GetItemInput
  get_request phone_hash = record {
    table_name = table_name;
    key = ("phone_hash", text phone_hash) ∷ [];
    consistent_read = true;
  }

  unfoldable pub read_item : Option AttributeMap → Result OtpRecord
  read_item none = err (wrap "otp store: get otp" (sentinel not_found))
  read_item (some m) = elim (codec.unmarshal_map m) [
    | ok item ↦ ok (from_otp_item item)
    | err e ↦ err (wrap "otp store: unmarshal otp" e)
  ]

  unfoldable pub get_otp : String → Action W OtpRecord
  get_otp phone_hash = do
    item ← label "otp store: get otp" (db.get_item (get_request phone_hash))
    (λ w. (read_item item, w))

  unfoldable pub increment_attempts : String → Action W Unit
  increment_attempts phone_hash = label "otp store: increment attempts" (
      db.update_item (record {
        table_name = table_name;
        key = ("phone_hash", text phone_hash) ∷ [];
        update_expression = "SET attempt_count = attempt_count + :one";
        condition_expression = "";
        expression_attribute_names = [];
        expression_attribute_values = (":one", number "1") ∷ [];
      }))

  unfoldable pub otp_store : OtpStore W
  otp_store = record {
    create_otp = create_otp;
    get_otp = get_otp;
    increment_attempts = increment_attempts;
  }
