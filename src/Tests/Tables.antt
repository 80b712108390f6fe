-- ===== src/Tests/Tables.antt =====
-- The stores over a database that is one table in memory.
use realtime_messaging_platf.Prelude.{
  ℕ, ◌≡◌, ap, sym, ◌∙◌, ◌&&◌, ◌==◌, ==_iff, none, some, String, str_eq, [], ◌∷◌, Option,
  if◌then◌else◌, arith,
}
use realtime_messaging_platf.Domain.Errors.{plain, conditional_check_failed}
use realtime_messaging_platf.Effect.{Result, ok, err}
use realtime_messaging_platf.Auth.Runtime.{Runtime}
use realtime_messaging_platf.Dynamo.{
  AttributeValue, AttributeMap, text, number, Client, Codec, GetItemInput,
}
use realtime_messaging_platf.Chatmgmt.App.{OtpRecord}
use realtime_messaging_platf.Chatmgmt.Adapter.Otps.{OtpItem, create_otp}
use realtime_messaging_platf.Chatmgmt.Adapter.Otps.Kept.{TableContract}

abbrev pub Table : Type 0
Table = String → Option AttributeMap

abbrev pub runtime : Runtime Table
runtime = record {
  now = λ w. (7, w);
  new_uuid = λ w. ("s-new", w);
  rand_int = λ max w. (ok 123456, w);
  rand_read = λ n w. (ok [], w);
  sha256_hex = λ m. m;
  hmac_sha256_hex = λ key m. m;
  raw_url_encode = λ b. "r-new";
  format_rfc3339 = λ t. "2026-01-01T00:00:00Z";
  parse_rfc3339 = λ t. ok 1000;
}

abbrev pub key_of : AttributeMap → String
key_of [] = ""
key_of ((name, text t) ∷ rest) = t
key_of ((name, number n) ∷ rest) = n

abbrev pub db : Client Table
db = record {
  get_item = λ request w. (ok (w (key_of request.key)), w);
  put_item =
      λ request w. (ok tt, λ h. if str_eq (key_of request.item) h then some request.item else w h);
  update_item = λ request w. (ok tt, w);
  query = λ request w. (ok [], w);
  delete_item = λ request w. (ok tt, w);
  transact_write_items = λ items w. (ok tt, w);
}

-- Items without a failed attempt and without a lifetime are the ones that it can write.
abbrev pub otp_attributes : OtpItem → AttributeMap
otp_attributes item =
    ("phone_hash", text item.phone_hash)
    ∷ ("otp_mac", text item.otp_mac)
    ∷ ("otp_ciphertext", text item.otp_ciphertext)
    ∷ ("created_at", text item.created_at)
    ∷ ("expires_at", text item.expires_at)
    ∷ ("status", text item.status)
    ∷ []

abbrev pub text_of : AttributeValue → String
text_of (text t) = t
text_of (number n) = n

abbrev pub otp_item : AttributeMap → Result OtpItem
otp_item ((_, a) ∷ (_, b) ∷ (_, c) ∷ (_, d) ∷ (_, e) ∷ (_, f) ∷ rest) = ok (record {
  phone_hash = text_of a;
  otp_mac = text_of b;
  otp_ciphertext = text_of c;
  created_at = text_of d;
  expires_at = text_of e;
  attempt_count = 0;
  status = text_of f;
  ttl = 0;
})
otp_item rest = err (plain "missing attributes")

abbrev otp_codec : Codec OtpItem
otp_codec = record {
  marshal_map = λ item.
      if item.attempt_count == 0 && item.ttl == 0
      then ok (otp_attributes item)
      else err (plain "number");
  unmarshal_map = otp_item;
}

otp_marshalled :
    (item : OtpItem) (m : AttributeMap)
    → otp_codec.marshal_map item ≡ ok m
    → (otp_codec.unmarshal_map m ≡ ok item) × (key_of m ≡ item.phone_hash)
otp_marshalled item m h =
    let attributes : m ≡ otp_attributes item = ground arith in
    let attempts : 0 ≡ item.attempt_count = ground (arith, ==_iff item.attempt_count 0) in
    let lifetime : 0 ≡ item.ttl = ground (arith, ==_iff item.ttl 0) in
    (
      ap otp_item attributes
          ∙ ap (λ (a : ℕ). ok (record item { attempt_count = a; ttl = 0 })) attempts
          ∙ ap (λ (t : ℕ). ok (record item { ttl = t })) lifetime,
      ap key_of attributes,
    )

get-ok :
    (request : GetItemInput) (w w' : Table) (h : String) (m : Option AttributeMap)
    → request.key ≡ ("phone_hash", text h) ∷ []
    → db.get_item request w ≡ (ok m, w')
    → m ≡ w h
get-ok request w w' h m key e = ground (arith, ap (λ (k : AttributeMap). w (key_of k)) key)

abbrev table_contract : TableContract db otp_codec "otp_requests"
table_contract = record {
  item_at = λ w h. w h;
  key_of = key_of;
  put_ok = λ request w w' h named e. sym (ap (λ (x : Result Unit × Table). x.1 h) e);
  get_ok = λ request w w' h m named key consistent e. get-ok request w w' h m key e;
  marshalled = otp_marshalled;
}

abbrev otp_record : OtpRecord
otp_record = record {
  phone_hash = "h";
  otp_mac = "m";
  otp_ciphertext = "";
  created_at = "c";
  expires_at = "e";
  status = "pending";
  attempt_count = 0;
  ttl = 0;
}

abbrev pub empty : Table
empty = λ h. none

abbrev with_otp : Table
with_otp = (create_otp runtime db otp_codec "otp_requests" otp_record empty).1

abbrev refusing : Client Table
refusing = record db { put_item = λ request w. (err conditional_check_failed, w) }
