-- ===== src/Tests/Sent.antt =====
-- A request for a code over a table of one-time passwords in memory, with an outbox.
use realtime_messaging_platf.Prelude.{
  ℕ, ◌≡◌, ◌⊎◌, refl, ap, sym, ◌∙◌, true, false, ◌&&◌, ◌==◌, ==_iff, String, str_eq, Option, some,
  none, List, [], ◌∷◌, if◌then◌else◌, arith,
}
use realtime_messaging_platf.Domain.Errors.{Error, plain, sentinel, not_found}
use realtime_messaging_platf.Domain.Phone.{matches_e164, new_phone_number}
use realtime_messaging_platf.Effect.{Result, ok, err}
use realtime_messaging_platf.Auth.Runtime.{Runtime, unix}
use realtime_messaging_platf.Auth.Otp.{hash_phone, verify_otp_mac, generate_otp}
use realtime_messaging_platf.Dynamo.{AttributeMap, text, Client, Codec, PutItemInput, GetItemInput}
use realtime_messaging_platf.Chatmgmt.App.{AuthService, OtpRecord, RequestOtpResult}
use realtime_messaging_platf.Chatmgmt.App.Contract.{Delivery}
use realtime_messaging_platf.Chatmgmt.App.RequestOtp.{
  request_otp, check_phone_limit, check_ip_limit, issue_otp,
}
use realtime_messaging_platf.Chatmgmt.Adapter.Otps.{
  OtpItem, create_otp, get_otp, get_request, otp_store, written, put_request, to_otp_item,
}
use realtime_messaging_platf.Chatmgmt.Adapter.Otps.Kept.{TableContract}
use realtime_messaging_platf.Chatmgmt.Adapter.Otps.Sent.{
  QuietContract, stored_service, request_otp-get_otp,
}
use realtime_messaging_platf.Tests.Memory.{claims}
use realtime_messaging_platf.Tests.Tables.{Table, key_of, otp_attributes, otp_item}

record Office : Type 0 where
  table : Table
  outbox : List (String × String)

abbrev runtime : Runtime Office
runtime = record {
  now = λ w. (7, w);
  new_uuid = λ w. ("u-1", w);
  rand_int = λ max w. (ok 123456, w);
  rand_read = λ n w. (ok [], w);
  sha256_hex = λ m. m;
  hmac_sha256_hex = λ key m. m;
  raw_url_encode = λ b. "r-new";
  format_rfc3339 = λ t. "2026-01-01T00:00:00Z";
  parse_rfc3339 = λ t. ok 1000;
}

abbrev db : Client Office
db = record {
  get_item = λ request w. (ok (w.table (key_of request.key)), w);
  put_item = λ request w. (
    ok tt,
    record w {
      table = λ h. if str_eq (key_of request.item) h then some request.item else w.table h;
    },
  );
  update_item = λ request w. (ok tt, w);
  query = λ request w. (ok [], w);
  delete_item = λ request w. (ok tt, w);
  transact_write_items = λ items w. (ok tt, w);
}

abbrev lasting : Result OtpItem → Result OtpItem
lasting (ok item) = ok (record item { ttl = 300 })
lasting (err e) = err e

-- Items without a failed attempt and with one lifetime are the ones that it can write.
abbrev codec : Codec OtpItem
codec = record {
  marshal_map = λ item.
      if item.attempt_count == 0 && item.ttl == 300
      then ok (otp_attributes item)
      else err (plain "number");
  unmarshal_map = λ m. lasting (otp_item m);
}

marshalled :
    (item : OtpItem) (m : AttributeMap)
    → codec.marshal_map item ≡ ok m
    → (codec.unmarshal_map m ≡ ok item) × (key_of m ≡ item.phone_hash)
marshalled item m h =
    let attributes : m ≡ otp_attributes item = ground arith in
    let attempts : 0 ≡ item.attempt_count = ground (arith, ==_iff item.attempt_count 0) in
    let lifetime : 300 ≡ item.ttl = ground (arith, ==_iff item.ttl 300) in
    (
      ap (λ (a : AttributeMap). lasting (otp_item a)) attributes
          ∙ ap (λ (a : ℕ). ok (record item { attempt_count = a; ttl = 300 })) attempts
          ∙ ap (λ (t : ℕ). ok (record item { ttl = t })) lifetime,
      ap key_of attributes,
    )

get-ok :
    (request : GetItemInput) (w w' : Office) (h : String) (m : Option AttributeMap)
    → request.key ≡ ("phone_hash", text h) ∷ []
    → db.get_item request w ≡ (ok m, w')
    → m ≡ w.table h
get-ok request w w' h m key e = ground (arith, ap (λ (k : AttributeMap). w.table (key_of k)) key)

abbrev table_contract : TableContract db codec "otp_requests"
table_contract = record {
  item_at = λ w. w.table;
  key_of = key_of;
  put_ok = λ request w w' h named e. sym (ap (λ (x : Result Unit × Office). x.1.table h) e);
  get_ok = λ request w w' h m named key consistent e. get-ok request w w' h m key e;
  marshalled = marshalled;
}

accepts :
    (request : PutItemInput) (w w' : Office) (e : Error) → db.put_item request w ≡ (err e, w') → ⊥
accepts request w w' e h = ground arith

abbrev quiet : QuietContract runtime db codec "otp_requests" table_contract
quiet = record {
  now_keeps = λ w. refl;
  get_keeps = λ request w. refl;
  put_refused = λ request w w' e h _. absurd (accepts request w w' e h);
  put_error = λ request w w' e h. absurd (accepts request w w' e h);
}

abbrev service : AuthService Office Unit Unit
service = record {
  runtime = runtime;
  jwt_library = record {
    numeric_date = λ t. t;
    sign = λ k kid c w. (ok "access-new", w);
    parse_with_claims =
        λ token key_func options w. (record { claims = claims; has_token = true; error = none }, w);
  };
  otp_store = otp_store runtime db codec "otp_requests";
  user_store = record {
    get_by_id = λ id w. (err (sentinel not_found), w);
    find_by_phone = λ p w. (err (sentinel not_found), w);
  };
  session_store = record {
    create = λ r w. (ok tt, w);
    get_by_id = λ id w. (err (sentinel not_found), w);
    list_by_user = λ u w. (ok [], w);
    update = λ id u w. (ok tt, w);
    delete = λ id w. (ok tt, w);
  };
  transactor = record {
    verify_otp_and_create_user = λ p w. (ok tt, w);
    verify_otp_and_create_session = λ p w. (ok tt, w);
  };
  rate_limiter = record {
    check_and_increment = λ k limit window w. ((true, none), w);
    check_lockout = λ k w. ((false, none), w);
    set_lockout = λ k ttl w. (ok tt, w);
  };
  revocation_store = record {
    revoke = λ jti w. (ok tt, w);
    is_revoked = λ jti w. ((false, none), w);
  };
  go_send_otp = λ phone otp w. record w { outbox = (phone, otp) ∷ w.outbox };
  sort_slice = λ less sessions. sessions;
  minter = record {
    key_store = record {
      signing_key = λ w. (ok (tt, "dev-key-001"), w);
      public_key = λ kid w. (ok tt, w);
    };
    access_ttl = 3600;
    issuer = "messaging-platform";
    audience = "messaging-api";
  };
  validator = record {
    key_store = record {
      signing_key = λ w. (ok (tt, "dev-key-001"), w);
      public_key = λ kid w. (ok tt, w);
    };
    issuer = "messaging-platform";
    audience = "messaging-api";
  };
  pepper = "pepper";
}

create-outbox :
    (r : OtpRecord) (w : Office)
    → (create_otp runtime db codec "otp_requests" r w).1.outbox ≡ w.outbox
unfolding create_otp put_request
create-outbox r w = ground arith

get-outbox :
    (h : String) (w : Office) → (get_otp runtime db codec "otp_requests" h w).1.outbox ≡ w.outbox
unfolding get_otp
get-outbox h w = ground arith

abbrev delivery : Delivery (stored_service service db codec "otp_requests" table_contract quiet)
unfolding otp_store
delivery = record {
  outbox = λ w. w.outbox;
  sends = λ phone otp w. refl;
  check_keeps = λ k limit window w. refl;
  rand_keeps = λ max w. refl;
  now_keeps = λ w. refl;
  create_keeps = create-outbox;
  get_keeps = get-outbox;
}

abbrev empty : Office
empty = record { table = λ h. none; outbox = [] }

abbrev requested : Result RequestOtpResult × Office
requested =
    request_otp (stored_service service db codec "otp_requests" table_contract quiet) "+15551234567"
      "203.0.113.9" empty

request_otp-get_otp_example :
    (requested.1.outbox ≡ [])
    ⊎ ((otp : String) × (requested.1.outbox ≡ ("+15551234567", otp) ∷ [])
        × ((o : OtpRecord) × (get_otp runtime db codec "otp_requests"
                (hash_phone runtime "+15551234567")
                requested.1
              ≡ (ok o, requested.1))
            × (o.status ≡ "pending")
            × (o.attempt_count ≡ 0)
            × (verify_otp_mac runtime "pepper" otp
                  (hash_phone runtime "+15551234567")
                  o.expires_at
                  o.otp_mac
                ≡ true)
            × (o.expires_at ≡ runtime.format_rfc3339 300_000_000_007)))
unfolding delivery request_otp new_phone_number matches_e164 check_phone_limit check_ip_limit
    issue_otp generate_otp otp_store create_otp to_otp_item written get_request unix
request_otp-get_otp_example =
    request_otp-get_otp service db codec "otp_requests" table_contract quiet delivery
      (λ _ _ _. refl) "+15551234567" "203.0.113.9" empty requested.1 requested.1
      (record { expires_at = 300_000_000_007; retry_after_seconds = 60 })
      (requested.1.table (hash_phone runtime "+15551234567")) refl refl
