-- ===== src/Tests/OneTable.antt =====
-- A table of sessions in memory, and a service over it.
use realtime_messaging_platf.Prelude.{
  ℕ, zero, suc, ◌≡◌, refl, ap, sym, ◌∙◌, true, false, String, str_eq, Option, some, none, List, [],
  ◌∷◌, if◌then◌else◌, arith, lookup, eq_refl,
}
use realtime_messaging_platf.Domain.Errors.{plain, sentinel, not_found}
use realtime_messaging_platf.Effect.{Result, ok, err}
use realtime_messaging_platf.Auth.Runtime.{Runtime}
use realtime_messaging_platf.Dynamo.{
  AttributeMap, AttributeValue, text, number, Client, Codec, GetItemInput, TransactWriteItem,
  update_item, put_item,
}
use realtime_messaging_platf.Chatmgmt.App.{AuthService, SessionStore}
use realtime_messaging_platf.Chatmgmt.Adapter.Sessions.{SessionItem, update, session_store}
use realtime_messaging_platf.Chatmgmt.Adapter.Sessions.Stored.{SessionTable, Assigned}
use realtime_messaging_platf.Tests.Memory.{claims}

abbrev pub Table : Type 0
Table = String → Option AttributeMap

-- Numbers are written with as many strokes.
abbrev pub strokes : ℕ → String
strokes zero = ""
strokes (suc n) = String.◌∷◌ "|" (strokes n)

abbrev pub count : String → ℕ
count String.[] = 0
count (String.◌∷◌ c s) = suc (count s)

pub count-strokes : (n : ℕ) → count (strokes n) ≡ n
count-strokes zero = refl
count-strokes (suc n) = ap suc (count-strokes n)

abbrev pub text_at : Option AttributeValue → String
text_at (some (text s)) = s
text_at _ = ""

abbrev pub number_at : Option AttributeValue → ℕ
number_at (some (number s)) = count s
number_at _ = 0

unfoldable pub item_of : AttributeMap → SessionItem
unfolding lookup
item_of m = record {
  session_id = text_at (lookup "session_id" m);
  user_id = text_at (lookup "user_id" m);
  device_id = text_at (lookup "device_id" m);
  refresh_token_hash = text_at (lookup "refresh_token_hash" m);
  token_generation = number_at (lookup "token_generation" m);
  prev_token_hash = text_at (lookup "prev_token_hash" m);
  created_at = text_at (lookup "created_at" m);
  expires_at = text_at (lookup "expires_at" m);
  ttl = number_at (lookup "ttl" m);
}

abbrev pub attributes : SessionItem → AttributeMap
attributes item =
    ("session_id", text item.session_id)
    ∷ ("user_id", text item.user_id)
    ∷ ("device_id", text item.device_id)
    ∷ ("refresh_token_hash", text item.refresh_token_hash)
    ∷ ("token_generation", number (strokes item.token_generation))
    ∷ ("prev_token_hash", text item.prev_token_hash)
    ∷ ("created_at", text item.created_at)
    ∷ ("expires_at", text item.expires_at)
    ∷ ("ttl", number (strokes item.ttl))
    ∷ []

unfoldable pub codec : Codec SessionItem
unfolding item_of
codec = record { marshal_map = λ item. ok (attributes item); unmarshal_map = λ m. ok (item_of m) }

abbrev pub value_at : AttributeMap → String → AttributeValue
unfolding lookup
value_at values placeholder = elim (lookup placeholder values) [ none ↦ text "" | some v ↦ v ]

abbrev pub set_columns : AttributeMap → AttributeMap → AttributeMap
unfolding value_at
set_columns values m =
    ("refresh_token_hash", value_at values ":rth")
    ∷ ("token_generation", value_at values ":gen")
    ∷ ("prev_token_hash", value_at values ":pth")
    ∷ ("expires_at", value_at values ":ea")
    ∷ ("ttl", value_at values ":ttl")
    ∷ m

abbrev pub key_of : AttributeMap → String
key_of [] = ""
key_of ((name, v) ∷ rest) = text_at (some v)

unfoldable pub set_in : String → AttributeMap → Table → Option AttributeMap → Result Unit × Table
unfolding set_columns
set_in id values w none = (err (plain "no item"), w)
set_in id values w (some m) = (ok tt, λ j. if str_eq id j then some (set_columns values m) else w j)

abbrev pub put_all : List TransactWriteItem → Table → Table
unfolding lookup
put_all [] w = w
put_all (update_item update ∷ rest) w = put_all rest w
put_all (put_item put ∷ rest) w =
    put_all rest
      (λ j. if str_eq (text_at (lookup "session_id" put.item)) j then some put.item else w j)

unfoldable pub db : Client Table
unfolding set_in put_all
db = record {
  get_item = λ request w. (ok (w (key_of request.key)), w);
  put_item = λ request w. (ok tt, w);
  update_item = λ request w.
      set_in (key_of request.key) request.expression_attribute_values w (w (key_of request.key));
  query = λ request w. (ok [], w);
  delete_item = λ request w. (ok tt, λ j. if str_eq (key_of request.key) j then none else w j);
  transact_write_items = λ items w. (ok tt, put_all items w);
}

pub get-ok :
    (request : GetItemInput) (w w' : Table) (id : String) (m : Option AttributeMap)
    → request.key ≡ ("session_id", text id) ∷ []
    → db.get_item request w ≡ (ok m, w')
    → m ≡ w id
unfolding db
get-ok request w w' id m key e = ground (arith, ap (λ (k : AttributeMap). w (key_of k)) key)

columns-Assigned :
    (m : AttributeMap) (rth gen pth ea ttl : AttributeValue)
    → Assigned m
        (set_columns
          ((":rth", rth) ∷ (":gen", gen) ∷ (":pth", pth) ∷ (":ea", ea) ∷ (":ttl", ttl) ∷ [])
          m)
        rth
        gen
        pth
        ea
        ttl
unfolding set_columns value_at lookup
columns-Assigned m rth gen pth ea ttl = record {
  refresh_token_hash = refl;
  token_generation = refl;
  prev_token_hash = refl;
  expires_at = refl;
  ttl_at = refl;
  others = λ name a b c d e. rw (a, b, c, d, e) refl;
}

pub set-ok :
    (values : AttributeMap) (key : AttributeMap) (w w' : Table) (id : String) (m : AttributeMap)
    (rth gen pth ea ttl : AttributeValue)
    → key ≡ ("session_id", text id) ∷ []
    → values ≡ (":rth", rth) ∷ (":gen", gen) ∷ (":pth", pth) ∷ (":ea", ea) ∷ (":ttl", ttl) ∷ []
    → set_in (key_of key) values w (w (key_of key)) ≡ (ok tt, w')
    → w id ≡ some m
    → (m' : AttributeMap) × (w' id ≡ some m') × Assigned m m' rth gen pth ea ttl
unfolding set_in
set-ok values key w w' id m rth gen pth ea ttl k v e a =
    let written : AttributeMap =
      (":rth", rth) ∷ (":gen", gen) ∷ (":pth", pth) ∷ (":ea", ea) ∷ (":ttl", ttl) ∷ [] in
    let done : set_in id written w (some m) ≡ (ok tt, w') = rw a at (rw v at (rw k at e)) in
    (
      set_columns written m,
      sym (ap (λ (x : Result Unit × Table). x.1 id) done) ∙ rw (eq_refl id),
      columns-Assigned m rth gen pth ea ttl,
    )

pub decodes :
    (m m' : AttributeMap) (item : SessionItem) (hash prev expires_at : String) (generation ttl : ℕ)
    → codec.unmarshal_map m ≡ ok item
    → Assigned m m'
        (text hash)
        (number (strokes generation))
        (text prev)
        (text expires_at)
        (number (strokes ttl))
    → codec.unmarshal_map m'
      ≡ ok (record item {
        refresh_token_hash = hash;
        token_generation = generation;
        prev_token_hash = prev;
        expires_at = expires_at;
        ttl = ttl;
      })
unfolding codec item_of
decodes m m' item hash prev expires_at generation ttl d a =
    let same : item_of m ≡ item = ground arith in
    rw
      (
        a.refresh_token_hash,
        a.token_generation,
        a.prev_token_hash,
        a.expires_at,
        a.ttl_at,
        a.others "session_id" refl refl refl refl refl,
        a.others "user_id" refl refl refl refl refl,
        a.others "device_id" refl refl refl refl refl,
        a.others "created_at" refl refl refl refl refl,
        count-strokes generation,
        count-strokes ttl,
      )
      (ap
        (λ (i : SessionItem). ok (record i {
          refresh_token_hash = hash;
          token_generation = generation;
          prev_token_hash = prev;
          expires_at = expires_at;
          ttl = ttl;
        }))
        same)

unfoldable pub table : SessionTable db codec strokes "sessions"
unfolding db
table = record {
  item_at = λ w. w;
  get_ok = λ request w w' id m named key consistent e. get-ok request w w' id m key e;
  get_keeps = λ request w. refl;
  set_ok = λ request w w' id m rth gen pth ea ttl named key set free names values e a.
      set-ok request.expression_attribute_values request.key w w' id m rth gen pth ea ttl key values
        e a;
  decodes = decodes;
}

abbrev pub runtime_in : (W : Type 0) → Runtime W
runtime_in W = record {
  now = λ w. (7, w);
  new_uuid = λ w. ("jti-2", w);
  rand_int = λ max w. (ok 123456, w);
  rand_read = λ n w. (ok [], w);
  sha256_hex = λ m. m;
  hmac_sha256_hex = λ key m. m;
  raw_url_encode = λ b. "r-new";
  format_rfc3339 = λ t. "2026-01-01T00:00:00Z";
  parse_rfc3339 = λ t. ok 1000;
}

abbrev pub runtime : Runtime Table
runtime = runtime_in Table

abbrev pub service_in : (W : Type 0) → SessionStore W → AuthService W Unit Unit
service_in W sessions = record {
  runtime = runtime_in W;
  jwt_library = record {
    numeric_date = λ t. t;
    sign = λ k kid c w. (ok "access-new", w);
    parse_with_claims =
        λ token key_func options w. (record { claims = claims; has_token = true; error = none }, w);
  };
  otp_store = record {
    create_otp = λ r w. (ok tt, w);
    get_otp = λ h w. (err (sentinel not_found), w);
    increment_attempts = λ h w. (ok tt, w);
  };
  user_store = record {
    get_by_id = λ id w. (err (sentinel not_found), w);
    find_by_phone = λ p w. (err (sentinel not_found), w);
  };
  session_store = sessions;
  transactor = record {
    verify_otp_and_create_user = λ p w. (ok tt, w);
    verify_otp_and_create_session = λ p w. (ok tt, w);
  };
  rate_limiter = record {
    check_and_increment = λ k limit window w. ((true, none), w);
    check_lockout = λ k w. ((false, none), w);
    set_lockout = λ k ttl w. (ok tt, w);
  };
  revocation_store = record {
    revoke = λ jti w. (ok tt, w);
    is_revoked = λ jti w. ((false, none), w);
  };
  go_send_otp = λ phone otp w. w;
  sort_slice = λ less sessions. sessions;
  minter = record {
    key_store = record {
      signing_key = λ w. (ok (tt, "dev-key-001"), w);
      public_key = λ kid w. (ok tt, w);
    };
    access_ttl = 3600;
    issuer = "messaging-platform";
    audience = "messaging-api";
  };
  validator = record {
    key_store = record {
      signing_key = λ w. (ok (tt, "dev-key-001"), w);
      public_key = λ kid w. (ok tt, w);
    };
    issuer = "messaging-platform";
    audience = "messaging-api";
  };
  pepper = "pepper";
}

abbrev pub service : AuthService Table Unit Unit
service = service_in Table (session_store runtime db codec strokes "sessions")

abbrev pub one_session : Table
one_session id =
    if str_eq "s-1" id
    then some (
        ("session_id", text "s-1")
        ∷ ("user_id", text "u-1")
        ∷ ("device_id", text "d-1")
        ∷ ("refresh_token_hash", text "r-old")
        ∷ ("token_generation", number "||")
        ∷ ("prev_token_hash", text "")
        ∷ [])
    else none
