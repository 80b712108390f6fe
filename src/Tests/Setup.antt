-- ===== src/Tests/Setup.antt =====
-- A platform on which the chat management service can be put together.
use realtime_messaging_platf.Prelude.{◌≡◌, refl, eq_iff, [], none, arith}
use realtime_messaging_platf.Domain.Errors.{plain}
use realtime_messaging_platf.Effect.{ok, err}
use realtime_messaging_platf.Config.Defaults.{defaults, is_local}
use realtime_messaging_platf.Auth.Keys.{new_static_key_store, static_key_store, static_signing_key}
use realtime_messaging_platf.Auth.Tokens.{Claims, mint_access_token, validate_access_token}
use realtime_messaging_platf.Dynamo.{Client, Codec}
use realtime_messaging_platf.Dynamo.Factory.{new_client}
use realtime_messaging_platf.Chatmgmt.App.{AuthService}
use realtime_messaging_platf.Commands.Setup.{
  Platform, setup, auth_service, cleanup, create_key_store,
}
use realtime_messaging_platf.Commands.Setup.Tokens.{validate_access_token-setup}
use realtime_messaging_platf.Tests.RoundTrip.{Store, runtime, library, contract}

abbrev no_codec : {A : Type 0} → Codec A
no_codec = record { marshal_map = λ a. ok []; unmarshal_map = λ m. err (plain "none") }

abbrev client : Client Store
client = record {
  get_item = λ request w. (ok none, w);
  put_item = λ request w. (ok tt, w);
  update_item = λ request w. (ok tt, w);
  query = λ request w. (ok [], w);
  delete_item = λ request w. (ok tt, w);
  transact_write_items = λ items w. (ok tt, w);
}

abbrev platform : Platform Store Unit Unit Unit Unit
platform = record {
  runtime = runtime;
  jwt_library = library;
  aws_sdk = record {
    load_default_config = λ options w. (ok tt, w);
    with_http_timeout = λ timeout config. config;
    new_from_config = λ config endpoint. client;
  };
  new_redis = λ options w. (
    record {
      rdb = record {
        eval = λ script w. (ok 1, w);
        exists = λ key w. (ok 0, w);
        set = λ key value ttl w. (ok tt, w);
      };
      close = λ w. (ok tt, w);
    },
    w,
  );
  redis_server = record { incr = λ key d. (1, d); expire = λ key seconds d. d };
  otp_codec = no_codec;
  user_codec = no_codec;
  user_id_codec = no_codec;
  session_codec = no_codec;
  format_int = λ n. "0";
  context_err = λ w. (ok tt, w);
  sort_slice = λ less sessions. sessions;
  logger = record { info = λ message attributes w. w };
  generate_key = λ bits w. (ok tt, w);
  public_of = λ key. key;
  go_background = λ delivery w. (delivery w).1;
  wait_background = λ w. w;
  register_server = λ handler w. w;
  register_gateway = λ matcher handler w. (ok tt, w);
  handle_http = λ w. w;
  to_lower = λ s. s;
  default_header_matcher = λ key. none;
}

abbrev start : Store
start = new_static_key_store (λ k. k) tt "dev-key-001"

abbrev service : AuthService Store Unit Unit
service =
    auth_service platform defaults client
      (platform.new_redis
        (record {
          addr = "localhost:6379";
          password = "";
          db = defaults.redis.db;
          read_timeout = defaults.redis.timeout;
          write_timeout = defaults.redis.timeout;
        })
        start).0
      (static_key_store (λ w. start))

validate_access_token-setup_example :
    (defaults.environment ≡ "local")
    × ((claims : Claims) × (validate_access_token runtime library service.validator "signed" start
          ≡ (ok claims, start))
        × (claims.subject ≡ "u-1")
        × (claims.session_id ≡ "s-1")
        × (claims.id ≡ "jti-1"))
unfolding setup is_local defaults auth_service new_client create_key_store mint_access_token
    static_signing_key new_static_key_store static_key_store
validate_access_token-setup_example =
    validate_access_token-setup platform contract defaults start start service
      (cleanup platform
        (platform.new_redis
          (record {
            addr = "localhost:6379";
            password = "";
            db = defaults.redis.db;
            read_timeout = defaults.redis.timeout;
            write_timeout = defaults.redis.timeout;
          })
          start).0)
      "u-1" "s-1" start start
      (record { token = "signed"; jti = "jti-1"; expires_at = 3_600_000_000_007 }) start refl refl
      (ground (arith, eq_iff "s-1" "")) (omega arith)
