-- ===== src/Commands/Setup.antt =====
-- cmd/chatmgmt/setup.go: how the chat management service is put together. The libraries, the Go
-- runtime, the codecs and the generated registration code are parameters; log lines are left out.
pub mod Tokens
use realtime_messaging_platf.Prelude.{
  ℕ, Bool, true, false, ◌||◌, String, str_eq, List, [], ◌∷◌, Option, none, some, if◌then◌else◌,
}
use realtime_messaging_platf.Domain.Errors.{plain}
use realtime_messaging_platf.Domain.Constants.{access_token_lifetime}
use realtime_messaging_platf.Effect.{Result, ok, err, Action, pure, fail, label, call, ◌>>=◌, ◌>>◌}
use realtime_messaging_platf.Config.Defaults.{Config, ℤ, is_local}
use realtime_messaging_platf.Auth.Runtime.{Runtime}
use realtime_messaging_platf.Auth.Keys.{new_static_key_store, static_key_store}
use realtime_messaging_platf.Auth.Tokens.{KeyStore, JwtLibrary, Minter, Validator}
use realtime_messaging_platf.Dynamo.{Client, Codec}
use realtime_messaging_platf.Dynamo.Factory.{AwsSdk, new_client}
use realtime_messaging_platf.Chatmgmt.App.{AuthService, UserRecord, SessionRecord}
use realtime_messaging_platf.Chatmgmt.App.RequestOtp.{request_otp}
use realtime_messaging_platf.Chatmgmt.App.VerifyOtp.{verify_otp}
use realtime_messaging_platf.Chatmgmt.App.RefreshTokens.{refresh_tokens}
use realtime_messaging_platf.Chatmgmt.App.Logout.{logout}
use realtime_messaging_platf.Chatmgmt.Port.{AuthFlows}
use realtime_messaging_platf.Chatmgmt.Adapter.Otps.{OtpItem, otp_store}
use realtime_messaging_platf.Chatmgmt.Adapter.Users.{UserItem, user_store}
use realtime_messaging_platf.Chatmgmt.Adapter.Sessions.{SessionItem, session_store}
use realtime_messaging_platf.Chatmgmt.Adapter.Transactor.{Transactor, auth_transactor}
use realtime_messaging_platf.Chatmgmt.Adapter.Redis.{
  Commands, Cmdable, rate_limiter, revocation_store,
}
use realtime_messaging_platf.Chatmgmt.Adapter.Sms.{SmsProvider, Logger, log_sms_provider}

abbrev pub otp_requests_table : String
otp_requests_table = "otp_requests"

abbrev pub users_table : String
users_table = "users"

abbrev pub sessions_table : String
sessions_table = "sessions"

abbrev pub jwt_issuer : String
jwt_issuer = "messaging-platform"

abbrev pub jwt_audience : String
jwt_audience = "messaging-api"

abbrev pub dev_pepper : String
dev_pepper = "local-dev-pepper-32-bytes-ok!!"

-- redis.Config, which redis.NewClient passes on to the library as it is.
pub record RedisOptions : Type 0 where
  pub addr : String
  pub password : String
  pub db : ℤ
  pub read_timeout : ℤ
  pub write_timeout : ℤ

pub record RedisClient (D W : Type 0) : Type 0 where
  pub rdb : Cmdable D W
  pub close : Action W Unit

-- What the set-up takes from elsewhere.
pub record Platform (W K P D A : Type 0) : Type 0 where
  pub runtime : Runtime W
  pub jwt_library : JwtLibrary W K P
  pub aws_sdk : AwsSdk W A
  pub new_redis : RedisOptions → W → RedisClient D W × W
  pub redis_server : Commands D
  pub otp_codec : Codec OtpItem
  pub user_codec : Codec UserItem
  pub user_id_codec : Codec String
  pub session_codec : Codec SessionItem
  pub format_int : ℕ → String
  -- Err of the context of a request.
  pub context_err : Action W Unit
  pub sort_slice : (SessionRecord → SessionRecord → Bool) → List SessionRecord → List SessionRecord
  pub logger : Logger W
  -- rsa.GenerateKey with a number of bits, and the public part of a key.
  pub generate_key : ℕ → Action W K
  pub public_of : K → P
  -- The `go` statement on a delivery, with the wait group's count, and the group's Wait.
  pub go_background : Action W Unit → W → W
  pub wait_background : W → W
  -- RegisterAuthServiceServer, RegisterAuthServiceHandlerServer with a header matcher, and the two
  -- calls of HTTPMux.Handle.
  pub register_server : AuthFlows W → W → W
  pub register_gateway : (String → Option String) → AuthFlows W → Action W Unit
  pub handle_http : W → W
  pub to_lower : String → String
  pub default_header_matcher : String → Option String

module _ {W K P D A : Type 0} (p : Platform W K P D A) where
  dev_key_store : Action W (KeyStore W K P)
  dev_key_store = do
    key ← label "generate dev RSA key" (p.generate_key 2048)
    pure (static_key_store (λ w. new_static_key_store p.public_of key "dev-key-001"))

  unfoldable pub create_key_store : Config → Action W (KeyStore W K P)
  unfolding dev_key_store
  create_key_store cfg =
      if is_local cfg
      then dev_key_store
      else fail (plain "production key store not yet implemented (TF-1)")

  -- The same provider on both branches.
  unfoldable pub create_sms_provider : Config → SmsProvider W
  create_sms_provider cfg =
      if is_local cfg then log_sms_provider p.logger else log_sms_provider p.logger

  unfoldable pub custom_header_matcher : String → Option String
  custom_header_matcher key =
      let k = p.to_lower key in
      if str_eq k "x-device-id" || str_eq k "x-forwarded-for"
      then some key
      else p.default_header_matcher key

  transactor : Client W → Transactor W
  transactor db = record {
    db = db;
    otp_table = otp_requests_table;
    users_table = users_table;
    sessions_table = sessions_table;
    user_codec = p.user_codec;
    session_codec = p.session_codec;
  }

  unfoldable pub auth_service :
      Config → Client W → RedisClient D W → KeyStore W K P → AuthService W K P
  unfolding transactor
  auth_service cfg db redis key_store = record {
    runtime = p.runtime;
    jwt_library = p.jwt_library;
    otp_store = otp_store p.runtime db p.otp_codec otp_requests_table;
    user_store = user_store db p.user_codec p.user_id_codec p.context_err users_table;
    session_store = session_store p.runtime db p.session_codec p.format_int sessions_table;
    transactor = auth_transactor (transactor db);
    rate_limiter = rate_limiter p.redis_server redis.rdb;
    revocation_store = revocation_store p.redis_server redis.rdb;
    go_send_otp = λ phone otp. p.go_background ((create_sms_provider cfg).send_otp phone otp);
    sort_slice = p.sort_slice;
    minter = record {
      key_store = key_store;
      access_ttl = access_token_lifetime;
      issuer = jwt_issuer;
      audience = jwt_audience;
    };
    validator = record { key_store = key_store; issuer = jwt_issuer; audience = jwt_audience };
    pepper = dev_pepper;
  }

  abbrev pub flows : AuthService W K P → AuthFlows W
  flows s = record {
    request_otp = request_otp s;
    verify_otp = verify_otp s;
    refresh_tokens = refresh_tokens s;
    logout = logout s;
  }

  -- The clean-up function, which does not look at its deadline.
  unfoldable pub cleanup : RedisClient D W → ℕ → Action W Unit
  cleanup redis deadline w = redis.close (p.wait_background w)

  -- The service comes back beside the clean-up function, for the theorems.
  unfoldable pub setup : Config → Action W (AuthService W K P × (ℕ → Action W Unit))
  setup cfg = do
    db ← label "chatmgmt setup: create dynamo client" (
        new_client p.aws_sdk (record {
          endpoint = cfg.dynamo_db.endpoint;
          region = cfg.aws.region;
          timeout = cfg.dynamo_db.timeout;
        }))
    redis ← call (
        p.new_redis (record {
          addr = cfg.redis.addr;
          password = cfg.redis.password;
          db = cfg.redis.db;
          read_timeout = cfg.redis.timeout;
          write_timeout = cfg.redis.timeout;
        }))
    key_store ← label "chatmgmt setup: create key store" (create_key_store cfg)
    let s = auth_service cfg db redis key_store
    call (λ w. (tt {0}, p.register_server (flows s) w))
    label "chatmgmt setup: register grpc-gateway"
        (p.register_gateway custom_header_matcher (flows s))
    call (λ w. (tt {0}, p.handle_http w))
    pure (s, cleanup redis)
