-- ===== src/Config/Load/Settings.antt =====
-- internal/config/config.go: the settings, with their koanf paths.
use Prim.Native.Char.{code}
use realtime_messaging_platf.Prelude.{Bool, false, ◌==◌, ◌||◌, ◌≡◌, ◌≢◌, String, List, All}
use realtime_messaging_platf.Effect.{ok}
use realtime_messaging_platf.Config.Defaults.{Config, ℤ}
use realtime_messaging_platf.Config.Load.{Koanf}

-- The settings, one for each field that is no struct.
pub data Setting : Type 0 where
  environment log_level log_format : Setting
  gateway_http_port gateway_grpc_port ingest_http_port ingest_grpc_port : Setting
  fanout_http_port chat_mgmt_http_port chat_mgmt_grpc_port : Setting
  dynamo_db_endpoint dynamo_db_timeout kafka_brokers kafka_client_id : Setting
  redis_addr redis_password redis_db redis_timeout : Setting
  aws_region aws_endpoint otel_endpoint otel_service_name : Setting

-- The struct tags on the way to the field, joined by the delimiter.
abbrev pub path : Setting → String
path environment = "environment"
path log_level = "log_level"
path log_format = "log_format"
path gateway_http_port = "gateway.http_port"
path gateway_grpc_port = "gateway.grpc_port"
path ingest_http_port = "ingest.http_port"
path ingest_grpc_port = "ingest.grpc_port"
path fanout_http_port = "fanout.http_port"
path chat_mgmt_http_port = "chatmgmt.http_port"
path chat_mgmt_grpc_port = "chatmgmt.grpc_port"
path dynamo_db_endpoint = "dynamodb.endpoint"
path dynamo_db_timeout = "dynamodb.timeout"
path kafka_brokers = "kafka.brokers"
path kafka_client_id = "kafka.client_id"
path redis_addr = "redis.addr"
path redis_password = "redis.password"
path redis_db = "redis.db"
path redis_timeout = "redis.timeout"
path aws_region = "aws.region"
path aws_endpoint = "aws.endpoint"
path otel_endpoint = "otel.endpoint"
path otel_service_name = "otel.service_name"

pub data Value : Type 0 where
  text : String → Value
  texts : List String → Value
  int : ℤ → Value

abbrev pub value : Setting → Config → Value
value environment c = text c.environment
value log_level c = text c.log_level
value log_format c = text c.log_format
value gateway_http_port c = int c.gateway.http_port
value gateway_grpc_port c = int c.gateway.grpc_port
value ingest_http_port c = int c.ingest.http_port
value ingest_grpc_port c = int c.ingest.grpc_port
value fanout_http_port c = int c.fanout.http_port
value chat_mgmt_http_port c = int c.chat_mgmt.http_port
value chat_mgmt_grpc_port c = int c.chat_mgmt.grpc_port
value dynamo_db_endpoint c = text c.dynamo_db.endpoint
value dynamo_db_timeout c = int c.dynamo_db.timeout
value kafka_brokers c = texts c.kafka.brokers
value kafka_client_id c = text c.kafka.client_id
value redis_addr c = text c.redis.addr
value redis_password c = text c.redis.password
value redis_db c = int c.redis.db
value redis_timeout c = int c.redis.timeout
value aws_region c = text c.aws.region
value aws_endpoint c = text c.aws.endpoint
value otel_endpoint c = text c.otel.endpoint
value otel_service_name c = text c.otel.service_name

abbrev pub has_underscore : String → Bool
has_underscore String.[] = false
has_underscore (String.◌∷◌ c s) = code c == b'_' || has_underscore s

-- What koanf documents: a field is written from the key that is its path, up to case, and stays as
-- it was when no variable's name becomes such a key.
pub record KoanfContract {Keys : Type 0} (k : Koanf Keys) : Type 0 where
  -- The text by which names that differ in case are the same.
  pub fold : String → String
  pub fold-has_underscore : (s : String) → has_underscore (fold s) ≡ has_underscore s
  pub unset :
      (key : String → String) (env : List (String × String)) (keys : Keys) (cfg cfg' : Config)
      (s : Setting)
      → k.load_env key env ≡ ok keys
      → k.unmarshal keys cfg ≡ ok cfg'
      → All (λ (e : String × String). fold (key e.0) ≢ fold (path s)) env
      → value s cfg' ≡ value s cfg
