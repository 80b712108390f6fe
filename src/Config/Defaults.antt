-- ===== src/Config/Defaults.antt =====
-- internal/config/config.go: the configuration of the services.
use realtime_messaging_platf.Prelude.{ℕ, Bool, String, str_eq, List, []}
use realtime_messaging_platf.Domain.Constants.{dynamo_db_timeout, redis_timeout}

-- Go's int; `negsuc n` is -(n + 1).
pub data ℤ : Type 0 where
  pos : ℕ → ℤ
  negsuc : ℕ → ℤ

pub record GatewayConfig : Type 0 where
  pub http_port : ℤ
  pub grpc_port : ℤ

pub record IngestConfig : Type 0 where
  pub http_port : ℤ
  pub grpc_port : ℤ

pub record FanoutConfig : Type 0 where
  pub http_port : ℤ

pub record ChatMgmtConfig : Type 0 where
  pub http_port : ℤ
  pub grpc_port : ℤ

-- A timeout is a time.Duration, which is a number of nanoseconds with a sign.
pub record DynamoDbConfig : Type 0 where
  pub endpoint : String
  pub timeout : ℤ

pub record KafkaConfig : Type 0 where
  pub brokers : List String
  pub client_id : String

pub record RedisConfig : Type 0 where
  pub addr : String
  pub password : String
  pub db : ℤ
  pub timeout : ℤ

pub record AwsConfig : Type 0 where
  pub region : String
  pub endpoint : String

pub record OtelConfig : Type 0 where
  pub endpoint : String
  pub service_name : String

pub record Config : Type 0 where
  pub environment : String
  pub log_level : String
  pub log_format : String
  pub gateway : GatewayConfig
  pub ingest : IngestConfig
  pub fanout : FanoutConfig
  pub chat_mgmt : ChatMgmtConfig
  pub dynamo_db : DynamoDbConfig
  pub kafka : KafkaConfig
  pub redis : RedisConfig
  pub aws : AwsConfig
  pub otel : OtelConfig

unfoldable pub defaults : Config
defaults = record {
  environment = "local";
  log_level = "info";
  log_format = "json";
  gateway = record { http_port = pos 8080; grpc_port = pos 9090 };
  ingest = record { http_port = pos 8081; grpc_port = pos 9091 };
  fanout = record { http_port = pos 8082 };
  chat_mgmt = record { http_port = pos 8083; grpc_port = pos 9093 };
  dynamo_db = record { endpoint = ""; timeout = pos dynamo_db_timeout };
  kafka = record { brokers = []; client_id = "messaging-platform" };
  redis = record {
    addr = "localhost:6379";
    password = "";
    db = pos 0;
    timeout = pos redis_timeout;
  };
  aws = record { region = "us-east-1"; endpoint = "" };
  otel = record { endpoint = ""; service_name = "" };
}

unfoldable pub is_local : Config → Bool
is_local c = str_eq c.environment "local"

unfoldable pub is_prod : Config → Bool
is_prod c = str_eq c.environment "prod"
