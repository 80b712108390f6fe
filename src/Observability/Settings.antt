-- ===== src/Observability/Settings.antt =====
-- internal/observability: the settings that logging, tracing and metrics are started with.
use realtime_messaging_platf.Prelude.{String}

pub record LogConfig : Type 0 where
  pub level : String
  pub format : String
  pub service_name : String
  pub environment : String

pub record TracerConfig : Type 0 where
  pub service_name : String
  pub service_version : String
  pub environment : String
  pub otlp_endpoint : String

pub record MetricsConfig : Type 0 where
  pub service_name : String
  pub service_version : String
  pub environment : String
  pub otlp_endpoint : String
