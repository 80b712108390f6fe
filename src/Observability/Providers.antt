-- ===== src/Observability/Providers.antt =====
-- internal/observability/tracer.go and metrics.go: the providers of traces and of metrics. The
-- OpenTelemetry library, its exporters and its global providers, is a parameter.
pub mod Start
use realtime_messaging_platf.Prelude.{
  ℕ, Bool, String, List, [], ◌∷◌, Option, none, some, if◌then◌else◌, str_eq, not,
}
use realtime_messaging_platf.Effect.{Result, ok, err, Action, pure, label, call, ◌>>=◌, ◌>>◌}
use realtime_messaging_platf.Observability.Settings.{TracerConfig, MetricsConfig}

-- resource.NewWithAttributes: the attributes of the service, under the library's schema.
pub record Resource : Type 0 where
  pub service_name : String
  pub service_version : String
  pub deployment_environment : String

-- The options of a provider: WithResource, and WithBatcher of an exporter of traces or WithReader
-- of a periodic reader of an exporter of metrics.
pub data ProviderOption (Exporter : Type 0) : Type 0 where
  with_resource : Resource → ProviderOption Exporter
  with_exporter : Exporter → ProviderOption Exporter

-- The library. A context with a deadline is that instant.
pub record Sdk (W Exporter Provider : Type 0) : Type 0 where
  -- Both connect without TLS to the endpoint.
  pub new_trace_exporter : String → Action W Exporter
  pub new_metric_exporter : String → Action W Exporter
  pub new_tracer_provider : List (ProviderOption Exporter) → W → Provider × W
  pub new_meter_provider : List (ProviderOption Exporter) → W → Provider × W
  pub set_tracer_provider : Provider → W → W
  -- The composite propagator of the trace context and the baggage.
  pub set_propagator : W → W
  pub set_meter_provider : Provider → W → W
  pub shutdown : Provider → ℕ → Action W Unit

-- The wrapper of a provider, whose pointer may be nil.
pub record TracerProvider (Provider : Type 0) : Type 0 where
  pub provider : Option Provider

pub record MetricsProvider (Provider : Type 0) : Type 0 where
  pub provider : Option Provider

module _ {W Exporter Provider : Type 0} (s : Sdk W Exporter Provider) where
  -- The exporter's option, with an endpoint only.
  unfoldable pub exporter_options :
      String → (String → Action W Exporter) → String → Action W (List (ProviderOption Exporter))
  exporter_options name new_exporter endpoint =
      if not (str_eq endpoint "")
      then label name (new_exporter endpoint) >>= (λ exporter. pure (with_exporter exporter ∷ []))
      else pure []

  unfoldable pub init_tracer : TracerConfig → Action W (TracerProvider Provider)
  unfolding exporter_options
  init_tracer cfg = do
    opts ← exporter_options "create OTLP exporter" s.new_trace_exporter cfg.otlp_endpoint
    let res : Resource = record {
      service_name = cfg.service_name;
      service_version = cfg.service_version;
      deployment_environment = cfg.environment;
    }
    p ← call (s.new_tracer_provider (with_resource res ∷ opts))
    call (λ w. (tt, s.set_propagator (s.set_tracer_provider p w)))
    pure (record { provider = some p })

  unfoldable pub init_metrics : MetricsConfig → Action W (MetricsProvider Provider)
  unfolding exporter_options
  init_metrics cfg = do
    opts ← exporter_options "create OTLP metric exporter" s.new_metric_exporter cfg.otlp_endpoint
    let res : Resource = record {
      service_name = cfg.service_name;
      service_version = cfg.service_version;
      deployment_environment = cfg.environment;
    }
    p ← call (s.new_meter_provider (with_resource res ∷ opts))
    call (λ w. (tt, s.set_meter_provider p w))
    pure (record { provider = some p })

  unfoldable pub shutdown_tracer : TracerProvider Provider → ℕ → Action W Unit
  shutdown_tracer t deadline = elim t.provider [ none ↦ pure tt | some p ↦ s.shutdown p deadline ]

  unfoldable pub shutdown_metrics : MetricsProvider Provider → ℕ → Action W Unit
  shutdown_metrics t deadline = elim t.provider [ none ↦ pure tt | some p ↦ s.shutdown p deadline ]
