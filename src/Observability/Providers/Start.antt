-- ===== src/Observability/Providers/Start.antt =====
-- The start of the providers: without an endpoint, and with an exporter that cannot be made.
use realtime_messaging_platf.Prelude.{
  ◌≡◌, String, [], ◌∷◌, some, str_eq, Bool-cases, eq_iff, inl, inr, arith,
}
use realtime_messaging_platf.Effect.{Result-cases, ok, err, Action}
use realtime_messaging_platf.Domain.Errors.{Error, wrap}
use realtime_messaging_platf.Observability.Settings.{TracerConfig, MetricsConfig}
use realtime_messaging_platf.Observability.Providers.{
  Sdk, Resource, with_resource, exporter_options, init_tracer, init_metrics,
}

module _ {W Exporter Provider : Type 0} (s : Sdk W Exporter Provider) where
  -- A list of options fails only with the exporter, in the world that the exporter left.
  exporter_options-failed :
      (name : String) (f : String → Action W Exporter) (endpoint : String) (e : Error) (w w' : W)
      → exporter_options s name f endpoint w ≡ (err e, w')
      → (x : Error) × ((f endpoint w ≡ (err x, w')) × (e ≡ wrap name x))
  unfolding exporter_options
  exporter_options-failed name f endpoint e w w' h = elim (Bool-cases (str_eq endpoint "")) [
    | inl empty ↦ absurd (ground arith)
    | inr other ↦ elim (Result-cases (f endpoint w).0) [
      | inl (x, made) ↦ absurd (ground arith)
      | inr (x, failed) ↦ (x, (ground arith, ground arith))
    ]
  ]

  -- Without an endpoint the set-up of tracing does not fail, and the provider has the resource
  -- only: it exports nothing.
  pub init_tracer-no_endpoint :
      (cfg : TracerConfig) (w : W)
      → cfg.otlp_endpoint ≡ ""
      → (res : Resource) × ((init_tracer s cfg w).0
          ≡ ok (record { provider = some (s.new_tracer_provider (with_resource res ∷ []) w).0 }))
  unfolding init_tracer exporter_options
  init_tracer-no_endpoint cfg w h = (
    record {
      service_name = cfg.service_name;
      service_version = cfg.service_version;
      deployment_environment = cfg.environment;
    },
    ground (arith, eq_iff cfg.otlp_endpoint ""),
  )

  -- A failed set-up of tracing is the exporter's failure, and the library's global provider and
  -- propagator are as the exporter left them.
  pub init_tracer-failed :
      (cfg : TracerConfig) (e : Error) (w w' : W)
      → init_tracer s cfg w ≡ (err e, w')
      → (x : Error) × ((s.new_trace_exporter cfg.otlp_endpoint w ≡ (err x, w'))
          × (e ≡ wrap "create OTLP exporter" x))
  unfolding init_tracer
  init_tracer-failed cfg e w w' h =
      let name : String = "create OTLP exporter" in
      let opts = exporter_options s name s.new_trace_exporter cfg.otlp_endpoint w in
      elim (Result-cases opts.0) [
        | inl (_, made) ↦ absurd (ground arith)
        | inr (_, failed) ↦
            exporter_options-failed name s.new_trace_exporter cfg.otlp_endpoint e w w'
              (ground arith)
      ]

  -- A failed set-up of metrics is the exporter's failure too, and the global meter provider is as
  -- the exporter left it.
  pub init_metrics-failed :
      (cfg : MetricsConfig) (e : Error) (w w' : W)
      → init_metrics s cfg w ≡ (err e, w')
      → (x : Error) × ((s.new_metric_exporter cfg.otlp_endpoint w ≡ (err x, w'))
          × (e ≡ wrap "create OTLP metric exporter" x))
  unfolding init_metrics
  init_metrics-failed cfg e w w' h =
      let name : String = "create OTLP metric exporter" in
      let opts = exporter_options s name s.new_metric_exporter cfg.otlp_endpoint w in
      elim (Result-cases opts.0) [
        | inl (_, made) ↦ absurd (ground arith)
        | inr (_, failed) ↦
            exporter_options-failed name s.new_metric_exporter cfg.otlp_endpoint e w w'
              (ground arith)
      ]
