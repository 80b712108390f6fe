-- ===== src/Server.antt =====
-- internal/server/server.go: the life of a service. What the Go library, gRPC and OpenTelemetry do
-- is a parameter; log lines are left out. The flag that the
-- servers are shutting down is in Server.Shutdown, and the group of goroutines in Server.Group.
pub mod Group
pub mod Shutdown
pub mod Startup
use Prim.Native.String.{◌++◌}
use realtime_messaging_platf.Prelude.{
  ℕ, Bool, true, false, String, List, [], ◌∷◌, Option, none, some, if◌then◌else◌,
}
use realtime_messaging_platf.Effect.{Result, ok, err, Action, pure, fail, label, call, ◌>>=◌, ◌>>◌}
use realtime_messaging_platf.Config.Defaults.{Config, ℤ}
use realtime_messaging_platf.Observability.Settings.{LogConfig, TracerConfig, MetricsConfig}

-- A provider of OpenTelemetry. A context with a deadline is that instant.
pub record Provider (W : Type 0) : Type 0 where
  pub shutdown : ℕ → Action W Unit

pub record Machine (W Listener : Type 0) : Type 0 where
  pub init_logger : LogConfig → W → W
  pub init_tracer : TracerConfig → Action W (Provider W)
  pub init_metrics : MetricsConfig → Action W (Provider W)
  -- mux.HandleFunc("/healthz", …).
  pub handle_healthz : W → W
  pub new_grpc_server : W → W
  -- Listen on TCP at ":port".
  pub listen : ℤ → Action W Listener
  pub now : W → ℕ × W
  pub sleep : ℕ → W → W
  pub graceful_stop : W → W
  pub http_shutdown : ℕ → Action W Unit
  -- strconv.Quote, the verb %q.
  pub quote : String → String

pub record SetupDeps : Type 0 where
  pub config : Config
  pub has_grpc_server : Bool

abbrev pub Cleanup : Type 0 → Type 0
Cleanup W = ℕ → Action W Unit

pub record Params (W : Type 0) : Type 0 where
  pub name : String
  pub port_from_config : Config → ℤ
  pub grpc_port_from_config : Option (Config → ℤ)
  pub setup : Option (SetupDeps → Action W (Option (Cleanup W)))

pub record Listeners (Listener : Type 0) : Type 0 where
  pub http : Option Listener
  pub grpc : Option Listener

-- What stands when the servers start.
pub record Started (W Listener : Type 0) : Type 0 where
  pub http_listener : Listener
  -- Present exactly when there is a gRPC server.
  pub grpc_listener : Option Listener
  pub cleanup_fn : Option (Cleanup W)
  pub tracer : Provider W
  pub metrics : Provider W

pub record Response : Type 0 where
  pub content_type : String
  pub status : ℕ
  pub body : String

module _ {W Listener : Type 0} (m : Machine W Listener) where
  -- The handler of /healthz, at the value of the flag.
  unfoldable pub health_handler : String → Bool → Response
  health_handler name shutting_down =
      if shutting_down
      then record {
        content_type = "application/json";
        status = 503;
        body = "{\"status\":\"shutting_down\",\"service\":" ++ (m.quote name ++ "}");
      }
      else record {
        content_type = "application/json";
        status = 200;
        body = "{\"status\":\"healthy\",\"service\":" ++ (m.quote name ++ "}");
      }

  unfoldable pub init_otel : String → Config → Action W (Provider W × Provider W)
  init_otel name cfg = do
    tp ← label "initialize tracer" (
        m.init_tracer (record {
          service_name = name;
          service_version = "0.1.0";
          environment = cfg.environment;
          otlp_endpoint = cfg.otel.endpoint;
        }))
    mp ← label "initialize metrics" (
        m.init_metrics (record {
          service_name = name;
          service_version = "0.1.0";
          environment = cfg.environment;
          otlp_endpoint = cfg.otel.endpoint;
        }))
    pure (tp, mp)

  unfoldable pub resolve_listener :
      Option Listener → (Config → ℤ) → Config → String → Action W Listener
  resolve_listener (some injected) port cfg protocol = pure injected
  resolve_listener none port cfg protocol = label ("listen " ++ protocol) (m.listen (port cfg))

  unfoldable pub resolve_grpc_listener :
      Option Listener → Option (Config → ℤ) → Config → Action W (Option Listener)
  unfolding resolve_listener
  resolve_grpc_listener injected none cfg = pure none
  resolve_grpc_listener injected (some port) cfg = do
    listener ← resolve_listener injected port cfg "grpc"
    pure (some listener)

  unfoldable pub new_grpc_server_if_configured : Params W → W → Bool × W
  new_grpc_server_if_configured p w = elim p.grpc_port_from_config [
    | none ↦ (false, w)
    | some _ ↦ (true, m.new_grpc_server w)
  ]

  unfoldable pub run_setup :
      Option (SetupDeps → Action W (Option (Cleanup W))) → SetupDeps → Action W (Option (Cleanup W))
  run_setup none deps = pure none
  run_setup (some setup) deps = label "setup" (setup deps)

  -- Run up to the start of the servers, with the configuration that Load gives.
  unfoldable pub start :
      Params W → Listeners Listener → Result Config → Action W (Started W Listener)
  unfolding init_otel run_setup resolve_listener resolve_grpc_listener new_grpc_server_if_configured
  start p lns loaded = do
    cfg ← label "load config" (λ w. (loaded, w))
    call (λ w. (
      tt {0},
      m.init_logger
          (record {
            level = cfg.log_level;
            format = cfg.log_format;
            service_name = p.name;
            environment = cfg.environment;
          })
          w,
    ))
    (tp, mp) ← init_otel p.name cfg
    call (λ w. (tt {0}, m.handle_healthz w))
    has_grpc_server ← call (new_grpc_server_if_configured p)
    cleanup_fn ← run_setup p.setup (record { config = cfg; has_grpc_server = has_grpc_server })
    http_listener ← resolve_listener lns.http p.port_from_config cfg "http"
    grpc_listener ← resolve_grpc_listener lns.grpc p.grpc_port_from_config cfg
    pure (record {
      http_listener = http_listener;
      grpc_listener = grpc_listener;
      cleanup_fn = cleanup_fn;
      tracer = tp;
      metrics = mp;
    })
