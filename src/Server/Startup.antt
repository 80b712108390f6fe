-- ===== src/Server/Startup.antt =====
-- internal/server/server.go: a start that fails, and what it had acquired by then.
use realtime_messaging_platf.Prelude.{ℕ, ◌≡◌, refl, Option, none, some, String, arith}
use realtime_messaging_platf.Effect.{Result, Action}
use realtime_messaging_platf.Config.Defaults.{Config, ℤ}
use realtime_messaging_platf.Observability.Settings.{LogConfig, TracerConfig, MetricsConfig}
use realtime_messaging_platf.Server.{
  Machine, Params, Listeners, SetupDeps, Cleanup, start, init_otel, run_setup, resolve_listener,
  resolve_grpc_listener, new_grpc_server_if_configured,
}

-- A count of what was given back, by a clean-up function or the shutdown of a provider. Neither
-- what the start calls of the machine nor the service's Setup gives anything back.
pub record Counted {W Listener : Type 0} (m : Machine W Listener) (p : Params W) : Type 0 where
  pub released : W → ℕ
  pub logger_keeps : (c : LogConfig) (w : W) → released (m.init_logger c w) ≡ released w
  pub tracer_keeps : (c : TracerConfig) (w : W) → released (m.init_tracer c w).1 ≡ released w
  pub metrics_keeps : (c : MetricsConfig) (w : W) → released (m.init_metrics c w).1 ≡ released w
  pub healthz_keeps : (w : W) → released (m.handle_healthz w) ≡ released w
  pub grpc_keeps : (w : W) → released (m.new_grpc_server w) ≡ released w
  pub listen_keeps : (port : ℤ) (w : W) → released (m.listen port w).1 ≡ released w
  pub setup_keeps :
      (f : SetupDeps → Action W (Option (Cleanup W))) (d : SetupDeps) (w : W)
      → p.setup ≡ some f
      → released (f d w).1 ≡ released w

module _ {W Listener : Type 0} (m : Machine W Listener) (p : Params W) (c : Counted m p) where
  resolve_listener_keeps :
      (o : Option Listener) (port : Config → ℤ) (cfg : Config) (s : String)
      → ((w : W) → c.released (resolve_listener m o port cfg s w).1 ≡ c.released w)
  unfolding resolve_listener
  resolve_listener_keeps none port cfg s w = c.listen_keeps (port cfg) w
  resolve_listener_keeps (some l) port cfg s w = refl

  resolve_grpc_listener_keeps :
      (o : Option Listener) (port : Option (Config → ℤ)) (cfg : Config)
      → (w : W) → c.released (resolve_grpc_listener m o port cfg w).1 ≡ c.released w
  unfolding resolve_grpc_listener
  resolve_grpc_listener_keeps o none cfg w = refl
  resolve_grpc_listener_keeps o (some port) cfg w =
      ground (arith, resolve_listener_keeps o port cfg "grpc" w)

  run_setup_keeps :
      (o : Option (SetupDeps → Action W (Option (Cleanup W)))) (d : SetupDeps)
      → p.setup ≡ o
      → (w : W) → c.released (run_setup m o d w).1 ≡ c.released w
  unfolding run_setup
  run_setup_keeps none d h w = refl
  run_setup_keeps (some f) d h w = c.setup_keeps f d w h

  new_grpc_server_keeps :
      (w : W) → c.released (new_grpc_server_if_configured m p w).1 ≡ c.released w
  unfolding new_grpc_server_if_configured
  new_grpc_server_keeps w = ground (arith, c.grpc_keeps w)

  init_otel_keeps :
      (name : String) (cfg : Config) (w : W) → c.released (init_otel m name cfg w).1 ≡ c.released w
  unfolding init_otel
  init_otel_keeps name cfg w = grind (arith, c.tracer_keeps, c.metrics_keeps)

  -- A start gives nothing back, whether it fails or not: where it fails after Setup or after the
  -- providers were made, neither the clean-up function nor the shutdown of a provider is called.
  pub released-start :
      (lns : Listeners Listener) (loaded : Result Config) (w : W)
      → c.released (start m p lns loaded w).1 ≡ c.released w
  unfolding start
  released-start lns loaded w = grind (
    arith, c.logger_keeps, init_otel_keeps, c.healthz_keeps, new_grpc_server_keeps, run_setup_keeps,
    resolve_listener_keeps, resolve_grpc_listener_keeps,
  )
