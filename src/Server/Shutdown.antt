-- ===== src/Server/Shutdown.antt =====
-- internal/server/server.go: shutdownFunc, once its context is done. The error of a step goes into
-- the log only.
pub mod Order
use realtime_messaging_platf.Prelude.{
  ℕ, ◌+◌, Bool, true, false, List, [], ◌∷◌, Option, none, some, if◌then◌else◌,
}
use realtime_messaging_platf.Domain.Constants.{
  shutdown_drain_delay, shutdown_http_timeout, shutdown_otel_timeout,
}
use realtime_messaging_platf.Effect.{Action}
use realtime_messaging_platf.Server.{Machine, Provider, Started, Cleanup}

-- The flag that /healthz reads, and the rest.
pub record Process (W : Type 0) : Type 0 where
  pub shutting_down : Bool
  pub world : W

abbrev pub Step : Type 0 → Type 0
Step W = Process W → Process W

abbrev pub run_steps : {W : Type 0} → List (Step W) → Process W → Process W
run_steps [] p = p
run_steps (step ∷ steps) p = run_steps steps (step p)

module _ {W Listener : Type 0} (m : Machine W Listener) where
  -- A call under a context that ends after `timeout`; its error is not looked at.
  unfoldable pub with_timeout : ℕ → (ℕ → Action W Unit) → W → W
  with_timeout timeout f w = let (t, w') = m.now w in (f (t + timeout) w').1

  stop_grpc : Bool → W → W
  stop_grpc false w = w
  stop_grpc true w = m.graceful_stop w

  clean_up : Option (Cleanup W) → W → W
  unfolding with_timeout
  clean_up none w = w
  clean_up (some cleanup) w = with_timeout shutdown_http_timeout cleanup w

  -- Both providers are given the same context.
  flush : Provider W → Provider W → W → W
  flush metrics tracer w =
      let (t, w1) = m.now w in
      let deadline = t + shutdown_otel_timeout in
      (tracer.shutdown deadline (metrics.shutdown deadline w1).1).1

  on_world : (W → W) → Step W
  on_world f p = record p { world = f p.world }

  unfoldable pub shutdown_steps : Bool → Started W Listener → List (Step W)
  unfolding stop_grpc clean_up flush on_world with_timeout
  shutdown_steps has_grpc_server s =
      (λ p. record p { shutting_down = true })
      ∷ on_world (m.sleep shutdown_drain_delay)
      ∷ on_world (stop_grpc has_grpc_server)
      ∷ on_world (with_timeout shutdown_http_timeout m.http_shutdown)
      ∷ on_world (clean_up s.cleanup_fn)
      ∷ on_world (flush s.metrics s.tracer)
      ∷ []

  unfoldable pub shutdown_func : Bool → Started W Listener → Step W
  unfolding shutdown_steps
  shutdown_func has_grpc_server s = run_steps (shutdown_steps has_grpc_server s)
