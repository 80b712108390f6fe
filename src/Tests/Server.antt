-- ===== src/Tests/Server.antt =====
-- A machine whose world is the list of what was stopped, and a service with a clean-up function.
use realtime_messaging_platf.Prelude.{
  ℕ, ◌≡◌, refl, Bool, true, false, List, [], ◌∷◌, ◌++◌, Option, some, none, take, length, ap, sym,
}
use realtime_messaging_platf.Domain.Errors.{Error, plain}
use realtime_messaging_platf.Effect.{ok, err, Action}
use realtime_messaging_platf.Server.{
  Machine, Params, Listeners, Started, SetupDeps, Cleanup, health_handler,
}
use realtime_messaging_platf.Server.Group.{Goroutine, http_server, grpc_server, shutdown}
use realtime_messaging_platf.Server.Shutdown.{Process, shutdown_func, run_steps, shutdown_steps}
use realtime_messaging_platf.Server.Shutdown.Order.{
  Event, drained, grpc_stopped, http_stopped, cleaned_up, metrics_flushed, tracer_flushed, Noted,
  events-shutdown_func, status-health_handler,
}
use realtime_messaging_platf.Server.Startup.{Counted}

abbrev World : Type 0
World = List Event

abbrev note : Event → World → World
note e w = w ++ e ∷ []

abbrev failing : Event → ℕ → Action World Unit
failing e deadline w = (err (plain "context deadline exceeded"), note e w)

abbrev machine : Machine World Unit
machine = record {
  init_logger = λ c w. w;
  init_tracer = λ c w. (ok (record { shutdown = failing tracer_flushed }), w);
  init_metrics = λ c w. (ok (record { shutdown = failing metrics_flushed }), w);
  handle_healthz = λ w. w;
  new_grpc_server = λ w. w;
  listen = λ port w. (ok tt, w);
  now = λ w. (7, w);
  sleep = λ d w. note drained w;
  graceful_stop = λ w. note grpc_stopped w;
  http_shutdown = failing http_stopped;
  quote = λ s. s;
}

abbrev params : Params World
params = record {
  name = "chatmgmt";
  port_from_config = λ cfg. cfg.chat_mgmt.http_port;
  grpc_port_from_config = some (λ cfg. cfg.chat_mgmt.grpc_port);
  setup = some (λ deps w. (ok (some (failing cleaned_up)), w));
}

abbrev listeners : Listeners Unit
listeners = record { http = none; grpc = none }

abbrev started : Started World Unit
started = record {
  http_listener = tt;
  grpc_listener = some tt;
  cleanup_fn = some (failing cleaned_up);
  tracer = record { shutdown = failing tracer_flushed };
  metrics = record { shutdown = failing metrics_flushed };
}

cleanup_noted :
    (f : Cleanup World) (d : ℕ) (w : World)
    → ◌≡◌ {A = Option (Cleanup World)} (some (failing cleaned_up)) (some f)
    → (f d w).1 ≡ note cleaned_up w
cleanup_noted f d w h =
    let same : failing cleaned_up ≡ f = cc in ap (λ (g : Cleanup World). (g d w).1) (sym same)

abbrev noted : Noted machine started
noted = record {
  events = λ w. w;
  now_noted = λ w. refl;
  sleep_noted = λ d w. refl;
  grpc_noted = λ w. refl;
  http_noted = λ d w. refl;
  cleanup_noted = cleanup_noted;
  metrics_noted = λ d w. refl;
  tracer_noted = λ d w. refl;
}

abbrev serving : Process World
serving = record { shutting_down = false; world = [] }

events-shutdown_func_example :
    (shutdown_func machine true started serving).world
    ≡ drained ∷ grpc_stopped ∷ http_stopped ∷ cleaned_up ∷ metrics_flushed ∷ tracer_flushed ∷ []
events-shutdown_func_example = events-shutdown_func machine started noted true serving

status-health_handler_example :
    (health_handler machine "chatmgmt"
      (run_steps (take 2 (shutdown_steps machine true started)) serving).shutting_down).status
    ≡ 503
status-health_handler_example = status-health_handler machine started "chatmgmt" true serving 2 refl

setup_keeps :
    (f : SetupDeps → Action World (Option (Cleanup World))) (d : SetupDeps) (w : World)
    → params.setup ≡ some f
    → length (f d w).1 ≡ length w
setup_keeps f d w h =
    let setup : SetupDeps → Action World (Option (Cleanup World)) =
      λ deps w. (ok (some (failing cleaned_up)), w) in
    let same : setup ≡ f = cc in
    ap (λ (g : SetupDeps → Action World (Option (Cleanup World))). length (g d w).1) (sym same)

abbrev counted : Counted machine params
counted = record {
  released = λ w. length w;
  logger_keeps = λ c w. refl;
  tracer_keeps = λ c w. refl;
  metrics_keeps = λ c w. refl;
  healthz_keeps = λ w. refl;
  grpc_keeps = λ w. refl;
  listen_keeps = λ port w. refl;
  setup_keeps = setup_keeps;
}

abbrev closed : Error → Bool
closed e = true

abbrev ended : List Goroutine
ended = grpc_server (ok tt) ∷ http_server (err (plain "http: Server closed")) ∷ shutdown ∷ []
