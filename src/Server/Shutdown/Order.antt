-- ===== src/Server/Shutdown/Order.antt =====
-- internal/server/server.go: the order of a graceful shutdown, and what /healthz says meanwhile.
use mathlib.Core.List.{append-nil, append_assoc}
use realtime_messaging_platf.Prelude.{
  All, drop, ℕ, zero, suc, ◌==◌, ◌≡◌, refl, sym, ◌∙◌, Bool, true, false, List, [], ◌∷◌, ◌++◌,
  Option, none, some, String, if◌then◌else◌, take, arith,
}
use realtime_messaging_platf.Server.{Machine, Started, Cleanup, health_handler}
use realtime_messaging_platf.Server.Shutdown.{
  Process, Step, run_steps, shutdown_steps, shutdown_func, with_timeout, clean_up, stop_grpc, flush,
  on_world,
}

pub data Event : Type 0 where
  drained grpc_stopped http_stopped cleaned_up metrics_flushed tracer_flushed : Event

-- The order that the source's comment gives, with what is there to be stopped.
abbrev pub order : Bool → Bool → List Event
order has_grpc has_cleanup =
    (drained ∷ (if has_grpc then grpc_stopped ∷ [] else []))
    ++ (http_stopped
        ∷ ((if has_cleanup then cleaned_up ∷ [] else []) ++ metrics_flushed ∷ tracer_flushed ∷ []))

abbrev pub is_there : {A : Type 0} → Option A → Bool
is_there none = false
is_there (some _) = true

-- A record of what was stopped: each call notes itself, whether it fails or not.
pub record Noted {W Listener : Type 0} (m : Machine W Listener) (s : Started W Listener)
    : Type 0 where
  pub events : W → List Event
  pub now_noted : (w : W) → events (m.now w).1 ≡ events w
  pub sleep_noted : (d : ℕ) (w : W) → events (m.sleep d w) ≡ events w ++ drained ∷ []
  pub grpc_noted : (w : W) → events (m.graceful_stop w) ≡ events w ++ grpc_stopped ∷ []
  pub http_noted : (d : ℕ) (w : W) → events (m.http_shutdown d w).1 ≡ events w ++ http_stopped ∷ []
  pub cleanup_noted :
      (f : Cleanup W) (d : ℕ) (w : W)
      → s.cleanup_fn ≡ some f
      → events (f d w).1 ≡ events w ++ cleaned_up ∷ []
  pub metrics_noted :
      (d : ℕ) (w : W) → events (s.metrics.shutdown d w).1 ≡ events w ++ metrics_flushed ∷ []
  pub tracer_noted :
      (d : ℕ) (w : W) → events (s.tracer.shutdown d w).1 ≡ events w ++ tracer_flushed ∷ []

module _ {W Listener : Type 0} (m : Machine W Listener) (s : Started W Listener)
    (n : Noted m s) where
  events-stop_grpc :
      (b : Bool) (w : W)
      → n.events (stop_grpc m b w) ≡ n.events w ++ (if b then grpc_stopped ∷ [] else [])
  unfolding stop_grpc
  events-stop_grpc false w = sym (append-nil (n.events w))
  events-stop_grpc true w = n.grpc_noted w

  events-clean_up :
      (o : Option (Cleanup W)) (w : W)
      → s.cleanup_fn ≡ o
      → n.events (clean_up m o w) ≡ n.events w ++ (if is_there o then cleaned_up ∷ [] else [])
  unfolding clean_up with_timeout
  events-clean_up none w h = sym (append-nil (n.events w))
  events-clean_up (some f) w h = n.cleanup_noted f _ (m.now w).1 h ∙ rw (n.now_noted w)

  events-with_timeout :
      (d : ℕ) (w : W)
      → n.events (with_timeout m d m.http_shutdown w) ≡ n.events w ++ http_stopped ∷ []
  unfolding with_timeout
  events-with_timeout d w = simp (n.http_noted, n.now_noted)

  events-flush :
      (w : W)
      → n.events (flush m s.metrics s.tracer w)
        ≡ n.events w ++ metrics_flushed ∷ tracer_flushed ∷ []
  unfolding flush
  events-flush w = simp (n.tracer_noted, n.metrics_noted, n.now_noted, append_assoc)

  -- A graceful shutdown drains, stops gRPC, stops HTTP, cleans up and flushes metrics and traces, in
  -- this order, each once, whichever of these steps fail; gRPC and the clean-up are left out where
  -- the service has none.
  pub events-shutdown_func :
      (has_grpc_server : Bool) (p : Process W)
      → n.events (shutdown_func m has_grpc_server s p).world
        ≡ n.events p.world ++ order has_grpc_server (is_there s.cleanup_fn)
  unfolding shutdown_func on_world
  events-shutdown_func has_grpc_server p = simp events-flush (
      rw (events-clean_up s.cleanup_fn _ refl)
        (simp (events-with_timeout, events-stop_grpc, n.sleep_noted, append_assoc)))

shutting_down-run_steps :
    {W : Type 0} (k : ℕ) (steps : List (Step W)) (p : Process W)
    → All (λ (step : Step W). (q : Process W) → (step q).shutting_down ≡ q.shutting_down) steps
    → (run_steps (take k steps) p).shutting_down ≡ p.shutting_down
shutting_down-run_steps zero steps p h = refl
shutting_down-run_steps (suc k) [] p h = refl
shutting_down-run_steps (suc k) (step ∷ steps) p h =
    shutting_down-run_steps k steps (step p) h.1 ∙ h.0 p

module _ {W Listener : Type 0} (m : Machine W Listener) (s : Started W Listener) where
  -- A request to /healthz that comes after any number of steps of the shutdown is answered 503, and
  -- before the first step 200.
  pub status-health_handler :
      (name : String) (has_grpc_server : Bool) (p : Process W) (k : ℕ)
      → p.shutting_down ≡ false
      → (health_handler m name
          (run_steps (take k (shutdown_steps m has_grpc_server s)) p).shutting_down).status
        ≡ (if k == 0 then 200 else 503)
  unfolding health_handler shutdown_steps on_world
  status-health_handler name b p zero h = rw h refl
  status-health_handler name b p (suc k) h =
      let kept =
        shutting_down-run_steps k (drop 1 (shutdown_steps m b s))
          (record p { shutting_down = true })
          (λ q. refl, (λ q. refl, (λ q. refl, (λ q. refl, (λ q. refl, tt))))) in
      rw kept (ground arith)
