-- ===== src/Server/Group.antt =====
-- internal/server/server.go: startServers, the group of goroutines, and Run.
use realtime_messaging_platf.Prelude.{
  ◌≡◌, ◌⊎◌, inl, inr, refl, ap, Bool, true, List, [], ◌∷◌, map, if◌then◌else◌, All, arith,
}
use realtime_messaging_platf.Domain.Errors.{Error}
use realtime_messaging_platf.Effect.{Result, ok, err, Action, labelled}
use realtime_messaging_platf.Config.Defaults.{Config}
use realtime_messaging_platf.Server.{Machine, Params, Listeners, Started, start}

-- A goroutine that has ended: a server, with what its Serve returned, or the graceful shutdown.
pub data Goroutine : Type 0 where
  http_server grpc_server : Result Unit → Goroutine
  shutdown : Goroutine

-- errgroup's Wait: the error of the goroutine that failed first.
unfoldable pub wait : List (Result Unit) → Result Unit
wait [] = ok tt
wait (ok _ ∷ rest) = wait rest
wait (err e ∷ rest) = err e

wait_cons-ok :
    (r : Result Unit) (rest : List (Result Unit))
    → wait (r ∷ rest) ≡ ok tt
    → (r ≡ ok tt) × (wait rest ≡ ok tt)
unfolding wait
wait_cons-ok (ok tt) rest h = (refl, h)
wait_cons-ok (err e) rest h = absurd (ground arith)

-- `is_server_closed` is errors.Is at http.ErrServerClosed.
module _ (is_server_closed : Error → Bool) where
  serve_http : Result Unit → Result Unit
  serve_http (ok _) = ok tt
  serve_http (err e) = if is_server_closed e then ok tt else err e

  unfoldable pub result : Goroutine → Result Unit
  unfolding serve_http
  result (http_server r) = serve_http r
  result (grpc_server r) = labelled "grpc serve" r
  result shutdown = ok tt

  module _ {W Listener : Type 0} (m : Machine W Listener) where
    waited : List Goroutine → Result (Started W Listener) → Result Unit
    unfolding wait result
    waited ended (ok s) = wait (map result ended)
    waited ended (err e) = err e

    -- `ended` is the group's goroutines in the order in which they end.
    unfoldable pub run :
        Params W → Listeners Listener → Result Config → List Goroutine → Action W Unit
    unfolding waited
    run p lns loaded ended w = let (r, w') = start m p lns loaded w in (waited ended r, w')

  -- A server that ended as it should.
  abbrev pub EndedWell : Goroutine → Type 0
  EndedWell (http_server r) =
      (r ≡ ok tt) ⊎ ((e : Error) × (r ≡ err e) × (is_server_closed e ≡ true))
  EndedWell (grpc_server r) = r ≡ ok tt
  EndedWell shutdown = Unit

  result-ok : (g : Goroutine) → result g ≡ ok tt → EndedWell g
  unfolding result serve_http
  result-ok (http_server (ok tt)) h = inl refl
  result-ok (http_server (err e)) h = inr (e, refl, ground arith)
  result-ok (grpc_server (ok tt)) h = refl
  result-ok (grpc_server (err e)) h = absurd (ground arith)
  result-ok shutdown h = tt

  wait-ok : (ended : List Goroutine) → wait (map result ended) ≡ ok tt → All EndedWell ended
  unfolding wait
  wait-ok [] h = tt
  wait-ok (g ∷ rest) h =
      let (first, others) = wait_cons-ok (result g) (map result rest) h in
      (result-ok g first, wait-ok rest others)

  module _ {W Listener : Type 0} (m : Machine W Listener) where
    waited-ok :
        (ended : List Goroutine) (r : Result (Started W Listener))
        → waited m ended r ≡ ok tt
        → ((s : Started W Listener) × (r ≡ ok s)) × All EndedWell ended
    unfolding waited
    waited-ok ended (ok s) h = ((s, refl), wait-ok ended h)
    waited-ok ended (err e) h = absurd (ground arith)

    -- Run returns no error only if the service started, the HTTP server ended by being closed and
    -- the gRPC server ended without an error.
    pub run-ok :
        (p : Params W) (lns : Listeners Listener) (loaded : Result Config) (ended : List Goroutine)
        (w w' : W)
        → run m p lns loaded ended w ≡ (ok tt, w')
        → ((s : Started W Listener) × (start m p lns loaded w ≡ (ok s, w'))) × All EndedWell ended
    unfolding run
    run-ok p lns loaded ended w w' h =
        let ((s, started), well) =
          waited-ok ended (start m p lns loaded w).0 (ap (λ (x : Result Unit × W). x.0) h) in
        ((s, ground (arith, ap (λ (x : Result Unit × W). x.1) h)), well)
