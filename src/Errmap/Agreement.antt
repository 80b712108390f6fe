-- ===== src/Errmap/Agreement.antt =====
-- The three mappers against one another and against the table of gRPC codes on the wire.
use realtime_messaging_platf.Prelude.{
  ℕ, ◌≡◌, refl, Bool, true, false, ◌&&◌, ◌||◌, ◌==◌, String, List, [], ◌∷◌, Option, none, some,
  arith, Option-cases, inl, inr,
}
use realtime_messaging_platf.Domain.Errors.{Error, Sentinel, sentinel, is, index, duplicate_message}
use realtime_messaging_platf.Domain.Errors.Laws.{wraps, is-wraps, is-index}
use realtime_messaging_platf.Errmap.Table.{
  Table, first_match, first_match-all, first_match-cong, first_match-covers,
}
use realtime_messaging_platf.Errmap.Grpc.{
  Code, ok, missing, exists, unauthenticated, permission_denied, invalid_argument,
  resource_exhausted, service_unavailable, internal, unknown, grpc_mappings, status_of,
  to_grpc_status,
}
use realtime_messaging_platf.Errmap.Http.{http_mappings, to_http_error, to_http_status_code}
use realtime_messaging_platf.Errmap.WebSocket.{close_of, ws_mappings, to_web_socket_close}

-- The HTTP status that grpc-gateway's documentation gives for a code.
abbrev pub http_of_code : Code → ℕ
http_of_code ok = 200
http_of_code missing = 404
http_of_code exists = 409
http_of_code unauthenticated = 401
http_of_code permission_denied = 403
http_of_code invalid_argument = 400
http_of_code resource_exhausted = 429
http_of_code service_unavailable = 503
http_of_code internal = 500
http_of_code unknown = 500

-- The close codes that carry a gRPC code, one or two for each.
abbrev pub closes : Code → ℕ → Bool
closes ok c = c == 1000
closes missing c = c == 4004
closes exists c = c == 4009
closes unauthenticated c = c == 4001
closes permission_denied c = c == 4003
closes invalid_argument c = c == 4000 || c == 4013
closes resource_exhausted c = c == 4029
closes service_unavailable c = c == 1013
closes internal c = c == 1011
closes unknown c = false

-- Two tables have the same errors in the same order, and agree but at duplicates.
abbrev aligned : Table Code → Table (ℕ × String) → Bool
aligned [] [] = true
aligned [] (_ ∷ _) = false
aligned (_ ∷ _) [] = false
aligned ((s, c) ∷ t) ((s', (n, _)) ∷ u) =
    (index s == index s' && (index s == index duplicate_message || http_of_code c == n))
    && aligned t u

abbrev http_status : Option (ℕ × String) → ℕ
http_status none = 500
http_status (some (n, c)) = n

abbrev code_or_internal : Option Code → Code
code_or_internal none = internal
code_or_internal (some c) = c

aligned-first_match :
    (e : Error) (t : Table Code) (u : Table (ℕ × String))
    → is e duplicate_message ≡ false
    → aligned t u ≡ true
    → http_status (first_match e u) ≡ http_of_code (code_or_internal (first_match e t))
unfolding first_match
aligned-first_match e [] [] d a = refl
aligned-first_match e [] (_ ∷ _) d a = cc
aligned-first_match e (_ ∷ _) [] d a = cc
aligned-first_match e ((s, c) ∷ t) ((s', (n, _)) ∷ u) d a =
    ground (arith, is-index e s s', is-index e s duplicate_message, aligned-first_match e t u d)

-- Of an error that is no duplicate, the HTTP handlers answer with the status that the gRPC code
-- has on the wire.
pub to_http_status_code-to_grpc_status :
    (text : Error → String) (e : Error)
    → is e duplicate_message ≡ false
    → to_http_status_code text (some e) ≡ http_of_code (to_grpc_status text (some e)).code
unfolding to_http_status_code to_grpc_status to_http_error grpc_mappings http_mappings index
to_http_status_code-to_grpc_status text e d =
    ground (arith, aligned-first_match e grpc_mappings http_mappings d refl)

not_internal : Code → Bool
not_internal internal = false
not_internal _ = true

grpc-internal-none :
    (text : Error → String) (e : Error)
    → (to_grpc_status text (some e)).code ≡ internal
    → first_match e grpc_mappings ≡ none
unfolding to_grpc_status not_internal
grpc-internal-none text e h = elim (Option-cases (first_match e grpc_mappings)) [
  | inl n ↦ n
  | inr (c, m) ↦
      ground
        (arith, first_match-all not_internal e grpc_mappings c (unfold grpc_mappings in refl) m)
]

-- An error that gRPC reports as Internal is internal on the other wires too, and none of them
-- shows its text: the message is the fixed "internal error" and the close reason is
-- "internal_error".
pub internal-hides_text :
    (text : Error → String) (e : Error)
    → (to_grpc_status text (some e)).code ≡ internal
    → ((to_grpc_status text (some e)).message ≡ "internal error")
      × (to_http_error text (some e)
          ≡ record { status_code = 500; code = "INTERNAL"; message = "internal error" })
      × (to_web_socket_close (some e) ≡ record { code = 1011; reason = "internal_error" })
unfolding to_grpc_status to_http_error to_web_socket_close grpc_mappings http_mappings ws_mappings
    index
internal-hides_text text e h =
    let n = grpc-internal-none text e h in
    (
      rw n,
      rw (first_match-covers e grpc_mappings http_mappings n refl),
      rw (first_match-covers e grpc_mappings ws_mappings n refl),
    )

closes-sentinel :
    (text : Error → String) (e : Error) (s : Sentinel)
    → closes
        (status_of text e (first_match (sentinel s) grpc_mappings)).code
        (close_of (first_match (sentinel s) ws_mappings)).code
      ≡ true
unfolding to_grpc_status to_web_socket_close grpc_mappings ws_mappings first_match is
closes-sentinel text e s = ground arith

-- However often a domain error is wrapped, the WebSocket close code is one that goes with the
-- gRPC code.
pub to_web_socket_close-to_grpc_status :
    (text : Error → String) (labels : List String) (s : Sentinel)
    → closes
        (to_grpc_status text (some (wraps labels (sentinel s)))).code
        (to_web_socket_close (some (wraps labels (sentinel s)))).code
      ≡ true
unfolding to_grpc_status to_web_socket_close
to_web_socket_close-to_grpc_status text labels s =
    rw
      (
        first_match-cong (wraps labels (sentinel s)) (sentinel s) grpc_mappings
            (is-wraps labels (sentinel s)),
        first_match-cong (wraps labels (sentinel s)) (sentinel s) ws_mappings
            (is-wraps labels (sentinel s)),
      )
      (closes-sentinel text (wraps labels (sentinel s)) s)
