-- ===== src/Chatmgmt/Port/Requests.antt =====
-- What the handler takes from the headers of a request.
use Prim.Native.String.{◌++◌}
use Prim.Native.String.append.{nil, cons}
use Prim.Native.Char.{code}
use realtime_messaging_platf.Prelude.{
  ◌≡◌, ap, ◌∙◌, ==_iff, String, eq_iff, List, ◌∷◌, none, some, arith,
}
use realtime_messaging_platf.Domain.Errors.{Error}
use realtime_messaging_platf.Effect.{err}
use realtime_messaging_platf.Errmap.Grpc.{to_grpc_status}
use realtime_messaging_platf.Auth.Runtime.{Runtime}
use realtime_messaging_platf.Chatmgmt.Port.{
  Context, strip_prefix, before_last, extract_bearer_token, extract_client_ip, extract_device_id,
  AuthFlows, failure, handle_refresh_tokens, handle_logout, value_of, token_of, peer_ip,
  first_or_empty,
}

strip_prefix-append : (p s : String) → strip_prefix p (p ++ s) ≡ some s
unfolding strip_prefix
strip_prefix-append String.[] s = ap some (λ i. nil s i)
strip_prefix-append (String.◌∷◌ c p) s =
    ap (strip_prefix (String.◌∷◌ c p)) (λ i. cons c p s i)
    ∙ ground (arith, ==_iff (code c) (code c), strip_prefix-append p s)

-- A bearer token is what follows the scheme in the header, for any token.
pub extract_bearer_token-append :
    (ctx : Context) (md : String → List String) (token : String) (more : List String)
    → ctx.metadata ≡ some md
    → md "authorization" ≡ ("Bearer " ++ token) ∷ more
    → extract_bearer_token ctx ≡ token
unfolding extract_bearer_token value_of token_of first_or_empty
extract_bearer_token-append ctx md token more m a =
    let value : value_of "authorization" ctx.metadata ≡ "Bearer " ++ token =
      ap (value_of "authorization") m ∙ ap first_or_empty a in
    ap token_of value ∙ ground (arith, strip_prefix-append "Bearer " token)

before_last-append :
    (s port : String)
    → before_last b':' port ≡ none
    → before_last b':' (s ++ (":" ++ port)) ≡ some s
unfolding before_last
before_last-append String.[] port h =
    ap (before_last b':') (
      (λ i. nil (":" ++ port) i)
      ∙ (λ i. cons ":" "" port i)
      ∙ ap (String.◌∷◌ ":") (λ i. nil port i))
    ∙ ground (arith, h)
before_last-append (String.◌∷◌ c s) port h =
    ap (before_last b':') (λ i. cons c s (":" ++ port) i)
    ∙ ground (arith, before_last-append s port h)

-- Without metadata the address of the peer counts, less its port: all of it before the last colon.
pub extract_client_ip-peer :
    (ctx : Context) (ip port : String)
    → ctx.metadata ≡ none
    → ctx.peer ≡ some (ip ++ (":" ++ port))
    → before_last b':' port ≡ none
    → extract_client_ip ctx ≡ ip
unfolding extract_client_ip value_of peer_ip
extract_client_ip-peer ctx ip port m p h =
    let value : value_of "x-forwarded-for" ctx.metadata ≡ "" = ap (value_of "x-forwarded-for") m in
    let found : peer_ip ctx.peer ≡ ip =
      ap peer_ip p ∙ ground (arith, before_last-append ip port h) in
    ground (arith, eq_iff (value_of "x-forwarded-for" ctx.metadata) "", value, found)

module _ {W : Type 0} (rt : Runtime W) (text : Error → String) (svc : AuthFlows W) where
  -- A refresh is made with the bearer token and the device of the headers, and its error comes back
  -- as the gRPC status of the error; a logout with the same token likewise.
  pub handle_refresh_tokens-failure :
      (ctx : Context) (md : String → List String) (token device refresh : String)
      (more others : List String) (w w' v v' : W) (e f : Error)
      → ctx.metadata ≡ some md
      → md "authorization" ≡ ("Bearer " ++ token) ∷ more
      → md "x-device-id" ≡ device ∷ others
      → svc.refresh_tokens token refresh device w ≡ (err e, w')
      → svc.logout token v ≡ (err f, v')
      → (handle_refresh_tokens rt text svc ctx refresh w
          ≡ (failure (to_grpc_status text (some e)), w'))
        × (handle_logout rt text svc ctx v ≡ (failure (to_grpc_status text (some f)), v'))
  unfolding handle_refresh_tokens handle_logout extract_device_id value_of first_or_empty
  handle_refresh_tokens-failure ctx md token device refresh more others w w' v v' e f m a d r l =
      let bearer = extract_bearer_token-append ctx md token more m a in
      let on : extract_device_id ctx ≡ device =
        ap (value_of "x-device-id") m ∙ ap first_or_empty d in
      (ground (arith, bearer, on), ground (arith, bearer))
