-- ===== src/Domain/Errors/Laws.antt =====
-- How the classifications of errors.go relate.
use realtime_messaging_platf.Prelude.{true, false, ◌≡◌, refl, String, List, [], ◌∷◌, arith, ◌||◌}
use realtime_messaging_platf.Domain.Errors.{
  Sentinel, Error, jwt, conditional_check_failed, transaction_canceled, plain, sentinel, wrap, join,
  is, is_retryable, is_client_error, is_permission_denied, is_not_found, index,
}

-- `labels` wrapped round an error, the first outermost.
pub wraps : List String → Error → Error
wraps [] e = e
wraps (l ∷ ls) e = wrap l (wraps ls e)

pub is-wraps : (ls : List String) (e : Error) (t : Sentinel) → is (wraps ls e) t ≡ is e t
unfolding wraps is
is-wraps [] e t = refl
is-wraps (l ∷ ls) e t = is-wraps ls e t

-- errors.Is sees the identity of an error variable only.
pub is-index : (e : Error) (s t : Sentinel) → index s ≡ index t → is e s ≡ is e t
unfolding is
is-index (sentinel u) s t h = rw h
is-index (wrap _ e) s t h = is-index e s t h
is-index (join a b) s t h = ground (arith, is-index a s t h, is-index b s t h)
is-index (jwt _) s t h = refl
is-index conditional_check_failed s t h = refl
is-index (transaction_canceled _) s t h = refl
is-index (plain _) s t h = refl

-- A permission error and a missing resource are client errors.
pub permission_denied-is_client :
    (e : Error) → (is_permission_denied e || is_not_found e) ≡ true → is_client_error e ≡ true
unfolding is_permission_denied is_not_found is_client_error
permission_denied-is_client e h = ground arith

-- No error variable is both retryable and the client's fault.
pub retryable_or_client :
    (s : Sentinel) → is_retryable (sentinel s) ≡ true → is_client_error (sentinel s) ≡ false
unfolding is_retryable is_client_error is
retryable_or_client s h = ground arith
