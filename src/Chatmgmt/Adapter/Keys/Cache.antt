-- ===== src/Chatmgmt/Adapter/Keys/Cache.antt =====
-- Which keys the store hands out, and when it asks AWS.
use realtime_messaging_platf.Prelude.{
  lookup, ℕ, ◌-◌, ◌≤◌, ◌≡◌, false, String, none, some, arith, ltb, Option-cases, Bool-cases, inl,
  inr,
}
use realtime_messaging_platf.Domain.Errors.{Error, wrap}
use realtime_messaging_platf.Effect.{Result, ok, err}
use realtime_messaging_platf.Chatmgmt.Adapter.Pem.{Crypto}
use realtime_messaging_platf.Chatmgmt.Adapter.Keys.{
  Aws, AwsKeyStore, cooldown_active, load_public_keys_from_ssm, refresh_public_keys,
  refresh_public_keys_with_cooldown, refreshed, refreshed_with_cooldown, found_after, unknown_kid,
  found_or_unknown, after_expiry, public_key,
}

module _ {K P W : Type 0} (crypto : Crypto K P) (aws : Aws W) where
  found_after-lookup :
      (kid : String) (r : Result Unit) (ks ks' : AwsKeyStore K P) (w w' : W) (key : P)
      → found_after crypto aws kid r ks w ≡ (ok key, (ks', w'))
      → lookup kid ks'.public_keys ≡ some key
  unfolding found_after
  found_after-lookup kid (err e) ks ks' w w' key h = absurd (ground arith)
  found_after-lookup kid (ok _) ks ks' w w' key h =
      elim (Option-cases (lookup kid ks.public_keys)) [
        | inl missing ↦ absurd (ground arith)
        | inr (key', found) ↦ ground arith
      ]

  unknown_kid-lookup :
      (kid : String) (now : ℕ) (ks ks' : AwsKeyStore K P) (w w' : W) (key : P)
      → unknown_kid crypto aws kid now ks w ≡ (ok key, (ks', w'))
      → lookup kid ks'.public_keys ≡ some key
  unfolding unknown_kid
  unknown_kid-lookup kid now ks ks' w w' key h =
      let (r, (ks1, w1)) = refresh_public_keys_with_cooldown crypto aws ks w in
      elim (Bool-cases (cooldown_active now ks.kid_cooldown ks.last_unknown_kid_refresh)) [
        | inl active ↦ absurd (ground arith)
        | inr over ↦ found_after-lookup kid r ks1 ks' w1 w' key (ground arith)
      ]

  found_or_unknown-lookup :
      (kid : String) (now : ℕ) (ks ks' : AwsKeyStore K P) (w w' : W) (key : P)
      → found_or_unknown crypto aws kid now ks w ≡ (ok key, (ks', w'))
      → lookup kid ks'.public_keys ≡ some key
  unfolding found_or_unknown
  found_or_unknown-lookup kid now ks ks' w w' key h =
      elim (Option-cases (lookup kid ks.public_keys)) [
        | inl missing ↦ unknown_kid-lookup kid now ks ks' w w' key (ground arith)
        | inr (key', found) ↦ ground arith
      ]

  after_expiry-lookup :
      (kid : String) (now : ℕ) (r : Result Unit) (ks ks' : AwsKeyStore K P) (w w' : W) (key : P)
      → after_expiry crypto aws kid now r ks w ≡ (ok key, (ks', w'))
      → lookup kid ks'.public_keys ≡ some key
  unfolding after_expiry
  after_expiry-lookup kid now (err e) ks ks' w w' key h = absurd (ground arith)
  after_expiry-lookup kid now (ok _) ks ks' w w' key h =
      found_or_unknown-lookup kid now ks ks' w w' key h

  -- A key that is handed out for an id is the one that the store holds for it afterwards, be it
  -- found in the cache, after the refresh of expired keys or after the one for an unknown id.
  pub public_key-lookup :
      (kid : String) (ks ks' : AwsKeyStore K P) (w w' : W) (key : P)
      → public_key crypto aws kid ks w ≡ (ok key, (ks', w'))
      → lookup kid ks'.public_keys ≡ some key
  unfolding public_key
  public_key-lookup kid ks ks' w w' key h =
      let (now, w1) = aws.now w in
      let (r, (ks1, w2)) = refresh_public_keys crypto aws ks w1 in
      elim (Bool-cases (ltb ks.cache_ttl (now - ks.public_keys_loaded_at))) [
        | inl expired ↦ after_expiry-lookup kid now r ks1 ks' w2 w' key (ground arith)
        | inr fresh ↦ found_or_unknown-lookup kid now ks ks' w1 w' key (ground arith)
      ]

  -- For an id that is not known, and outside of the cooldown, a refresh that fails gives an error
  -- and leaves the store as it was, whether its keys were fresh or had expired: the keys that it
  -- holds are not lost, and the cooldown does not start.
  pub public_key-failed_refresh :
      (kid : String) (ks : AwsKeyStore K P) (w w1 w2 : W) (now : ℕ) (e : Error)
      → aws.now w ≡ (now, w1)
      → load_public_keys_from_ssm crypto aws w1 ≡ (err e, w2)
      → cooldown_active now ks.kid_cooldown ks.last_unknown_kid_refresh ≡ false
      → lookup kid ks.public_keys ≡ none
      → (e' : Error) × (public_key crypto aws kid ks w ≡ (err e', (ks, w2)))
  unfolding public_key refresh_public_keys refreshed refresh_public_keys_with_cooldown
      refreshed_with_cooldown found_or_unknown unknown_kid after_expiry found_after
  public_key-failed_refresh kid ks w w1 w2 now e n l over missing =
      elim (Bool-cases (ltb ks.cache_ttl (now - ks.public_keys_loaded_at))) [
        | inl expired ↦ (
          wrap "refreshing public keys (cache expired)" (wrap "loading public keys from SSM" e),
          ground arith,
        )
        | inr fresh ↦ (
          wrap "refreshing public keys (unknown kid %q)" (wrap "loading public keys from SSM" e),
          ground arith,
        )
      ]

  -- While the keys are fresh and the cooldown of unknown ids lasts, a question for any id costs one
  -- reading of the clock: AWS is not asked, and the store stays as it is.
  pub public_key-no_call :
      (kid : String) (ks : AwsKeyStore K P) (w w1 : W) (now last : ℕ)
      → aws.now w ≡ (now, w1)
      → now - ks.public_keys_loaded_at ≤ ks.cache_ttl
      → ks.last_unknown_kid_refresh ≡ some last
      → now - last ≤ ks.kid_cooldown
      → (public_key crypto aws kid ks w).1 ≡ (ks, w1)
  unfolding public_key found_or_unknown unknown_kid cooldown_active
  public_key-no_call kid ks w w1 now last n fresh l cool =
      elim (Option-cases (lookup kid ks.public_keys)) [
        | inl missing ↦ ground arith
        | inr (key, found) ↦ ground arith
      ]
