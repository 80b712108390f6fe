-- ===== src/Auth/Refresh.antt =====
-- internal/auth/refresh.go.
use realtime_messaging_platf.Prelude.{ℕ, ◌==◌, Bool, String}
use realtime_messaging_platf.Effect.{Action, pure, label, ◌>>=◌}
use realtime_messaging_platf.Auth.Runtime.{Runtime}
use realtime_messaging_platf.Auth.Otp.{constant_time_compare}

abbrev pub refresh_token_bytes : ℕ
refresh_token_bytes = 32

module _ {W : Type 0} (rt : Runtime W) where
  unfoldable pub generate_refresh_token : Action W String
  generate_refresh_token = do
    b ← label "generate refresh token" (rt.rand_read refresh_token_bytes)
    pure (rt.raw_url_encode b)

  unfoldable pub hash_refresh_token : String → String
  hash_refresh_token token = rt.sha256_hex token

  unfoldable pub validate_refresh_hash : String → String → Bool
  unfolding hash_refresh_token constant_time_compare
  validate_refresh_hash token stored_hash =
      constant_time_compare (hash_refresh_token token) stored_hash == 1
