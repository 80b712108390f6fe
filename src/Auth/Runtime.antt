-- ===== src/Auth/Runtime.antt =====
-- What the program takes from the Go library and the machine: the clock, randomness, hashes and
-- the RFC 3339 form of a time. An instant is a number of nanoseconds since the epoch.
use realtime_messaging_platf.Prelude.{ℕ, ◌/◌, String, List}
use realtime_messaging_platf.Domain.Constants.{second}
use realtime_messaging_platf.Effect.{Result, Action}

pub record Runtime (W : Type 0) : Type 0 where
  -- domain.Clock: the reading may move the world on.
  pub now : W → ℕ × W
  -- uuid.NewString.
  pub new_uuid : W → String × W
  -- rand.Int(rand.Reader, max) and rand.Read.
  pub rand_int : ℕ → Action W ℕ
  pub rand_read : ℕ → Action W (List ℕ)
  -- hex.EncodeToString of sha256.Sum256 and of HMAC-SHA256 under a key.
  pub sha256_hex : String → String
  pub hmac_sha256_hex : String → String → String
  -- base64.RawURLEncoding.EncodeToString.
  pub raw_url_encode : List ℕ → String
  -- Time.Format(time.RFC3339) and time.Parse(time.RFC3339, …).
  pub format_rfc3339 : ℕ → String
  pub parse_rfc3339 : String → Result ℕ

-- Time.Unix and Time.UnixMilli.
unfoldable pub unix : ℕ → ℕ
unix t = t / second

unfoldable pub unix_milli : ℕ → ℕ
unix_milli t = t / 1_000_000
