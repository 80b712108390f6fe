-- ===== src/Auth/Otp.antt =====
-- internal/auth/otp.go.
pub mod Mac
use Prim.Native.String.{◌++◌}
use realtime_messaging_platf.Prelude.{
  ℕ, zero, suc, ◌/◌, ◌%◌, ◌==◌, Bool, String, str_eq, if◌then◌else◌,
}
use realtime_messaging_platf.Effect.{Action, ok, err, pure, label, ◌>>=◌}
use realtime_messaging_platf.Auth.Runtime.{Runtime}

abbrev pub otp_max : ℕ
otp_max = 1_000_000

pub digit_text : ℕ → String
digit_text d =
    if d == 0
    then "0"
    else if d == 1
    then "1"
    else if d == 2
    then "2"
    else if d == 3
    then "3"
    else if d == 4
    then "4"
    else if d == 5
    then "5"
    else if d == 6
    then "6"
    else if d == 7
    then "7"
    else if d == 8
    then "8"
    else "9"

-- fmt.Sprintf("%0kd", n), for n < 10 ^ k.
pub zero_padded : ℕ → ℕ → String
unfolding digit_text
zero_padded zero n = ""
zero_padded (suc k) n = zero_padded k (n / 10) ++ digit_text (n % 10)

-- subtle.ConstantTimeCompare: 1 when the contents are equal.
unfoldable pub constant_time_compare : String → String → ℕ
constant_time_compare a b = if str_eq a b then 1 else 0

module _ {W : Type 0} (rt : Runtime W) where
  unfoldable pub generate_otp : Action W String
  unfolding zero_padded
  generate_otp = do n ← label "generate OTP" (rt.rand_int otp_max); pure (zero_padded 6 n)

  unfoldable pub hash_phone : String → String
  hash_phone phone = rt.sha256_hex phone

  -- The three writes into the MAC are one message.
  unfoldable pub compute_otp_mac : String → String → String → String → String
  compute_otp_mac pepper otp phone_hash expires_at =
      rt.hmac_sha256_hex pepper ((otp ++ phone_hash) ++ expires_at)

  unfoldable pub verify_otp_mac : String → String → String → String → String → Bool
  unfolding compute_otp_mac constant_time_compare
  verify_otp_mac pepper otp_candidate phone_hash expires_at stored_mac =
      let candidate_mac = compute_otp_mac pepper otp_candidate phone_hash expires_at in
      constant_time_compare candidate_mac stored_mac == 1
