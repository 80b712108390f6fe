-- ===== src/Chatmgmt/App/RequestOtp.antt =====
-- internal/chatmgmt/app/auth_request_otp.go.
pub mod Limits
pub mod Delivery
use Prim.Native.String.{◌++◌}
use realtime_messaging_platf.Prelude.{
  ℕ, ◌+◌, ◌/◌, Bool, true, false, String, Option, none, some, if◌then◌else◌,
}
use realtime_messaging_platf.Domain.Constants.{
  second, otp_request_rate_limit_per_phone, otp_request_rate_limit_per_ip, otp_rate_limit_window,
  otp_validity_duration,
}
use realtime_messaging_platf.Domain.Errors.{
  Error, sentinel, join, wrap, is, unavailable, phone_rate_limited, ip_rate_limited, already_exists,
}
use realtime_messaging_platf.Domain.Phone.{Validated, valid, invalid, new_phone_number}
use realtime_messaging_platf.Effect.{
  Result, ok, err, Action, Verdict, pure, fail, label, call, attempt, ◌>>=◌, ◌>>◌,
}
use realtime_messaging_platf.Auth.Runtime.{unix}
use realtime_messaging_platf.Auth.Otp.{generate_otp, hash_phone, compute_otp_mac}
use realtime_messaging_platf.Chatmgmt.App.{AuthService, OtpRecord, RequestOtpResult}

abbrev pub otp_retry_after_seconds : ℕ
otp_retry_after_seconds = 60

abbrev pub window_seconds : ℕ
window_seconds = otp_rate_limit_window / second

-- Fail-closed: an error of the limiter refuses the request.
phone_verdict : Verdict → Result Unit
phone_verdict (allowed, some e) =
    err (wrap "check phone rate limit" (join e (sentinel unavailable)))
phone_verdict (allowed, none) = if allowed then ok tt else err (sentinel phone_rate_limited)

-- Fail-open: an error of the limiter is logged.
ip_verdict : Verdict → Result Unit
ip_verdict (allowed, some e) = ok tt
ip_verdict (allowed, none) = if allowed then ok tt else err (sentinel ip_rate_limited)

module _ {W K P : Type 0} (s : AuthService W K P) where
  unfoldable pub check_phone_limit : String → Action W Unit
  unfolding phone_verdict
  check_phone_limit phone_hash w =
      let (v, w') =
        s.rate_limiter.check_and_increment ("otp_req:phone:" ++ phone_hash)
          otp_request_rate_limit_per_phone window_seconds w in
      (phone_verdict v, w')

  unfoldable pub check_ip_limit : String → Action W Unit
  unfolding ip_verdict
  check_ip_limit client_ip w =
      let (v, w') =
        s.rate_limiter.check_and_increment ("otp_req:ip:" ++ client_ip)
          otp_request_rate_limit_per_ip window_seconds w in
      (ip_verdict v, w')

  new_record : String → String → ℕ → OtpRecord
  new_record phone_hash otp now = record {
    phone_hash = phone_hash;
    otp_mac =
        compute_otp_mac s.runtime s.pepper otp phone_hash
          (s.runtime.format_rfc3339 (now + otp_validity_duration));
    otp_ciphertext = "";
    created_at = s.runtime.format_rfc3339 now;
    expires_at = s.runtime.format_rfc3339 (now + otp_validity_duration);
    status = "pending";
    attempt_count = 0;
    ttl = unix (now + otp_validity_duration);
  }

  -- An active OTP exists: its expiry is the answer.
  existing_otp : String → Action W RequestOtpResult
  existing_otp phone_hash = do
    existing ← label "get existing OTP" (s.otp_store.get_otp phone_hash)
    parsed_expiry ←
        label "parse existing OTP expiry" (λ w. (s.runtime.parse_rfc3339 existing.expires_at, w))
    pure (record { expires_at = parsed_expiry; retry_after_seconds = otp_retry_after_seconds })

  -- What follows CreateOTP, by its result.
  after_create : String → String → String → ℕ → Result Unit → Action W RequestOtpResult
  unfolding existing_otp
  after_create phone phone_hash otp expires_at (err e) =
      if is e already_exists then existing_otp phone_hash else fail (wrap "create OTP" e)
  after_create phone phone_hash otp expires_at (ok _) = do
    call (λ w. (tt {0}, s.go_send_otp phone otp w))
    pure (record { expires_at = expires_at; retry_after_seconds = otp_retry_after_seconds })

  -- Steps 4 to 7: generate, store, send.
  unfoldable pub issue_otp : String → String → Action W RequestOtpResult
  unfolding new_record after_create
  issue_otp phone phone_hash = do
    otp ← label "generate OTP" (generate_otp s.runtime)
    now ← call s.runtime.now
    created ← attempt (s.otp_store.create_otp (new_record phone_hash otp now))
    after_create phone phone_hash otp (now + otp_validity_duration) created

  request_valid : String → String → String → Action W RequestOtpResult
  request_valid phone phone_hash client_ip = do
    check_phone_limit phone_hash
    check_ip_limit client_ip
    issue_otp phone phone_hash

  unfoldable pub request_otp : String → String → Action W RequestOtpResult
  unfolding request_valid
  request_otp phone client_ip = elim (new_phone_number phone) [
    | invalid e ↦ fail e
    | valid _ ↦ request_valid phone (hash_phone s.runtime phone) client_ip
  ]
