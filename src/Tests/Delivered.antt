-- ===== src/Tests/Delivered.antt =====
-- A code that was requested in the small world, and its verification.
use realtime_messaging_platf.Prelude.{◌≡◌, ◌≢◌, refl, String, eq_iff, arith}
use realtime_messaging_platf.Domain.Errors.{sentinel, not_found}
use realtime_messaging_platf.Domain.Phone.{matches_e164, new_phone_number}
use realtime_messaging_platf.Effect.{Result, err}
use realtime_messaging_platf.Auth.Runtime.{unix}
use realtime_messaging_platf.Auth.Otp.{generate_otp, zero_padded, hash_phone, compute_otp_mac}
use realtime_messaging_platf.Chatmgmt.App.{OtpRecord, RequestOtpResult}
use realtime_messaging_platf.Chatmgmt.App.RequestOtp.{
  request_otp, check_phone_limit, check_ip_limit, issue_otp,
}
use realtime_messaging_platf.Chatmgmt.App.VerifyOtp.{
  check_verify_rate_limits, verify_otp, after_find,
}
use realtime_messaging_platf.Chatmgmt.App.VerifyOtp.Delivered.{verify_otp-request_otp}
use realtime_messaging_platf.Tests.Memory.{World, service, fresh}
use realtime_messaging_platf.Tests.Contracts.{otp_contract, delivery}

abbrev requested : Result RequestOtpResult × World
requested = request_otp service "+15551234567" "203.0.113.9" fresh

abbrev code : String
code = zero_padded 6 123456

abbrev sent_record : OtpRecord
unfolding compute_otp_mac unix
sent_record = record {
  phone_hash = "+15551234567";
  otp_mac = compute_otp_mac service.runtime "pepper" code "+15551234567" "2026-01-01T00:00:00Z";
  otp_ciphertext = "";
  created_at = "2026-01-01T00:00:00Z";
  expires_at = "2026-01-01T00:00:00Z";
  status = "pending";
  attempt_count = 0;
  ttl = unix 300_000_000_007;
}

device_given : ◌≢◌ {A = String} "d-1" ""
device_given = ground (arith, eq_iff "d-1" "")

verify_otp-request_otp_example :
    verify_otp service "+15551234567" code "d-1" requested.1
    ≡ after_find service "+15551234567" "+15551234567" sent_record "d-1"
        (err (sentinel not_found))
        requested.1
unfolding request_otp new_phone_number matches_e164 check_phone_limit check_ip_limit issue_otp
    generate_otp hash_phone check_verify_rate_limits compute_otp_mac unix
verify_otp-request_otp_example =
    verify_otp-request_otp service otp_contract delivery (λ _ _ _. refl) "+15551234567"
      "203.0.113.9" code "d-1" fresh requested.1 requested.1 requested.1 requested.1 requested.1
      requested.1 (record { expires_at = 300_000_000_007; retry_after_seconds = 60 }) sent_record 7
      1000 (err (sentinel not_found)) refl refl device_given refl refl refl refl refl (omega arith)
      refl
