-- ===== src/Tests/Request.antt =====
-- The request for a code in the small world.
use realtime_messaging_platf.Auth.Otp.{generate_otp}
use realtime_messaging_platf.Chatmgmt.App.RequestOtp.{
  check_ip_limit, check_phone_limit, request_otp, issue_otp,
}
use realtime_messaging_platf.Domain.Phone.{valid, matches_e164, new_phone_number, PhoneNumber}
use realtime_messaging_platf.Prelude.{none, ◌≢◌, false, ◌≡◌, ◌||◌, refl, true, some, arith}
use realtime_messaging_platf.Domain.Errors.{Error, plain, is, unavailable, phone_rate_limited}
use realtime_messaging_platf.Effect.{Result, err}
use realtime_messaging_platf.Chatmgmt.App.{RequestOtpResult}
use realtime_messaging_platf.Chatmgmt.App.RequestOtp.Limits.{
  phone_check, ip_check, request_otp-admitted, request_otp-phone_refused,
}
use realtime_messaging_platf.Chatmgmt.App.RequestOtp.Delivery.{Sent, request_otp-Sent}
use realtime_messaging_platf.Tests.Memory.{World, service, fresh}
use realtime_messaging_platf.Tests.Contracts.{otp_contract, delivery}

abbrev phone : PhoneNumber
phone = record { value = "+15551234567" }

abbrev requested : Result RequestOtpResult × World
requested = request_otp service "+15551234567" "203.0.113.9" fresh

abbrev request_result : RequestOtpResult
request_result = record { expires_at = 300_000_000_007; retry_after_seconds = 60 }

request_otp-Sent_example :
    Sent service otp_contract delivery
      (λ _ _ _. refl)
      "+15551234567"
      300_000_000_007
      fresh
      requested.1
unfolding request_otp new_phone_number matches_e164 check_phone_limit check_ip_limit issue_otp
    generate_otp
request_otp-Sent_example =
    request_otp-Sent service otp_contract delivery (λ _ _ _. refl) "+15551234567" "203.0.113.9"
      fresh requested.1 request_result refl

request_otp-admitted_example :
    ((n : PhoneNumber) × (new_phone_number "+15551234567" ≡ valid n))
    × ((phone_check service "+15551234567" fresh).0 ≡ (true, none))
    × ((ip_check service "203.0.113.9" (phone_check service "+15551234567" fresh).1).0
        ≢ (false, none))
unfolding request_otp new_phone_number matches_e164 check_phone_limit check_ip_limit issue_otp
    generate_otp
request_otp-admitted_example =
    request_otp-admitted service "+15551234567" "203.0.113.9" fresh requested.1 request_result refl

abbrev failing : World
failing = record fresh { limiter = (true, some (plain "redis is down")) }

request_otp-phone_refused_example :
    (e : Error) × (request_otp service "+15551234567" "203.0.113.9" failing ≡ (err e, failing))
    × ((is e unavailable || is e phone_rate_limited) ≡ true)
unfolding new_phone_number matches_e164
request_otp-phone_refused_example =
    request_otp-phone_refused service "+15551234567" "203.0.113.9" failing failing true
      (some (plain "redis is down")) phone refl refl (λ none_failed. absurd (ground arith))
