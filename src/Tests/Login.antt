-- ===== src/Tests/Login.antt =====
-- The verification of a code and the login in the small world.
use realtime_messaging_platf.Chatmgmt.App.VerifyOtp.{verify_otp}
use realtime_messaging_platf.Domain.Phone.{matches_e164, PhoneNumber, new_phone_number}
use realtime_messaging_platf.Auth.Tokens.{mint_access_token}
use realtime_messaging_platf.Auth.Refresh.{generate_refresh_token}
use realtime_messaging_platf.Chatmgmt.App.Login.{
  create_login_session, evict_each, enforce_session_limit, evict_conflicting_sessions, older,
  oldest_sessions, verify_otp_existing_user,
}
use realtime_messaging_platf.Prelude.{
  ℕ, ◌-◌, ◌+◌, ◌≡◌, ◌≢◌, ◌⊎◌, ◌||◌, refl, true, false, String, str_eq, str_ltb, none, some, arith,
  eq_iff, if◌then◌else◌, List, [], ◌∷◌, All, drop, length,
}
use realtime_messaging_platf.Domain.Errors.{Error, is, rate_limited, unavailable}
use realtime_messaging_platf.Effect.{Result, ok, err}
use realtime_messaging_platf.Chatmgmt.App.{OtpRecord, SessionRecord, UserRecord, VerifyOtpResult}
use realtime_messaging_platf.Chatmgmt.App.VerifyOtp.Codes.{verify_otp-limited}
use realtime_messaging_platf.Chatmgmt.App.Login.Limit.{
  Fits, oldest_sessions-oldest, verify_otp_existing_user-Fits,
}
use realtime_messaging_platf.Tests.Memory.{World, service, fresh}
use realtime_messaging_platf.Tests.Sorting.{insertion_sort, insertion_sort-SortContract}
use realtime_messaging_platf.Tests.Contracts.{eviction_contract}

abbrev session : String → String → String → SessionRecord
session id device_id created_at = record {
  session_id = id;
  user_id = "u-1";
  device_id = device_id;
  refresh_token_hash = "r";
  prev_token_hash = "";
  created_at = created_at;
  expires_at = "2026-02-01T00:00:00Z";
  token_generation = 1;
  ttl = 0;
}

-- Five sessions on other devices, out of order, and one on the device of the login.
abbrev others : List SessionRecord
others =
    session "s-3" "d-3" "2026-01-03"
    ∷ session "s-1" "d-1" "2026-01-01"
    ∷ session "s-5" "d-5" "2026-01-05"
    ∷ session "s-2" "d-2" "2026-01-02"
    ∷ session "s-4" "d-4" "2026-01-04"
    ∷ []

abbrev otp_record : ℕ → OtpRecord
otp_record attempts = record {
  phone_hash = "+15551234567";
  otp_mac = "123456+155512345672026-01-01T00:05:00Z";
  otp_ciphertext = "";
  created_at = "2026-01-01T00:00:00Z";
  expires_at = "2026-01-01T00:05:00Z";
  status = "pending";
  attempt_count = attempts;
  ttl = 0;
}

abbrev user : UserRecord
user = record {
  user_id = "u-1";
  phone_number = "+15551234567";
  display_name = "";
  created_at = "";
  updated_at = "";
}

abbrev with_otp : ℕ → World
with_otp attempts = record fresh {
  otps = λ h. if str_eq "+15551234567" h then some (otp_record attempts) else none;
  listing = session "s-6" "d-6" "2026-01-06" ∷ others;
  user = ok user;
}

abbrev logged_in : Result VerifyOtpResult × World
logged_in = verify_otp_existing_user service "+15551234567" (otp_record 0) user "d-6" (with_otp 0)

abbrev login_result : VerifyOtpResult
login_result = record {
  user = user;
  session_id = "s-new";
  access_token = "access-new";
  refresh_token = "r-new";
  is_new_user = false;
  access_token_expiry = 3607;
}

abbrev verified : Result VerifyOtpResult × World
verified = verify_otp service "+15551234567" "123456" "d-6" (with_otp 0)

abbrev phone : PhoneNumber
phone = record { value = "+15551234567" }

oldest_sessions-oldest_example :
    All
      (λ gone.
        All
          (λ kept. str_ltb kept.created_at gone.created_at ≡ false)
          (drop (length others - 5 + 1) (insertion_sort older others)))
      (oldest_sessions service others)
oldest_sessions-oldest_example = oldest_sessions-oldest service insertion_sort-SortContract others

verify_otp_existing_user-Fits_example :
    Fits service insertion_sort-SortContract eviction_contract "+15551234567"
      (otp_record 0)
      user
      "d-6"
      (with_otp 0)
      logged_in.1
      login_result
unfolding verify_otp_existing_user evict_conflicting_sessions enforce_session_limit evict_each
    insertion_sort older create_login_session generate_refresh_token mint_access_token
verify_otp_existing_user-Fits_example =
    verify_otp_existing_user-Fits service insertion_sort-SortContract eviction_contract
      "+15551234567" (otp_record 0) user "d-6" (with_otp 0) logged_in.1 login_result refl

pending_not_verified : ◌≢◌ {A = String} "pending" "verified"
pending_not_verified = ground (arith, eq_iff "pending" "verified")

abbrev refusing : World
refusing = record fresh { limiter = (false, none) }

device_given : ◌≢◌ {A = String} "d-6" ""
device_given = ground (arith, eq_iff "d-6" "")

verify_otp-limited_example :
    (e : Error) × ((verify_otp service "+15551234567" "123456" "d-6" refusing ≡ (err e, refusing))
      ⊎ (verify_otp service "+15551234567" "123456" "d-6" refusing ≡ (err e, refusing)))
    × ((is e unavailable || is e rate_limited) ≡ true)
unfolding new_phone_number matches_e164
verify_otp-limited_example =
    verify_otp-limited service "+15551234567" "123456" "d-6" refusing refusing refusing false false
      none none phone refl device_given refl refl (λ _ allowed. absurd (ground arith))
