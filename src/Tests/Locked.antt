-- ===== src/Tests/Locked.antt =====
-- A table with one record of five failed attempts, and the limiter in a Redis in memory.
use realtime_messaging_platf.Prelude.{
  Bool, Option, ◌≡◌, ◌≢◌, ◌⊎◌, refl, true, ◌||◌, String, eq_iff, arith, [],
}
use realtime_messaging_platf.Domain.Errors.{
  Error, sentinel, not_found, is, unavailable, rate_limited,
}
use realtime_messaging_platf.Domain.Phone.{matches_e164, new_phone_number}
use realtime_messaging_platf.Effect.{ok, err}
use realtime_messaging_platf.Auth.Otp.{hash_phone}
use realtime_messaging_platf.Chatmgmt.App.{AuthService, OtpRecord}
use realtime_messaging_platf.Chatmgmt.App.VerifyOtp.{validate_otp_record, verify_otp}
use realtime_messaging_platf.Chatmgmt.Adapter.Redis.{
  rate_limit_script, check_lockout, set_lockout, check_and_increment,
}
use realtime_messaging_platf.Chatmgmt.Adapter.Redis.Locked.{limited, verify_otp-locked}
use realtime_messaging_platf.Tests.Redis.{Counts, server, cmd, key_contract, empty}
use realtime_messaging_platf.Tests.OneTable.{service_in}

abbrev spent : OtpRecord
spent = record {
  phone_hash = "+15551234567";
  otp_mac = "m";
  otp_ciphertext = "";
  created_at = "created";
  expires_at = "expiry";
  status = "pending";
  attempt_count = 5;
  ttl = 0;
}

abbrev service : AuthService Counts Unit Unit
service =
    record (service_in Counts (record {
      create = λ r w. (ok tt, w);
      get_by_id = λ id w. (err (sentinel not_found), w);
      list_by_user = λ u w. (ok [], w);
      update = λ id u w. (ok tt, w);
      delete = λ id w. (ok tt, w);
    })) {
      otp_store = record {
        create_otp = λ r w. (ok tt, w);
        get_otp = λ h w. (ok spent, w);
        increment_attempts = λ h w. (ok tt, w);
      };
    }

abbrev locked : Counts
locked = (set_lockout server cmd "otp_lockout:phone:+15551234567" 900 empty).1

abbrev counted : (Bool × Option Error) × Counts
counted = check_and_increment server cmd "otp_verify:phone:+15551234567" 5 900 locked

not_verified : ◌≢◌ {A = String} "pending" "verified"
not_verified = ground (arith, eq_iff "pending" "verified")

device_given : ◌≢◌ {A = String} "d-1" ""
device_given = ground (arith, eq_iff "d-1" "")

verify_otp-locked_example :
    (validate_otp_record (limited service server cmd key_contract) "+15551234567" "000000" empty
      ≡ (err (sentinel rate_limited), locked))
    × ((e : Error) × ((verify_otp
              (limited service server cmd key_contract)
              "+15551234567"
              "123456"
              "d-1"
              locked
            ≡ (err e, counted.1))
          ⊎ (verify_otp
                (limited service server cmd key_contract)
                "+15551234567"
                "123456"
                "d-1"
                locked
              ≡ (err e, (check_lockout server cmd "otp_lockout:phone:+15551234567" counted.1).1)))
        × ((is e unavailable || is e rate_limited) ≡ true))
unfolding new_phone_number matches_e164 hash_phone set_lockout check_and_increment rate_limit_script
verify_otp-locked_example =
    verify_otp-locked service server cmd key_contract "+15551234567" "000000" "123456" "d-1"
      (record { value = "+15551234567" }) spent empty empty locked locked counted.1 counted.0 refl
      refl not_verified (omega arith) refl device_given refl refl
