-- ===== src/Tests/Guesses.antt =====
-- A table with one record, in a world that is its count of failed attempts.
use realtime_messaging_platf.Prelude.{ℕ, ◌+◌, ◌-◌, ◌≤◌, ◌≡◌, refl, [], ◌∷◌, arith}
use realtime_messaging_platf.Domain.Errors.{sentinel, not_found}
use realtime_messaging_platf.Effect.{ok, err}
use realtime_messaging_platf.Chatmgmt.App.{AuthService, OtpRecord}
use realtime_messaging_platf.Auth.Otp.{verify_otp_mac}
use realtime_messaging_platf.Chatmgmt.App.VerifyOtp.{validate_otp_record}
use realtime_messaging_platf.Chatmgmt.App.VerifyOtp.Guesses.{
  AttemptContract, wrong_guesses, wrong_guesses-le,
}
use realtime_messaging_platf.Tests.OneTable.{service_in}

abbrev record_with : ℕ → OtpRecord
record_with attempts = record {
  phone_hash = "h";
  otp_mac = "123456hexpiry";
  otp_ciphertext = "";
  created_at = "created";
  expires_at = "expiry";
  status = "pending";
  attempt_count = attempts;
  ttl = 0;
}

abbrev service : AuthService ℕ Unit Unit
service =
    record (service_in ℕ (record {
      create = λ r w. (ok tt, w);
      get_by_id = λ id w. (err (sentinel not_found), w);
      list_by_user = λ u w. (ok [], w);
      update = λ id u w. (ok tt, w);
      delete = λ id w. (ok tt, w);
    })) {
      otp_store = record {
        create_otp = λ r w. (ok tt, w);
        get_otp = λ h w. (ok (record_with w), w);
        increment_attempts = λ h w. (ok tt, w + 1);
      };
    }

found-attempts :
    (w w' : ℕ) (r : OtpRecord) → service.otp_store.get_otp "h" w ≡ (ok r, w') → r.attempt_count ≡ w
found-attempts w w' r e = ground arith

abbrev contract : AttemptContract service "h"
contract = record {
  attempts = λ w. w;
  get_ok = found-attempts;
  get_keeps = λ w. refl;
  now_keeps = λ w. refl;
  lockout_keeps = λ k ttl w. refl;
  increments = λ w w1 r e. refl;
}

wrong_guesses-le_example :
    wrong_guesses service "h" contract "123456"
      ("000001" ∷ "000002" ∷ "123456" ∷ "000003" ∷ "000004" ∷ "000005" ∷ [])
      2
    ≤ 5 - 2
wrong_guesses-le_example =
    wrong_guesses-le service "h" contract "123456"
      ("000001" ∷ "000002" ∷ "123456" ∷ "000003" ∷ "000004" ∷ "000005" ∷ []) 2

-- Of the six candidates three are compared and wrong: the right one is not counted, and after the
-- fifth failed attempt none is looked at.
three_wrong :
    wrong_guesses service "h" contract "123456"
      ("000001" ∷ "000002" ∷ "123456" ∷ "000003" ∷ "000004" ∷ "000005" ∷ [])
      2
    ≡ 3
unfolding validate_otp_record verify_otp_mac
three_wrong = refl
