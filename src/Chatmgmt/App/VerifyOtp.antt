-- ===== src/Chatmgmt/App/VerifyOtp.antt =====
-- internal/chatmgmt/app/auth_verify_otp.go: the checks of a code, registration and the flow.
-- Login is in the module Login.
pub mod Codes
pub mod Delivered
pub mod Granted
pub mod Guesses
use Prim.Native.String.{◌++◌}
use realtime_messaging_platf.Prelude.{
  ℕ, ◌+◌, ◌/◌, Bool, true, false, not, ltb, leb, String, str_eq, Option, none, some, if◌then◌else◌,
}
use realtime_messaging_platf.Domain.Constants.{
  second, max_otp_verify_attempts, otp_rate_limit_window, otp_lockout_duration,
  refresh_token_lifetime,
}
use realtime_messaging_platf.Domain.Errors.{
  Error, sentinel, join, wrap, is, unavailable, rate_limited, invalid_otp, invalid_input, not_found,
  already_exists,
}
use realtime_messaging_platf.Domain.Phone.{valid, invalid, new_phone_number}
use realtime_messaging_platf.Effect.{
  Result, ok, err, Action, Verdict, pure, fail, label, call, attempt, ◌>>=◌, ◌>>◌,
}
use realtime_messaging_platf.Auth.Runtime.{unix}
use realtime_messaging_platf.Auth.Otp.{hash_phone, verify_otp_mac}
use realtime_messaging_platf.Auth.Refresh.{generate_refresh_token, hash_refresh_token}
use realtime_messaging_platf.Auth.Tokens.{MintResult, mint_access_token}
use realtime_messaging_platf.Chatmgmt.App.{
  AuthService, OtpRecord, UserRecord, RegistrationParams, VerifyOtpResult,
}
use realtime_messaging_platf.Chatmgmt.App.Login.{verify_otp_existing_user}

-- Both limiter answers fail closed.
attempts_verdict : Verdict → Result Unit
attempts_verdict (allowed, some e) =
    err (wrap "check verify rate limit" (join e (sentinel unavailable)))
attempts_verdict (allowed, none) = if allowed then ok tt else err (sentinel rate_limited)

lockout_verdict : Verdict → Result Unit
lockout_verdict (locked, some e) = err (wrap "check lockout" (join e (sentinel unavailable)))
lockout_verdict (locked, none) = if locked then err (sentinel rate_limited) else ok tt

module _ {W K P : Type 0} (s : AuthService W K P) where
  unfoldable pub check_verify_rate_limits : String → Action W Unit
  unfolding attempts_verdict lockout_verdict
  check_verify_rate_limits phone_hash = do
    allowed ← call (
        s.rate_limiter.check_and_increment ("otp_verify:phone:" ++ phone_hash)
          max_otp_verify_attempts (otp_rate_limit_window / second))
    (λ w. (attempts_verdict allowed, w))
    locked ← call (s.rate_limiter.check_lockout ("otp_lockout:phone:" ++ phone_hash))
    (λ w. (lockout_verdict locked, w))

  -- The checks of a record that was found, in order.
  check_mac : OtpRecord → String → String → Action W OtpRecord
  check_mac record' phone_hash otp_candidate =
      if verify_otp_mac s.runtime s.pepper otp_candidate phone_hash record'.expires_at
        record'.otp_mac
      then pure record'
      else do attempt (s.otp_store.increment_attempts phone_hash); fail (sentinel invalid_otp)

  check_expiry : OtpRecord → String → String → Action W OtpRecord
  unfolding check_mac
  check_expiry record' phone_hash otp_candidate = do
    expires_at ← label "parse OTP expiry" (λ w. (s.runtime.parse_rfc3339 record'.expires_at, w))
    now ← call s.runtime.now
    if ltb expires_at now
        then fail (sentinel invalid_otp)
        else check_mac record' phone_hash otp_candidate

  check_record : String → String → Result OtpRecord → Action W OtpRecord
  unfolding check_expiry
  check_record phone_hash otp_candidate (err e) =
      if is e not_found then fail (sentinel invalid_otp) else fail (wrap "get OTP" e)
  check_record phone_hash otp_candidate (ok record') =
      if str_eq record'.status "verified"
      then fail (sentinel invalid_otp)
      else if leb max_otp_verify_attempts record'.attempt_count
      then (do
        attempt (
            s.rate_limiter.set_lockout ("otp_lockout:phone:" ++ phone_hash)
              (otp_lockout_duration / second))
        fail (sentinel rate_limited))
      else check_expiry record' phone_hash otp_candidate

  unfoldable pub validate_otp_record : String → String → Action W OtpRecord
  unfolding check_record
  validate_otp_record phone_hash otp_candidate = do
    found ← attempt (s.otp_store.get_otp phone_hash)
    check_record phone_hash otp_candidate found

  registration_params :
      String → String → OtpRecord → String → String → String → ℕ → String → RegistrationParams
  registration_params phone phone_hash record' device_id user_id session_id now refresh_hash =
      record {
        phone_hash = phone_hash;
        otp_expires_at = record'.expires_at;
        otp_mac = record'.otp_mac;
        user_id = user_id;
        phone_number = phone;
        now = s.runtime.format_rfc3339 now;
        session_id = session_id;
        device_id = device_id;
        refresh_token_hash = refresh_hash;
        session_expires_at = s.runtime.format_rfc3339 (now + refresh_token_lifetime);
        session_ttl = unix (now + refresh_token_lifetime);
      }

  registered : String → String → String → String → String → MintResult → VerifyOtpResult
  registered phone user_id session_id now_str refresh_token minted = record {
    user = record {
      user_id = user_id;
      phone_number = phone;
      display_name = "";
      created_at = now_str;
      updated_at = now_str;
    };
    session_id = session_id;
    access_token = minted.token;
    refresh_token = refresh_token;
    is_new_user = true;
    access_token_expiry = minted.expires_at;
  }

  -- What follows the registration transaction: a user that exists already logs in.
  after_register : RegistrationParams → OtpRecord → String → Result Unit → Action W VerifyOtpResult
  unfolding registered
  after_register p record' refresh_token (err e) =
      if is e already_exists
      then (do
        user ← label "find user after race" (s.user_store.find_by_phone p.phone_number)
        verify_otp_existing_user s p.phone_hash record' user p.device_id)
      else fail (wrap "register user" e)
  after_register p record' refresh_token (ok _) = do
    minted ←
        label "mint access token"
          (mint_access_token s.runtime s.jwt_library s.minter p.user_id p.session_id)
    pure (registered p.phone_number p.user_id p.session_id p.now refresh_token minted)

  unfoldable pub verify_otp_new_user :
      String → String → OtpRecord → String → Action W VerifyOtpResult
  unfolding registration_params after_register
  verify_otp_new_user phone phone_hash record' device_id = do
    user_id ← call s.runtime.new_uuid
    session_id ← call s.runtime.new_uuid
    now ← call s.runtime.now
    refresh_token ← label "generate refresh token" (generate_refresh_token s.runtime)
    let p =
        registration_params phone phone_hash record' device_id user_id session_id now
          (hash_refresh_token s.runtime refresh_token)
    registration ← attempt (s.transactor.verify_otp_and_create_user p)
    after_register p record' refresh_token registration

  -- What follows the search for the user.
  unfoldable pub after_find :
      String → String → OtpRecord → String → Result UserRecord → Action W VerifyOtpResult
  after_find phone phone_hash record' device_id (err e) =
      if not (is e not_found)
      then fail (wrap "find user by phone" e)
      else verify_otp_new_user phone phone_hash record' device_id
  after_find phone phone_hash record' device_id (ok user) =
      verify_otp_existing_user s phone_hash record' user device_id

  verify_valid : String → String → String → Action W VerifyOtpResult
  unfolding after_find
  verify_valid phone otp_candidate device_id =
      if str_eq device_id ""
      then fail (wrap "device ID is required" (sentinel invalid_input))
      else do
        let phone_hash = hash_phone s.runtime phone
        check_verify_rate_limits phone_hash
        record' ← validate_otp_record phone_hash otp_candidate
        found ← attempt (s.user_store.find_by_phone phone)
        after_find phone phone_hash record' device_id found

  unfoldable pub verify_otp : String → String → String → Action W VerifyOtpResult
  unfolding verify_valid
  verify_otp phone otp_candidate device_id = elim (new_phone_number phone) [
    | invalid e ↦ fail e
    | valid _ ↦ verify_valid phone otp_candidate device_id
  ]
