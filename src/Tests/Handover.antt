-- ===== src/Tests/Handover.antt =====
-- A registration in the small world, and the refresh after it.
use realtime_messaging_platf.Prelude.{
  ◌+◌, String, true, none, ◌≡◌, ◌∙◌, refl, ap, sym, str_eq, eq_refl, some, if◌then◌else◌, arith,
}
use realtime_messaging_platf.Effect.{Result, ok}
use realtime_messaging_platf.Auth.Runtime.{Runtime, unix}
use realtime_messaging_platf.Auth.Refresh.{generate_refresh_token, hash_refresh_token}
use realtime_messaging_platf.Auth.Tokens.{
  validate_ignore_expiry, only_expired_error, is_jwt, mint_access_token,
}
use realtime_messaging_platf.Chatmgmt.App.{
  AuthService, SessionRecord, LoginParams, RegistrationParams, VerifyOtpResult, OtpRecord,
  UserRecord,
}
use realtime_messaging_platf.Chatmgmt.App.Contract.{RotationContract}
use realtime_messaging_platf.Chatmgmt.App.VerifyOtp.{
  verify_otp, check_verify_rate_limits, validate_otp_record, after_find, verify_otp_new_user,
}
use realtime_messaging_platf.Chatmgmt.App.VerifyOtp.Granted.{
  registered_row, RegistrationContract, refresh_tokens-verify_otp,
}
use realtime_messaging_platf.Domain.Errors.{is}
use realtime_messaging_platf.Domain.Constants.{refresh_token_lifetime}
use realtime_messaging_platf.Domain.Phone.{matches_e164, new_phone_number}
use realtime_messaging_platf.Auth.Otp.{hash_phone, verify_otp_mac}
use realtime_messaging_platf.Chatmgmt.App.Login.Handover.{session_row, LoginContract}
use realtime_messaging_platf.Chatmgmt.App.RefreshTokens.{refresh_tokens, rotate_refresh_token}
use realtime_messaging_platf.Tests.Memory
use realtime_messaging_platf.Tests.Memory.{World, fresh, claims}
use realtime_messaging_platf.Tests.Contracts.{or_missing-ok, update_in-ok}

abbrev runtime : Runtime World
runtime = record Memory.runtime { new_uuid = λ w. ("s-1", w) }

abbrev with_session : SessionRecord → World → World
with_session r w = record w {
  sessions = λ id. if str_eq r.session_id id then some r else w.sessions id;
}

abbrev service : AuthService World Unit Unit
service = record Memory.service {
  runtime = runtime;
  transactor = record {
    verify_otp_and_create_user = λ p w. (ok tt, with_session (registered_row p) w);
    verify_otp_and_create_session = λ p w. (ok tt, with_session (session_row p) w);
  };
}

abbrev rotation : RotationContract service
rotation = record {
  session_at = λ w. w.sessions;
  get_ok = λ id w w' r e.
      or_missing-ok (w.sessions id) r (ap (λ (x : Result SessionRecord × World). x.0) e);
  get_keeps = λ id w. refl;
  update_ok = λ id u w w' r e a. update_in-ok id u w w' r (w.sessions id) e a;
  read_keeps = λ n w. refl;
  now_keeps = λ w. refl;
  uuid_keeps = λ w. refl;
  key_keeps = λ w. refl;
  sign_keeps = λ k kid c w. refl;
}

created :
    (p : LoginParams) (w w' : World)
    → service.transactor.verify_otp_and_create_session p w ≡ (ok tt, w')
    → w'.sessions p.session_id ≡ some (session_row p)
created p w w' h =
    ap (λ (x : Result Unit × World). x.1.sessions p.session_id) (sym h)
    ∙ rw (eq_refl p.session_id) refl

abbrev login_contract : LoginContract service rotation
login_contract = record { session_created = created }

abbrev pub code : OtpRecord
code = record {
  phone_hash = "h";
  otp_mac = "m";
  otp_ciphertext = "c";
  created_at = "t";
  expires_at = "e";
  status = "pending";
  attempt_count = 0;
  ttl = 9;
}

abbrev pub user : UserRecord
user = record {
  user_id = "u-1";
  phone_number = "+15551234567";
  display_name = "";
  created_at = "t";
  updated_at = "t";
}

registered :
    (p : RegistrationParams) (w w' : World)
    → service.transactor.verify_otp_and_create_user p w ≡ (ok tt, w')
    → w'.sessions p.session_id ≡ some (registered_row p)
registered p w w' h =
    ap (λ (x : Result Unit × World). x.1.sessions p.session_id) (sym h)
    ∙ rw (eq_refl p.session_id) refl

abbrev registration_contract : RegistrationContract service rotation
registration_contract = record { session_registered = registered }

abbrev pending : OtpRecord
pending = record code { phone_hash = "+15551234567"; otp_mac = "123456+15551234567e" }

abbrev ready : World
ready = record fresh { otps = λ h. if str_eq "+15551234567" h then some pending else none }

abbrev row : SessionRecord
row = record {
  session_id = "s-1";
  user_id = "s-1";
  device_id = "d-1";
  refresh_token_hash = "r-new";
  prev_token_hash = "";
  created_at = "2026-01-01T00:00:00Z";
  expires_at = "2026-01-01T00:00:00Z";
  token_generation = 1;
  ttl = 2_592_000;
}

abbrev granted : World
granted = with_session row ready

abbrev registration : VerifyOtpResult
registration = record {
  user = record {
    user_id = "s-1";
    phone_number = "+15551234567";
    display_name = "";
    created_at = "2026-01-01T00:00:00Z";
    updated_at = "2026-01-01T00:00:00Z";
  };
  session_id = "s-1";
  access_token = "access-new";
  refresh_token = "r-new";
  is_new_user = true;
  access_token_expiry = 3607;
}

refresh_tokens-verify_otp_example :
    ((v : World) × (◌≡◌ {A = String} "2026-01-01T00:00:00Z"
        (runtime.format_rfc3339 (runtime.now v).0))
      × (◌≡◌ {A = String} "2026-01-01T00:00:00Z"
          (runtime.format_rfc3339 ((runtime.now v).0 + refresh_token_lifetime))))
    × (refresh_tokens service "access-1" "r-new" "d-1" granted
        ≡ rotate_refresh_token service "u-1" "s-1" row granted)
unfolding verify_otp new_phone_number matches_e164 check_verify_rate_limits validate_otp_record
    hash_phone verify_otp_mac after_find verify_otp_new_user generate_refresh_token
    hash_refresh_token unix mint_access_token validate_ignore_expiry only_expired_error is_jwt is
refresh_tokens-verify_otp_example =
    refresh_tokens-verify_otp service rotation login_contract registration_contract "+15551234567"
      "123456" "d-1" "access-1" ready granted granted granted granted granted registration claims
      row 7 1000 refl refl refl refl refl refl refl (omega arith)
