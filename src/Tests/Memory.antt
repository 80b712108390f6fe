-- ===== src/Tests/Memory.antt =====
-- A small world for the tests: tables, a clock, a text outbox and fixed randomness in memory.
use realtime_messaging_platf.Prelude.{
  ℕ, true, false, String, str_eq, List, [], ◌∷◌, Option, none, some, if◌then◌else◌,
}
use realtime_messaging_platf.Domain.Errors.{sentinel, jwt, already_exists, not_found, token_expired}
use realtime_messaging_platf.Effect.{Result, ok, err, Verdict}
use realtime_messaging_platf.Auth.Runtime.{Runtime}
use realtime_messaging_platf.Auth.Tokens.{Claims, KeyStore, JwtLibrary, Validator}
use realtime_messaging_platf.Chatmgmt.App.{
  AuthService, OtpRecord, UserRecord, SessionRecord, SessionUpdate, OtpStore, SessionStore,
}
use realtime_messaging_platf.Chatmgmt.App.Contract.{updated}
use realtime_messaging_platf.Tests.Sorting.{insertion_sort}

pub record World : Type 0 where
  pub time : ℕ
  pub otps : String → Option OtpRecord
  pub sessions : String → Option SessionRecord
  pub listing : List SessionRecord
  pub user : Result UserRecord
  pub revoked : List String
  pub outbox : List (String × String)
  -- The answers of the limiter: for a phone or address, and for a lockout.
  pub limiter : Verdict
  pub lockout : Verdict

abbrev pub runtime : Runtime World
runtime = record {
  now = λ w. (w.time, w);
  new_uuid = λ w. ("s-new", w);
  rand_int = λ max w. (ok 123456, w);
  rand_read = λ n w. (ok [], w);
  sha256_hex = λ m. m;
  hmac_sha256_hex = λ key m. m;
  raw_url_encode = λ b. "r-new";
  format_rfc3339 = λ t. "2026-01-01T00:00:00Z";
  parse_rfc3339 = λ t. ok 1000;
}

abbrev pub put_otp : World → OtpRecord → World
put_otp w r = record w { otps = λ h. if str_eq r.phone_hash h then some r else w.otps h }

abbrev pub create_in : OtpRecord → World → Option OtpRecord → Result Unit × World
create_in r w none = (ok tt, put_otp w r)
create_in r w (some _) = (err (sentinel already_exists), w)

abbrev pub or_missing : {A : Type 0} → Option A → Result A
or_missing none = err (sentinel not_found)
or_missing (some a) = ok a

abbrev pub otp_store : OtpStore World
otp_store = record {
  create_otp = λ r w. create_in r w (w.otps r.phone_hash);
  get_otp = λ h w. (or_missing (w.otps h), w);
  increment_attempts = λ h w. (ok tt, w);
}

abbrev pub update_in : String → SessionUpdate → World → Option SessionRecord → Result Unit × World
update_in id u w none = (err (sentinel not_found), w)
update_in id u w (some r) =
    (ok tt, record w { sessions = λ j. if str_eq id j then some (updated u r) else w.sessions j })

abbrev pub session_store : SessionStore World
session_store = record {
  create = λ r w.
      (ok tt, record w { sessions = λ j. if str_eq r.session_id j then some r else w.sessions j });
  get_by_id = λ id w. (or_missing (w.sessions id), w);
  list_by_user = λ u w. (ok w.listing, w);
  update = λ id u w. update_in id u w (w.sessions id);
  delete = λ id w. (ok tt, record w { sessions = λ j. if str_eq id j then none else w.sessions j });
}

abbrev pub claims : Claims
claims = record {
  subject = "u-1";
  issuer = "messaging-platform";
  audience = "messaging-api" ∷ [];
  issued_at = 0;
  expires_at = 500;
  id = "jti-1";
  session_id = "s-1";
  scope = "messaging";
}

-- One token is known, and it has expired; another is fresh.
abbrev pub jwt_library : JwtLibrary World Unit Unit
jwt_library = record {
  numeric_date = λ t. t;
  sign = λ k kid c w. (ok "access-new", w);
  parse_with_claims = λ token key_func options w. (
    if str_eq token "access-1"
        then record { claims = claims; has_token = true; error = some (jwt token_expired) }
        else record { claims = claims; has_token = true; error = none },
    w,
  );
}

abbrev pub key_store : KeyStore World Unit Unit
key_store = record {
  signing_key = λ w. (ok (tt, "dev-key-001"), w);
  public_key = λ kid w. (ok tt, w);
}

abbrev pub validator : Validator World Unit Unit
validator = record {
  key_store = key_store;
  issuer = "messaging-platform";
  audience = "messaging-api";
}

abbrev pub service : AuthService World Unit Unit
service = record {
  runtime = runtime;
  jwt_library = jwt_library;
  otp_store = otp_store;
  user_store = record { get_by_id = λ id w. (w.user, w); find_by_phone = λ p w. (w.user, w) };
  session_store = session_store;
  transactor = record {
    verify_otp_and_create_user = λ p w. (ok tt, w);
    verify_otp_and_create_session = λ p w. (ok tt, w);
  };
  rate_limiter = record {
    check_and_increment = λ k limit window w. (w.limiter, w);
    check_lockout = λ k w. (w.lockout, w);
    set_lockout = λ k ttl w. (ok tt, w);
  };
  revocation_store = record {
    revoke = λ jti w. (ok tt, record w { revoked = jti ∷ w.revoked });
    is_revoked = λ jti w. ((false, none), w);
  };
  go_send_otp = λ phone otp w. record w { outbox = (phone, otp) ∷ w.outbox };
  sort_slice = insertion_sort;
  minter = record {
    key_store = key_store;
    access_ttl = 3600;
    issuer = "messaging-platform";
    audience = "messaging-api";
  };
  validator = validator;
  pepper = "pepper";
}

abbrev pub fresh : World
fresh = record {
  time = 7;
  otps = λ h. none;
  sessions = λ id. none;
  listing = [];
  user = err (sentinel not_found);
  revoked = [];
  outbox = [];
  limiter = (true, none);
  lockout = (false, none);
}
