-- ===== src/Chatmgmt/App/VerifyOtp/Granted.antt =====
-- internal/chatmgmt/app/auth_verify_otp.go and auth_refresh.go together: the session that a
-- verification grants, by a login, a registration or a registration that lost a race.
use realtime_messaging_platf.Prelude.{
  ℕ, ◌+◌, ◌≤◌, ◌≡◌, refl, ap, sym, ◌∙◌, String, Option, some, arith, List,
}
use realtime_messaging_platf.Domain.Constants.{refresh_token_lifetime}
use realtime_messaging_platf.Domain.Errors.{Error}
use realtime_messaging_platf.Domain.Phone.{Validated, valid, invalid, new_phone_number}
use realtime_messaging_platf.Effect.{Result, ok, err}
use realtime_messaging_platf.Auth.Otp.{hash_phone}
use realtime_messaging_platf.Auth.Refresh.{
  hash_refresh_token, generate_refresh_token, refresh_token_bytes,
}
use realtime_messaging_platf.Auth.Tokens.{Claims, validate_ignore_expiry}
use realtime_messaging_platf.Chatmgmt.App.{
  AuthService, OtpRecord, UserRecord, SessionRecord, RegistrationParams, VerifyOtpResult,
}
use realtime_messaging_platf.Chatmgmt.App.Contract.{RotationContract}
use realtime_messaging_platf.Chatmgmt.App.Login.{
  create_login_session, evict_conflicting_sessions, enforce_session_limit, verify_otp_existing_user,
}
use realtime_messaging_platf.Chatmgmt.App.Login.Handover.{
  LoginContract, LoggedIn, create_login_session-LoggedIn, found-LoggedIn, refresh_tokens-LoggedIn,
}
use realtime_messaging_platf.Chatmgmt.App.RefreshTokens.{refresh_tokens, rotate_refresh_token}
use realtime_messaging_platf.Chatmgmt.App.RefreshTokens.Replay.{mint-keeps}
use realtime_messaging_platf.Chatmgmt.App.VerifyOtp.{
  registration_params, after_register, verify_otp_new_user, after_find, verify_valid, verify_otp,
  check_verify_rate_limits, validate_otp_record,
}

-- The row that the transaction of a registration writes.
abbrev pub registered_row : RegistrationParams → SessionRecord
registered_row p = record {
  session_id = p.session_id;
  user_id = p.user_id;
  device_id = p.device_id;
  refresh_token_hash = p.refresh_token_hash;
  prev_token_hash = "";
  created_at = p.now;
  expires_at = p.session_expires_at;
  token_generation = 1;
  ttl = p.session_ttl;
}

-- A registration that is carried out has written the row.
pub record RegistrationContract {W K P : Type 0} (s : AuthService W K P) (c : RotationContract s)
    : Type 0 where
  pub session_registered :
      (p : RegistrationParams) (w w' : W)
      → s.transactor.verify_otp_and_create_user p w ≡ (ok tt, w')
      → c.session_at w' p.session_id ≡ some (registered_row p)

module _ {W K P : Type 0} (s : AuthService W K P) (c : RotationContract s) (l : LoginContract s c)
    (g : RegistrationContract s c) where
  -- The table has the session of the answer, written at the time of a reading of the clock.
  abbrev pub Granted : String → VerifyOtpResult → W → Type 0
  Granted device_id res w =
      (v : W) × LoggedIn s c l device_id res (s.runtime.now v).0 (c.session_at w res.session_id)

  login-Granted :
      (phone_hash : String) (o : OtpRecord) (user : UserRecord) (device_id : String) (w w' : W)
      (res : VerifyOtpResult)
      → create_login_session s phone_hash o user device_id w ≡ (ok res, w')
      → Granted device_id res w'
  login-Granted phone_hash o user device_id w w' res h =
      let clock = (s.runtime.new_uuid w).1 in
      let w2 = (s.runtime.now clock).1 in
      (
        clock,
        create_login_session-LoggedIn s c l phone_hash o user device_id w w' res
            (s.runtime.rand_read refresh_token_bytes w2).0 refl h,
      )

  existing-Granted_of :
      (phone_hash : String) (o : OtpRecord) (user : UserRecord) (device_id : String) (w w' : W)
      (res : VerifyOtpResult) (listed : Result (List SessionRecord))
      → (s.session_store.list_by_user user.user_id w).0 ≡ listed
      → verify_otp_existing_user s phone_hash o user device_id w ≡ (ok res, w')
      → Granted device_id res w'
  unfolding verify_otp_existing_user
  existing-Granted_of phone_hash o user device_id w w' res (err x) e h = absurd (ground arith)
  existing-Granted_of phone_hash o user device_id w w' res (ok xs) e h =
      let w0 = (s.session_store.list_by_user user.user_id w).1 in
      let w1 = (evict_conflicting_sessions s xs device_id w0).1 in
      let w2 = (enforce_session_limit s xs device_id w1).1 in
      login-Granted phone_hash o user device_id w2 w' res (ground arith)

  existing-Granted :
      (phone_hash : String) (o : OtpRecord) (user : UserRecord) (device_id : String) (w w' : W)
      (res : VerifyOtpResult)
      → verify_otp_existing_user s phone_hash o user device_id w ≡ (ok res, w')
      → Granted device_id res w'
  existing-Granted phone_hash o user device_id w w' res h =
      existing-Granted_of phone_hash o user device_id w w' res
        (s.session_store.list_by_user user.user_id w).0 refl h

  -- The user that won the race, found by the phone.
  raced-Granted :
      (p : RegistrationParams) (o : OtpRecord) (w w' : W) (res : VerifyOtpResult) (token : String)
      (x : Error) (user : Result UserRecord)
      → (s.user_store.find_by_phone p.phone_number w).0 ≡ user
      → after_register s p o token (err x) w ≡ (ok res, w')
      → Granted p.device_id res w'
  unfolding after_register
  raced-Granted p o w w' res token x (err y) e h = absurd (ground arith)
  raced-Granted p o w w' res token x (ok user) e h =
      existing-Granted p.phone_hash o user p.device_id
        (s.user_store.find_by_phone p.phone_number w).1 w' res (ground arith)

  registered-Granted :
      (phone phone_hash device_id user_id session_id token : String) (o : OtpRecord)
      (clock w w1 w' : W) (res : VerifyOtpResult) (r : Result Unit)
      → s.transactor.verify_otp_and_create_user
          (registration_params s phone phone_hash o device_id user_id session_id
            (s.runtime.now clock).0
            (hash_refresh_token s.runtime token))
          w
        ≡ (r, w1)
      → after_register s
          (registration_params s phone phone_hash o device_id user_id session_id
            (s.runtime.now clock).0
            (hash_refresh_token s.runtime token))
          o
          token
          r
          w1
        ≡ (ok res, w')
      → Granted device_id res w'
  unfolding after_register registration_params
  registered-Granted phone phone_hash device_id user_id session_id token o clock w w1 w' res (err x)
        e h =
      let p =
        registration_params s phone phone_hash o device_id user_id session_id
          (s.runtime.now clock).0 (hash_refresh_token s.runtime token) in
      raced-Granted p o w1 w' res token x (s.user_store.find_by_phone phone w1).0 refl h
  registered-Granted phone phone_hash device_id user_id session_id token o clock w w1 w' res (ok u)
        e h =
      let p =
        registration_params s phone phone_hash o device_id user_id session_id
          (s.runtime.now clock).0 (hash_refresh_token s.runtime token) in
      let here = λ (f : String → Option SessionRecord). f session_id in
      (
        clock,
        (
          registered_row p,
          ground (
            arith,
            g.session_registered p w w1,
            ap here
                (mint-keeps s c user_id session_id w1 (s.minter.key_store.signing_key w1).0 refl),
          ),
          refl,
          ground arith,
          refl,
          refl,
        ),
      )

  new_user-Granted :
      (phone phone_hash device_id : String) (o : OtpRecord) (w w' : W) (res : VerifyOtpResult)
      (bytes : Result (List ℕ))
      → (s.runtime.rand_read refresh_token_bytes
          (s.runtime.now (s.runtime.new_uuid (s.runtime.new_uuid w).1).1).1).0
        ≡ bytes
      → verify_otp_new_user s phone phone_hash o device_id w ≡ (ok res, w')
      → Granted device_id res w'
  unfolding verify_otp_new_user generate_refresh_token
  new_user-Granted phone phone_hash device_id o w w' res (err e) b h = absurd (ground arith)
  new_user-Granted phone phone_hash device_id o w w' res (ok bytes) b h =
      let (user_id, w1) = s.runtime.new_uuid w in
      let (session_id, w2) = s.runtime.new_uuid w1 in
      let (now, w3) = s.runtime.now w2 in
      let w4 = (s.runtime.rand_read refresh_token_bytes w3).1 in
      let token = s.runtime.raw_url_encode bytes in
      let p =
        registration_params s phone phone_hash o device_id user_id session_id now
          (hash_refresh_token s.runtime token) in
      let (r, w5) = s.transactor.verify_otp_and_create_user p w4 in
      registered-Granted phone phone_hash device_id user_id session_id token o w2 w4 w5 w' res r
        refl (ground arith)

  found-Granted :
      (phone phone_hash device_id : String) (o : OtpRecord) (w w' : W) (res : VerifyOtpResult)
      (found : Result UserRecord)
      → after_find s phone phone_hash o device_id found w ≡ (ok res, w')
      → Granted device_id res w'
  unfolding after_find
  found-Granted phone phone_hash device_id o w w' res (ok user) h =
      existing-Granted phone_hash o user device_id w w' res h
  found-Granted phone phone_hash device_id o w w' res (err e) h =
      new_user-Granted phone phone_hash device_id o w w' res
        (s.runtime.rand_read refresh_token_bytes
          (s.runtime.now (s.runtime.new_uuid (s.runtime.new_uuid w).1).1).1).0
        refl (ground arith)

  valid-Granted :
      (phone candidate device_id : String) (w w' : W) (res : VerifyOtpResult) (v : Result OtpRecord)
      → (validate_otp_record s
          (hash_phone s.runtime phone)
          candidate
          (check_verify_rate_limits s (hash_phone s.runtime phone) w).1).0
        ≡ v
      → verify_valid s phone candidate device_id w ≡ (ok res, w')
      → Granted device_id res w'
  unfolding verify_valid
  valid-Granted phone candidate device_id w w' res (err e) v h = absurd (ground arith)
  valid-Granted phone candidate device_id w w' res (ok o) v h =
      let phone_hash = hash_phone s.runtime phone in
      let w1 = (check_verify_rate_limits s phone_hash w).1 in
      let w2 = (validate_otp_record s phone_hash candidate w1).1 in
      let (found, w3) = s.user_store.find_by_phone phone w2 in
      found-Granted phone phone_hash device_id o w3 w' res found (ground arith)

  verify_otp-Granted :
      (phone candidate device_id : String) (w w' : W) (res : VerifyOtpResult) (n : Validated)
      → new_phone_number phone ≡ n
      → verify_otp s phone candidate device_id w ≡ (ok res, w')
      → Granted device_id res w'
  unfolding verify_otp
  verify_otp-Granted phone candidate device_id w w' res (invalid x) e h = absurd (ground arith)
  verify_otp-Granted phone candidate device_id w w' res (valid n) e h =
      valid-Granted phone candidate device_id w w' res
        (validate_otp_record s (hash_phone s.runtime phone) candidate
          (check_verify_rate_limits s (hash_phone s.runtime phone) w).1).0
        refl (ground arith)

  -- Whichever way a verification succeeds, by a login, a registration or a login after a lost race,
  -- the session that it answers with was created at the time of a reading of the clock and expires
  -- thirty days after that same time, and the refresh token that it hands out is accepted: a refresh with it, from the device of the verification and
  -- with an access token of the session, rotates the session's token, as long as the row is the
  -- one that the verification left, the table answers, and the session has not expired.
  pub refresh_tokens-verify_otp :
      (phone candidate device_id access : String) (w w' z z1 z2 z3 : W) (res : VerifyOtpResult)
      (claims : Claims) (session : SessionRecord) (now expires_at : ℕ)
      → verify_otp s phone candidate device_id w ≡ (ok res, w')
      → validate_ignore_expiry s.runtime s.jwt_library s.validator access z ≡ (ok claims, z1)
      → claims.session_id ≡ res.session_id
      → c.session_at z1 res.session_id ≡ c.session_at w' res.session_id
      → s.session_store.get_by_id claims.session_id z1 ≡ (ok session, z2)
      → s.runtime.parse_rfc3339 session.expires_at ≡ ok expires_at
      → s.runtime.now z2 ≡ (now, z3)
      → now ≤ expires_at
      → ((v : W) × (session.created_at ≡ s.runtime.format_rfc3339 (s.runtime.now v).0)
          × (session.expires_at
              ≡ s.runtime.format_rfc3339 ((s.runtime.now v).0 + refresh_token_lifetime)))
        × (refresh_tokens s access res.refresh_token device_id z
            ≡ rotate_refresh_token s claims.subject claims.session_id session z3)
  refresh_tokens-verify_otp phone candidate device_id access w w' z z1 z2 z3 res claims session now
        expires_at h token id kept found parsed clock early =
      let (v, row) =
        verify_otp-Granted phone candidate device_id w w' res (new_phone_number phone) refl h in
      let at : c.session_at w' res.session_id ≡ some session =
        sym kept ∙ ap (c.session_at z1) (sym id) ∙ c.get_ok claims.session_id z1 z2 session found in
      let (_, _, expiry, created) =
        found-LoggedIn s c l device_id res (s.runtime.now v).0 (c.session_at w' res.session_id)
          session row at in
      (
        (v, created, expiry),
        refresh_tokens-LoggedIn s c l device_id access z z1 z2 z3 res claims
            (c.session_at w' res.session_id) session (s.runtime.now v).0 now expires_at row at token
            found parsed clock early,
      )
