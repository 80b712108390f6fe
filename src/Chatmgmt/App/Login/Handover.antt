-- ===== src/Chatmgmt/App/Login/Handover.antt =====
-- internal/chatmgmt/app/auth_verify_otp.go and auth_refresh.go together: the refresh token that a
-- login hands out, and the refresh that it is for.
use realtime_messaging_platf.Prelude.{
  ℕ, ◌+◌, ◌≤◌, ◌≡◌, refl, ap, sym, ◌∙◌, true, String, eq_iff, arith, Option, some, List,
}
use realtime_messaging_platf.Domain.Constants.{refresh_token_lifetime}
use realtime_messaging_platf.Effect.{Result, ok, err}
use realtime_messaging_platf.Auth.Otp.{constant_time_compare}
use realtime_messaging_platf.Auth.Refresh.{
  validate_refresh_hash, hash_refresh_token, generate_refresh_token, refresh_token_bytes,
}
use realtime_messaging_platf.Auth.Tokens.{Claims, validate_ignore_expiry}
use realtime_messaging_platf.Chatmgmt.App.{
  AuthService, OtpRecord, UserRecord, SessionRecord, LoginParams, VerifyOtpResult,
}
use realtime_messaging_platf.Chatmgmt.App.Contract.{RotationContract}
use realtime_messaging_platf.Chatmgmt.App.Login.{create_login_session, login_params}
use realtime_messaging_platf.Chatmgmt.App.RefreshTokens.{refresh_tokens, rotate_refresh_token}
use realtime_messaging_platf.Chatmgmt.App.RefreshTokens.Outcomes.{refresh_tokens-decides}
use realtime_messaging_platf.Chatmgmt.App.RefreshTokens.Replay.{mint-keeps}

-- The row that the transaction of a login writes.
abbrev pub session_row : LoginParams → SessionRecord
session_row p = record {
  session_id = p.session_id;
  user_id = p.user_id;
  device_id = p.device_id;
  refresh_token_hash = p.refresh_token_hash;
  prev_token_hash = "";
  created_at = p.created_at;
  expires_at = p.session_expires_at;
  token_generation = 1;
  ttl = p.session_ttl;
}

-- A transaction that is carried out has written the row.
pub record LoginContract {W K P : Type 0} (s : AuthService W K P) (c : RotationContract s)
    : Type 0 where
  pub session_created :
      (p : LoginParams) (w w' : W)
      → s.transactor.verify_otp_and_create_session p w ≡ (ok tt, w')
      → c.session_at w' p.session_id ≡ some (session_row p)

module _ {W K P : Type 0} (s : AuthService W K P) (c : RotationContract s)
    (l : LoginContract s c) where
  -- What a login leaves in the table.
  abbrev pub LoggedIn : String → VerifyOtpResult → ℕ → Option SessionRecord → Type 0
  LoggedIn device_id res now row =
      (r : SessionRecord) × (row ≡ some r)
      × (r.device_id ≡ device_id)
      × (r.refresh_token_hash ≡ hash_refresh_token s.runtime res.refresh_token)
      × (r.expires_at ≡ s.runtime.format_rfc3339 (now + refresh_token_lifetime))
      × (r.created_at ≡ s.runtime.format_rfc3339 now)

  pub create_login_session-LoggedIn :
      (phone_hash : String) (o : OtpRecord) (user : UserRecord) (device_id : String) (w w' : W)
      (res : VerifyOtpResult) (bytes : Result (List ℕ))
      → (s.runtime.rand_read refresh_token_bytes (s.runtime.now (s.runtime.new_uuid w).1).1).0
        ≡ bytes
      → create_login_session s phone_hash o user device_id w ≡ (ok res, w')
      → LoggedIn device_id res
          (s.runtime.now (s.runtime.new_uuid w).1).0
          (c.session_at w' res.session_id)
  unfolding create_login_session generate_refresh_token
  create_login_session-LoggedIn phone_hash o user device_id w w' res (err e) g h =
      absurd (ground arith)
  create_login_session-LoggedIn phone_hash o user device_id w w' res (ok b) g h =
      let (id, w1) = s.runtime.new_uuid w in
      let (now, w2) = s.runtime.now w1 in
      let w3 = (s.runtime.rand_read refresh_token_bytes w2).1 in
      let token = s.runtime.raw_url_encode b in
      let p =
        login_params s phone_hash o user device_id id now (hash_refresh_token s.runtime token) in
      let (_, w4) = s.transactor.verify_otp_and_create_session p w3 in
      let here = λ (f : String → Option SessionRecord). f id in
      (
        session_row p,
        ground (
          arith,
          l.session_created p w3 w4,
          ap here (mint-keeps s c user.user_id id w4 (s.minter.key_store.signing_key w4).0 refl),
        ),
        refl,
        ground arith,
        refl,
        refl,
      )

  pub found-LoggedIn :
      (device_id : String) (res : VerifyOtpResult) (now : ℕ) (row : Option SessionRecord)
      (session : SessionRecord)
      → LoggedIn device_id res now row
      → row ≡ some session
      → (session.device_id ≡ device_id)
        × (session.refresh_token_hash ≡ hash_refresh_token s.runtime res.refresh_token)
        × (session.expires_at ≡ s.runtime.format_rfc3339 (now + refresh_token_lifetime))
        × (session.created_at ≡ s.runtime.format_rfc3339 now)
  found-LoggedIn device_id res now row session (r, at, d, h, e, m) found =
      let same : r ≡ session = ground arith in
      (
        ap (λ (x : SessionRecord). x.device_id) (sym same) ∙ d,
        ap (λ (x : SessionRecord). x.refresh_token_hash) (sym same) ∙ h,
        ap (λ (x : SessionRecord). x.expires_at) (sym same) ∙ e,
        ap (λ (x : SessionRecord). x.created_at) (sym same) ∙ m,
      )

  validate_refresh_hash_refl :
      (token stored : String)
      → stored ≡ hash_refresh_token s.runtime token
      → validate_refresh_hash s.runtime token stored ≡ true
  unfolding validate_refresh_hash constant_time_compare
  validate_refresh_hash_refl token stored h =
      ground (arith, eq_iff (hash_refresh_token s.runtime token) stored)

  -- A refresh with the token that a login or a registration handed out passes every check.
  pub refresh_tokens-LoggedIn :
      (device_id access : String) (z z1 z2 z3 : W) (res : VerifyOtpResult) (claims : Claims)
      (row : Option SessionRecord) (session : SessionRecord) (t now expires_at : ℕ)
      → LoggedIn device_id res t row
      → row ≡ some session
      → validate_ignore_expiry s.runtime s.jwt_library s.validator access z ≡ (ok claims, z1)
      → s.session_store.get_by_id claims.session_id z1 ≡ (ok session, z2)
      → s.runtime.parse_rfc3339 session.expires_at ≡ ok expires_at
      → s.runtime.now z2 ≡ (now, z3)
      → now ≤ expires_at
      → refresh_tokens s access res.refresh_token device_id z
        ≡ rotate_refresh_token s claims.subject claims.session_id session z3
  refresh_tokens-LoggedIn device_id access z z1 z2 z3 res claims row session t now expires_at left
        at valid found parsed clock early =
      let (device, hash, _, _) = found-LoggedIn device_id res t row session left at in
      let run =
        refresh_tokens-decides s access res.refresh_token z z1 z2 claims session valid found z3
          expires_at now parsed clock in
      let right = validate_refresh_hash_refl res.refresh_token session.refresh_token_hash hash in
      ap (λ (d : String). refresh_tokens s access res.refresh_token d z) (sym device)
      ∙ run
      ∙ ground (arith, right)

  -- The refresh token of a login is accepted. A refresh with it, from the device of the login and
  -- with an access token of the session, rotates the session's token, as long as the row is the one
  -- that the login left, the table answers, and the lifetime of thirty days is not over.
  pub refresh_tokens-create_login_session :
      (phone_hash : String) (o : OtpRecord) (user : UserRecord) (device_id : String) (w w' : W)
      (res : VerifyOtpResult) (access : String) (z z1 z2 z3 : W) (claims : Claims)
      (session : SessionRecord) (now expires_at : ℕ)
      → create_login_session s phone_hash o user device_id w ≡ (ok res, w')
      → validate_ignore_expiry s.runtime s.jwt_library s.validator access z ≡ (ok claims, z1)
      → claims.session_id ≡ res.session_id
      → c.session_at z1 res.session_id ≡ c.session_at w' res.session_id
      → s.session_store.get_by_id claims.session_id z1 ≡ (ok session, z2)
      → s.runtime.parse_rfc3339 (
          s.runtime.format_rfc3339
            ((s.runtime.now (s.runtime.new_uuid w).1).0 + refresh_token_lifetime))
        ≡ ok expires_at
      → s.runtime.now z2 ≡ (now, z3)
      → now ≤ expires_at
      → refresh_tokens s access res.refresh_token device_id z
        ≡ rotate_refresh_token s claims.subject claims.session_id session z3
  refresh_tokens-create_login_session phone_hash o user device_id w w' res access z z1 z2 z3 claims
        session now expires_at h valid id kept found parsed clock early =
      let row =
        create_login_session-LoggedIn phone_hash o user device_id w w' res
          (s.runtime.rand_read refresh_token_bytes (s.runtime.now (s.runtime.new_uuid w).1).1).0
          refl h in
      let at : c.session_at w' res.session_id ≡ some session =
        sym kept ∙ ap (c.session_at z1) (sym id) ∙ c.get_ok claims.session_id z1 z2 session found in
      let t = (s.runtime.now (s.runtime.new_uuid w).1).0 in
      let (_, _, expiry, _) =
        found-LoggedIn device_id res t (c.session_at w' res.session_id) session row at in
      refresh_tokens-LoggedIn device_id access z z1 z2 z3 res claims
        (c.session_at w' res.session_id) session t now expires_at row at valid found
        (ap s.runtime.parse_rfc3339 expiry ∙ parsed) clock early
