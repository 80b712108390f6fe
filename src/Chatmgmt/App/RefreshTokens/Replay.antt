-- ===== src/Chatmgmt/App/RefreshTokens/Replay.antt =====
-- A refresh token that was rotated away is recognised when it comes back.
use realtime_messaging_platf.Prelude.{
  ℕ, ◌+◌, ◌≤◌, ◌≡◌, ◌≢◌, refl, ap, String, eq_iff, arith, Option, some, List,
}
use realtime_messaging_platf.Domain.Constants.{refresh_token_lifetime}
use realtime_messaging_platf.Domain.Errors.{sentinel, refresh_token_reuse}
use realtime_messaging_platf.Effect.{Result, ok, err}
use realtime_messaging_platf.Auth.Refresh.{
  validate_refresh_hash, hash_refresh_token, generate_refresh_token, refresh_token_bytes,
}
use realtime_messaging_platf.Auth.Tokens.{
  Claims, validate_ignore_expiry, mint_access_token, minted_claims,
}
use realtime_messaging_platf.Chatmgmt.App.{AuthService, SessionRecord, RefreshResult}
use realtime_messaging_platf.Chatmgmt.App.Contract.{RotationContract, updated}
use realtime_messaging_platf.Chatmgmt.App.RefreshTokens.{
  token_claims, token_session, check_session, refresh_tokens, rotate_refresh_token, session_update,
}
use realtime_messaging_platf.Chatmgmt.App.RefreshTokens.Outcomes.{refresh_tokens-decides}

module _ {W K P : Type 0} (s : AuthService W K P) (c : RotationContract s) where
  pub mint-keeps :
      (user_id session_id : String) (w : W) (k : Result (K × String))
      → (s.minter.key_store.signing_key w).0 ≡ k
      → c.session_at (mint_access_token s.runtime s.jwt_library s.minter user_id session_id w).1
        ≡ c.session_at w
  unfolding mint_access_token
  mint-keeps user_id session_id w (err e) h = ground (arith, c.key_keeps w)
  mint-keeps user_id session_id w (ok (key, kid)) h =
      let w1 = (s.minter.key_store.signing_key w).1 in
      let (now, w2) = s.runtime.now w1 in
      let (jti, w3) = s.runtime.new_uuid w2 in
      ground (
        arith,
        c.key_keeps w,
        c.now_keeps w1,
        c.uuid_keeps w2,
        c.sign_keeps key kid
            (minted_claims s.runtime s.jwt_library s.minter user_id session_id now jti) w3,
      )

  -- What a rotation that read one row leaves in the table, where it finds another.
  abbrev pub RotatedOver : SessionRecord → SessionRecord → String → Option SessionRecord → Type 0
  RotatedOver found r new_refresh row =
      (r' : SessionRecord) × (row ≡ some r')
      × (r'.device_id ≡ found.device_id)
      × (r'.refresh_token_hash ≡ s.runtime.sha256_hex new_refresh)
      × (r'.prev_token_hash ≡ r.refresh_token_hash)
      × (r'.token_generation ≡ r.token_generation + 1)

  -- What it leaves where the row is still the one that it read.
  abbrev pub Rotated : SessionRecord → String → Option SessionRecord → Type 0
  Rotated r = RotatedOver r r

  rotate-RotatedOver_of :
      (user_id session_id : String) (r found : SessionRecord) (w w' : W) (res : RefreshResult)
      (bytes : Result (List ℕ))
      → (s.runtime.rand_read refresh_token_bytes w).0 ≡ bytes
      → c.session_at w session_id ≡ some found
      → rotate_refresh_token s user_id session_id r w ≡ (ok res, w')
      → RotatedOver found r res.refresh_token (c.session_at w' session_id)
  unfolding rotate_refresh_token generate_refresh_token hash_refresh_token
  rotate-RotatedOver_of user_id session_id r found w w' res (err e) g a h = absurd (ground arith)
  rotate-RotatedOver_of user_id session_id r found w w' res (ok b) g a h =
      let token = s.runtime.raw_url_encode b in
      let w1 = (s.runtime.rand_read refresh_token_bytes w).1 in
      let (now, w2) = s.runtime.now w1 in
      let u = session_update s r (s.runtime.sha256_hex token) (now + refresh_token_lifetime) in
      let (_, w3) = s.session_store.update session_id u w2 in
      let here = λ (f : String → Option SessionRecord). f session_id in
      (
        updated u found,
        ground (
          arith,
          ap here (c.read_keeps refresh_token_bytes w),
          ap here (c.now_keeps w1),
          c.update_ok session_id u w2 w3 found,
          ap here (mint-keeps user_id session_id w3 (s.minter.key_store.signing_key w3).0 refl),
        ),
        refl,
        ground arith,
        refl,
        refl,
      )

  pub rotate-RotatedOver :
      (user_id session_id : String) (r found : SessionRecord) (w w' : W) (res : RefreshResult)
      → c.session_at w session_id ≡ some found
      → rotate_refresh_token s user_id session_id r w ≡ (ok res, w')
      → RotatedOver found r res.refresh_token (c.session_at w' session_id)
  rotate-RotatedOver user_id session_id r found w w' res =
      rotate-RotatedOver_of user_id session_id r found w w' res
        (s.runtime.rand_read refresh_token_bytes w).0 refl

  -- A refresh that succeeds was made with the current token of the session of the claims, from its
  -- device, and leaves the rotated row.
  abbrev pub Refreshed : Claims → String → String → W → W → RefreshResult → Type 0
  Refreshed claims refresh device w1 w' res =
      (r : SessionRecord) × (c.session_at w1 claims.session_id ≡ some r)
      × (r.device_id ≡ device)
      × (r.refresh_token_hash ≡ s.runtime.sha256_hex refresh)
      × Rotated r res.refresh_token (c.session_at w' claims.session_id)

  check_session-Refreshed :
      (claims : Claims) (r : SessionRecord) (refresh device : String) (w1 w2 w' : W)
      (res : RefreshResult) (t : Result ℕ)
      → s.runtime.parse_rfc3339 r.expires_at ≡ t
      → s.session_store.get_by_id claims.session_id w1 ≡ (ok r, w2)
      → check_session s claims r refresh device w2 ≡ (ok res, w')
      → Refreshed claims refresh device w1 w' res
  unfolding check_session validate_refresh_hash
  check_session-Refreshed claims r refresh device w1 w2 w' res (err e) p g h = absurd (ground arith)
  check_session-Refreshed claims r refresh device w1 w2 w' res (ok t) p g h =
      let w3 = (s.runtime.now w2).1 in
      let here = λ (f : String → Option SessionRecord). f claims.session_id in
      let a : c.session_at w1 claims.session_id ≡ some r = c.get_ok claims.session_id w1 w2 r g in
      (
        r,
        a,
        ground (arith, eq_iff r.device_id device),
        ground (arith, eq_iff (s.runtime.sha256_hex refresh) r.refresh_token_hash),
        rotate-RotatedOver claims.subject claims.session_id r r w3 w' res
            (ground
              (arith, a, ap here (c.now_keeps w2), ap here (c.get_keeps claims.session_id w1)))
            (ground arith),
      )

  refresh_tokens-Refreshed_of :
      (access refresh device : String) (w w1 w' : W) (claims : Claims) (res : RefreshResult)
      (found : Result SessionRecord)
      → (s.session_store.get_by_id claims.session_id w1).0 ≡ found
      → validate_ignore_expiry s.runtime s.jwt_library s.validator access w ≡ (ok claims, w1)
      → refresh_tokens s access refresh device w ≡ (ok res, w')
      → Refreshed claims refresh device w1 w' res
  unfolding refresh_tokens token_claims token_session
  refresh_tokens-Refreshed_of access refresh device w w1 w' claims res (err e) f v h =
      absurd (ground arith)
  refresh_tokens-Refreshed_of access refresh device w w1 w' claims res (ok r) f v h =
      check_session-Refreshed claims r refresh device w1
        (s.session_store.get_by_id claims.session_id w1).1 w' res
        (s.runtime.parse_rfc3339 r.expires_at) refl (ground arith) (ground arith)

  -- A refresh that succeeds under the claims of its access token was made from the device of the
  -- session with the session's current refresh token. It leaves the session on that device with
  -- the hash of the token that it returns as the current one, that of the token that it was given
  -- as the previous one, and the next generation number.
  pub refresh_tokens-Refreshed :
      (access refresh device : String) (w w1 w' : W) (claims : Claims) (res : RefreshResult)
      → validate_ignore_expiry s.runtime s.jwt_library s.validator access w ≡ (ok claims, w1)
      → refresh_tokens s access refresh device w ≡ (ok res, w')
      → Refreshed claims refresh device w1 w' res
  refresh_tokens-Refreshed access refresh device w w1 w' claims res =
      refresh_tokens-Refreshed_of access refresh device w w1 w' claims res
        (s.session_store.get_by_id claims.session_id w1).0 refl

  -- After a refresh that succeeded, with the session's row untouched since and not expired, the
  -- old refresh token is refused as reused when it comes back from the device with a valid access
  -- token of the session: the session's deletion and the revocation of the access token's id are
  -- asked for, in that order, whether or not they succeed, and nothing else is done. The hash of
  -- the old token is not empty and differs from that of the new one.
  pub refresh_tokens-replay :
      (access access' refresh device : String) (w w1 w' v v1 v2 v3 : W) (claims claims' : Claims)
      (res : RefreshResult) (row : SessionRecord) (expires_at now : ℕ)
      → validate_ignore_expiry s.runtime s.jwt_library s.validator access w ≡ (ok claims, w1)
      → refresh_tokens s access refresh device w ≡ (ok res, w')
      → validate_ignore_expiry s.runtime s.jwt_library s.validator access' v ≡ (ok claims', v1)
      → claims'.session_id ≡ claims.session_id
      → c.session_at v1 claims.session_id ≡ c.session_at w' claims.session_id
      → s.session_store.get_by_id claims'.session_id v1 ≡ (ok row, v2)
      → s.runtime.parse_rfc3339 row.expires_at ≡ ok expires_at
      → s.runtime.now v2 ≡ (now, v3)
      → now ≤ expires_at
      → s.runtime.sha256_hex refresh ≢ ""
      → s.runtime.sha256_hex refresh ≢ s.runtime.sha256_hex res.refresh_token
      → refresh_tokens s access' refresh device v ≡ (
        err (sentinel refresh_token_reuse),
        (s.revocation_store.revoke claims'.id (s.session_store.delete claims'.session_id v3).1).1,
      )
  unfolding validate_refresh_hash
  refresh_tokens-replay access access' refresh device w w1 w' v v1 v2 v3 claims claims' res row
        expires_at now va h va' ids same g p n le ne nc =
      let (r, a, dev, cur, rotated) =
        refresh_tokens-Refreshed access refresh device w w1 w' claims res va h in
      let (r', a', dev', cur', prev', gen') = rotated in
      let got = c.get_ok claims'.session_id v1 v2 row g in
      let row_is : row ≡ r' = ground (arith, ap (c.session_at v1) ids) in
      let row_device : row.device_id ≡ device = ground arith in
      let row_current : row.refresh_token_hash ≡ s.runtime.sha256_hex res.refresh_token =
        ground arith in
      let row_previous : row.prev_token_hash ≡ s.runtime.sha256_hex refresh = ground arith in
      rw (← row_device) (
        rw
          (refresh_tokens-decides s access' refresh v v1 v2 claims' row va' g v3 expires_at now p n)
          (ground (
            arith,
            row_current,
            row_previous,
            eq_iff (s.runtime.sha256_hex refresh) row.refresh_token_hash,
            eq_iff (s.runtime.sha256_hex refresh) row.prev_token_hash,
            eq_iff row.prev_token_hash "",
          )))
