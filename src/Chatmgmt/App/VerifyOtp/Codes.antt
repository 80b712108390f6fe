-- ===== src/Chatmgmt/App/VerifyOtp/Codes.antt =====
-- Which codes are accepted, and what a refused code leaves behind.
use Prim.Native.String.{◌++◌}
use realtime_messaging_platf.Prelude.{
  ℕ, ◌≤◌, ◌<◌, ◌≡◌, ◌≢◌, refl, Bool, true, false, String, eq_iff, Option, none, some, arith, inl,
  inr, ◌||◌, ◌⊎◌,
}
use realtime_messaging_platf.Domain.Errors.{
  Error, sentinel, join, wrap, is, unavailable, rate_limited, invalid_otp,
}
use realtime_messaging_platf.Domain.Phone.{PhoneNumber, valid, new_phone_number}
use realtime_messaging_platf.Effect.{Result, ok, err}
use realtime_messaging_platf.Auth.Otp.{hash_phone, verify_otp_mac}
use realtime_messaging_platf.Chatmgmt.App.{AuthService, OtpRecord}
use realtime_messaging_platf.Chatmgmt.App.VerifyOtp.{
  check_verify_rate_limits, check_record, validate_otp_record, verify_otp,
}

module _ {W K P : Type 0} (s : AuthService W K P) where
  -- What lets a candidate pass the checks of a record, with the clock read in `w`.
  abbrev pub Accepts : OtpRecord → String → String → W → Type 0
  Accepts r phone_hash candidate w =
      (r.status ≢ "verified")
      × (r.attempt_count < 5)
      × (verify_otp_mac s.runtime s.pepper candidate phone_hash r.expires_at r.otp_mac ≡ true)
      × ((expires_at : ℕ) × (s.runtime.parse_rfc3339 r.expires_at ≡ ok expires_at)
          × ((s.runtime.now w).0 ≤ expires_at))

  check_record-Accepts :
      (phone_hash candidate : String) (r r' : OtpRecord) (w w' : W) (t : Result ℕ)
      → s.runtime.parse_rfc3339 r.expires_at ≡ t
      → check_record s phone_hash candidate (ok r) w ≡ (ok r', w')
      → (r' ≡ r) × Accepts r phone_hash candidate w
  unfolding check_record
  check_record-Accepts phone_hash candidate r r' w w' (err e) p h = absurd (ground arith)
  check_record-Accepts phone_hash candidate r r' w w' (ok t) p h = (
    ground arith,
    (ground (arith, eq_iff r.status "verified"), ground arith, ground arith, (t, p, ground arith)),
  )

  pub validated :
      (phone_hash candidate : String) (w w' : W) (r : OtpRecord) (found : Result OtpRecord)
      → (s.otp_store.get_otp phone_hash w).0 ≡ found
      → validate_otp_record s phone_hash candidate w ≡ (ok r, w')
      → ((s.otp_store.get_otp phone_hash w).0 ≡ ok r)
        × Accepts r phone_hash candidate (s.otp_store.get_otp phone_hash w).1
  unfolding validate_otp_record
  validated phone_hash candidate w w' r (err e) f h = absurd (ground arith)
  validated phone_hash candidate w w' r (ok x) f h =
      let w1 = (s.otp_store.get_otp phone_hash w).1 in
      let a =
        check_record-Accepts phone_hash candidate x r w1 w' (s.runtime.parse_rfc3339 x.expires_at)
          refl (ground arith) in
      rw a.0 (f, a.1)

  -- The limits let the phone pass, and the record that is read next accepts the code.
  abbrev pub AcceptsIn : String → String → String → W → Type 0
  AcceptsIn phone_hash candidate device_id w =
      (r : OtpRecord) × (device_id ≢ "")
      × (check_verify_rate_limits s phone_hash w
          ≡ (ok tt, (check_verify_rate_limits s phone_hash w).1))
      × ((s.otp_store.get_otp phone_hash (check_verify_rate_limits s phone_hash w).1).0 ≡ ok r)
      × Accepts r phone_hash candidate
          (s.otp_store.get_otp phone_hash (check_verify_rate_limits s phone_hash w).1).1

  -- A code with the wrong MAC is refused with ErrInvalidOTP. The attempt is counted after the clock
  -- was read, whether or not the count succeeds, and nothing else is done.
  pub validate_otp_record-wrong_code :
      (phone_hash candidate : String) (r : OtpRecord) (w w1 w2 : W) (now expires_at : ℕ)
      → s.otp_store.get_otp phone_hash w ≡ (ok r, w1)
      → r.status ≢ "verified"
      → r.attempt_count < 5
      → s.runtime.parse_rfc3339 r.expires_at ≡ ok expires_at
      → s.runtime.now w1 ≡ (now, w2)
      → now ≤ expires_at
      → verify_otp_mac s.runtime s.pepper candidate phone_hash r.expires_at r.otp_mac ≡ false
      → validate_otp_record s phone_hash candidate w
        ≡ (err (sentinel invalid_otp), (s.otp_store.increment_attempts phone_hash w2).1)
  unfolding validate_otp_record
  validate_otp_record-wrong_code phone_hash candidate r w w1 w2 now expires_at g st at p n le m =
      ground (arith, eq_iff r.status "verified")

  -- A record with five failed attempts sets the lockout of the phone for 900 seconds and answers
  -- ErrRateLimited, whether or not the code is right.
  pub validate_otp_record-lockout :
      (phone_hash candidate : String) (r : OtpRecord) (w w1 : W)
      → s.otp_store.get_otp phone_hash w ≡ (ok r, w1)
      → r.status ≢ "verified"
      → 5 ≤ r.attempt_count
      → validate_otp_record s phone_hash candidate w ≡ (
        err (sentinel rate_limited),
        (s.rate_limiter.set_lockout ("otp_lockout:phone:" ++ phone_hash) 900 w1).1,
      )
  unfolding validate_otp_record
  validate_otp_record-lockout phone_hash candidate r w w1 g st at =
      ground (arith, eq_iff r.status "verified")

  -- A limiter that refuses the phone, or reports it locked, or fails at either question, ends the
  -- verification with ErrRateLimited or an error that is ErrUnavailable; no code is looked at.
  pub verify_otp-limited :
      (phone candidate device_id : String) (w w1 w2 : W) (allowed locked : Bool)
      (check_failure lockout_failure : Option Error) (n : PhoneNumber)
      → new_phone_number phone ≡ valid n
      → device_id ≢ ""
      → s.rate_limiter.check_and_increment
          ("otp_verify:phone:" ++ hash_phone s.runtime phone)
          5
          900
          w
        ≡ ((allowed, check_failure), w1)
      → s.rate_limiter.check_lockout ("otp_lockout:phone:" ++ hash_phone s.runtime phone) w1
        ≡ ((locked, lockout_failure), w2)
      → (check_failure ≡ none → allowed ≡ true → lockout_failure ≡ none → locked ≡ true)
      → (e : Error) × ((verify_otp s phone candidate device_id w ≡ (err e, w1))
          ⊎ (verify_otp s phone candidate device_id w ≡ (err e, w2)))
        × ((is e unavailable || is e rate_limited) ≡ true)
  unfolding verify_otp check_verify_rate_limits is
  verify_otp-limited phone candidate device_id w w1 w2 allowed locked (some f) lf n v d c l r = (
    wrap "check verify rate limit" (join f (sentinel unavailable)),
    inl (ground (arith, eq_iff device_id "")),
    ground arith,
  )
  verify_otp-limited phone candidate device_id w w1 w2 false locked none lf n v d c l r =
      (sentinel rate_limited, inl (ground (arith, eq_iff device_id "")), refl)
  verify_otp-limited phone candidate device_id w w1 w2 true locked none (some f) n v d c l r = (
    wrap "check lockout" (join f (sentinel unavailable)),
    inr (ground (arith, eq_iff device_id "")),
    ground arith,
  )
  verify_otp-limited phone candidate device_id w w1 w2 true locked none none n v d c l r =
      (sentinel rate_limited, inr (ground (arith, eq_iff device_id "", r refl refl refl)), refl)
