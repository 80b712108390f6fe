-- ===== src/Chatmgmt/Adapter/Redis/Locked.antt =====
-- The lockout of a phone after too many failed attempts: internal/chatmgmt/app/auth_verify_otp.go
-- over redis_ratelimit.go.
use Prim.Native.String.{◌++◌}
use realtime_messaging_platf.Prelude.{
  ℕ, ◌*◌, ◌≤◌, ◌≡◌, ◌≢◌, ◌⊎◌, refl, ap, ◌∙◌, true, ◌||◌, String, arith,
}
use realtime_messaging_platf.Domain.Constants.{second}
use realtime_messaging_platf.Domain.Errors.{Error, sentinel, is, unavailable, rate_limited}
use realtime_messaging_platf.Domain.Phone.{PhoneNumber, valid, new_phone_number}
use realtime_messaging_platf.Effect.{Result, ok, err, labelled-ok, Verdict}
use realtime_messaging_platf.Auth.Otp.{hash_phone}
use realtime_messaging_platf.Chatmgmt.App.{AuthService, OtpRecord}
use realtime_messaging_platf.Chatmgmt.App.VerifyOtp.{validate_otp_record, verify_otp}
use realtime_messaging_platf.Chatmgmt.App.VerifyOtp.Codes.{
  validate_otp_record-lockout, verify_otp-limited,
}
use realtime_messaging_platf.Chatmgmt.Adapter.Redis.{
  Commands, Cmdable, exists_verdict, check_and_increment, check_lockout, set_lockout, rate_limiter,
}
use realtime_messaging_platf.Chatmgmt.Adapter.Redis.Revoked.{KeyContract}

module _ {D W : Type 0} (server : Commands D) (cmd : Cmdable D W) (keys : KeyContract cmd) where
  set_lockout-present :
      (key : String) (seconds : ℕ) (w w' : W)
      → set_lockout server cmd key seconds w ≡ (ok tt, w')
      → keys.present w' key ≡ true
  unfolding set_lockout
  set_lockout-present key seconds w w' h =
      let done : cmd.set key "1" (seconds * second) w ≡ (ok tt, w') =
        ground (arith, labelled-ok "set lockout %q" (cmd.set key "1" (seconds * second) w).0 tt) in
      keys.set_ok key "1" (seconds * second) w w' done

  present-locked :
      (key : String) (w : W) (r : Result ℕ)
      → (cmd.exists key w).0 ≡ r
      → keys.present w key ≡ true
      → (exists_verdict "lockout check %q" r).0 ≡ true
  unfolding exists_verdict
  present-locked key w (err e) h p = refl
  present-locked key w (ok n) h p =
      ground (arith, keys.exists_ok key w (cmd.exists key w).1 n (ground arith))

  check_lockout-present :
      (key : String) (w : W)
      → keys.present w key ≡ true
      → (check_lockout server cmd key w).0.0 ≡ true
  unfolding check_lockout
  check_lockout-present key w p = present-locked key w (cmd.exists key w).0 refl p

module _ {D W K P : Type 0} (s0 : AuthService W K P) (server : Commands D) (cmd : Cmdable D W)
    (keys : KeyContract cmd) where
  -- The service with the limiter in Redis.
  abbrev pub limited : AuthService W K P
  limited = record s0 { rate_limiter = rate_limiter server cmd }

  -- With the limiter in Redis, a code with five failed attempts locks its phone. When the record
  -- of a valid phone number is not verified and has five failed attempts, and the lockout can be
  -- written, a candidate for it, right or wrong, is refused with ErrRateLimited; and every later
  -- verification of the phone, with whichever candidate and a device id that is not empty, fails
  -- with ErrRateLimited or an error that is ErrUnavailable, at the latest after the question for
  -- the lockout, as long as the lockout's key is in Redis when it is asked for.
  pub verify_otp-locked :
      (phone candidate later device_id : String) (n : PhoneNumber) (r : OtpRecord)
      (w w1 w2 v v1 : W) (verdict : Verdict)
      → new_phone_number phone ≡ valid n
      → s0.otp_store.get_otp (hash_phone s0.runtime phone) w ≡ (ok r, w1)
      → r.status ≢ "verified"
      → 5 ≤ r.attempt_count
      → set_lockout server cmd ("otp_lockout:phone:" ++ hash_phone s0.runtime phone) 900 w1
        ≡ (ok tt, w2)
      → device_id ≢ ""
      → check_and_increment server cmd ("otp_verify:phone:" ++ hash_phone s0.runtime phone) 5 900 v
        ≡ (verdict, v1)
      → keys.present v1 ("otp_lockout:phone:" ++ hash_phone s0.runtime phone)
        ≡ keys.present w2 ("otp_lockout:phone:" ++ hash_phone s0.runtime phone)
      → (validate_otp_record limited (hash_phone s0.runtime phone) candidate w
          ≡ (err (sentinel rate_limited), w2))
        × ((e : Error) × ((verify_otp limited phone later device_id v ≡ (err e, v1))
              ⊎ (verify_otp limited phone later device_id v ≡ (
                err e,
                (check_lockout server cmd
                    ("otp_lockout:phone:" ++ hash_phone s0.runtime phone)
                    v1).1,
              )))
            × ((is e unavailable || is e rate_limited) ≡ true))
  unfolding rate_limiter
  verify_otp-locked phone candidate later device_id n r w w1 w2 v v1 verdict good found fresh many
        written device counted kept =
      let h = hash_phone s0.runtime phone in
      let key = "otp_lockout:phone:" ++ h in
      let there = set_lockout-present server cmd keys key 900 w1 w2 written in
      let locked = check_lockout-present server cmd keys key v1 (kept ∙ there) in
      let asked = check_lockout server cmd key v1 in
      (
        validate_otp_record-lockout limited h candidate r w w1 found fresh many
            ∙ ap (λ (x : Result Unit × W). (err (sentinel rate_limited), x.1)) written,
        verify_otp-limited limited phone later device_id v v1 asked.1 verdict.0 asked.0.0 verdict.1
            asked.0.1 n good device counted refl (λ _ _ _. locked),
      )
