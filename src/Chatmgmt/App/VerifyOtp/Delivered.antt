-- ===== src/Chatmgmt/App/VerifyOtp/Delivered.antt =====
-- internal/chatmgmt/app/auth_request_otp.go and auth_verify_otp.go together: the code that a
-- request sends, and the verification that it is for.
use realtime_messaging_platf.Prelude.{
  ℕ, ◌≤◌, ◌≡◌, ◌≢◌, refl, ap, sym, ◌∙◌, true, String, eq_iff, arith, inl, inr, List, ◌∷◌, length,
}
use mathlib.Core.Path.{subst}
use realtime_messaging_platf.Domain.Phone.{Validated, valid, invalid, new_phone_number}
use realtime_messaging_platf.Effect.{Result, ok}
use realtime_messaging_platf.Auth.Otp.{hash_phone, verify_otp_mac}
use realtime_messaging_platf.Chatmgmt.App.{AuthService, OtpRecord, UserRecord, RequestOtpResult}
use realtime_messaging_platf.Chatmgmt.App.Contract.{OtpContract, Delivery}
use realtime_messaging_platf.Chatmgmt.App.RequestOtp.{request_otp}
use realtime_messaging_platf.Chatmgmt.App.RequestOtp.Delivery.{Holds, Sent, request_otp-Sent}
use realtime_messaging_platf.Chatmgmt.App.VerifyOtp.{
  check_verify_rate_limits, validate_otp_record, verify_otp, verify_valid, after_find,
}

not-longer {ℓ} : {A : Type ℓ} (x : A) (xs : List A) → x ∷ xs ≢ xs
not-longer x xs e = absurd (omega (arith, ap length e))

module _ {W K P : Type 0} (s : AuthService W K P) (table : OtpContract s.otp_store) (d : Delivery s)
    (sent_keeps : (phone otp : String) (w : W)
      → table.stored (s.go_send_otp phone otp w) ≡ table.stored w) where
  -- What a request that sent `otp` has left in the table.
  Sent-Holds :
      (phone otp : String) (expires_at : ℕ) (w w' : W)
      → Sent s table d sent_keeps phone expires_at w w'
      → d.outbox w' ≡ (phone, otp) ∷ d.outbox w
      → Holds s table d sent_keeps (hash_phone s.runtime phone) otp expires_at w'
  Sent-Holds phone otp t w w' (inl quiet) out =
      absurd (not-longer (phone, otp) (d.outbox w) (sym out ∙ quiet))
  Sent-Holds phone otp t w w' (inr (sent, out', h)) out =
      let same : sent ≡ otp = ground arith in
      subst (λ x. Holds s table d sent_keeps (hash_phone s.runtime phone) x t w') same h

  -- A record that is pending, without failed attempts and not expired takes the code that fits it.
  validate_otp_record-right :
      (phone_hash otp : String) (o : OtpRecord) (w w1 w2 : W) (now expires_at : ℕ)
      → s.otp_store.get_otp phone_hash w ≡ (ok o, w1)
      → o.status ≡ "pending"
      → o.attempt_count ≡ 0
      → verify_otp_mac s.runtime s.pepper otp phone_hash o.expires_at o.otp_mac ≡ true
      → s.runtime.parse_rfc3339 o.expires_at ≡ ok expires_at
      → s.runtime.now w1 ≡ (now, w2)
      → now ≤ expires_at
      → validate_otp_record s phone_hash otp w ≡ (ok o, w2)
  unfolding validate_otp_record
  validate_otp_record-right phone_hash otp o w w1 w2 now expires_at g st at m p n le =
      ground
        (arith, eq_iff o.status "verified", eq_iff o.status "pending", eq_iff "pending" "verified")

  verify_otp-valid :
      (phone client_ip otp device_id : String) (w w' v : W) (r : RequestOtpResult) (n : Validated)
      → new_phone_number phone ≡ n
      → request_otp s phone client_ip w ≡ (ok r, w')
      → verify_otp s phone otp device_id v ≡ verify_valid s phone otp device_id v
  unfolding request_otp verify_otp
  verify_otp-valid phone client_ip otp device_id w w' v r (valid x) e h = ground arith
  verify_otp-valid phone client_ip otp device_id w w' v r (invalid x) e h = absurd (ground arith)

  verify_valid-found :
      (phone otp device_id : String) (v v1 v3 v4 : W) (o : OtpRecord) (found : Result UserRecord)
      → device_id ≢ ""
      → check_verify_rate_limits s (hash_phone s.runtime phone) v ≡ (ok tt, v1)
      → validate_otp_record s (hash_phone s.runtime phone) otp v1 ≡ (ok o, v3)
      → s.user_store.find_by_phone phone v3 ≡ (found, v4)
      → verify_valid s phone otp device_id v
        ≡ after_find s phone (hash_phone s.runtime phone) o device_id found v4
  unfolding verify_valid
  verify_valid-found phone otp device_id v v1 v3 v4 o found device limits run search =
      ground (arith, eq_iff device_id "")

  -- A code that was sent is accepted. When a successful request sent the code to a phone, the
  -- verification of that phone with that code and a device id that is not empty passes every check
  -- and goes on to the search for the user, whose answer decides between login and registration;
  -- as long as the limits let the phone pass, the table still has the record that the request
  -- left and answers, and the expiry that the request's answer promised is not over.
  pub verify_otp-request_otp :
      (phone client_ip otp device_id : String) (w w' v v1 v2 v3 v4 : W) (r : RequestOtpResult)
      (o : OtpRecord) (now expires_at : ℕ) (found : Result UserRecord)
      → request_otp s phone client_ip w ≡ (ok r, w')
      → d.outbox w' ≡ (phone, otp) ∷ d.outbox w
      → device_id ≢ ""
      → check_verify_rate_limits s (hash_phone s.runtime phone) v ≡ (ok tt, v1)
      → table.stored v1 (hash_phone s.runtime phone) ≡ table.stored w' (hash_phone s.runtime phone)
      → s.otp_store.get_otp (hash_phone s.runtime phone) v1 ≡ (ok o, v2)
      → s.runtime.parse_rfc3339 (s.runtime.format_rfc3339 r.expires_at) ≡ ok expires_at
      → s.runtime.now v2 ≡ (now, v3)
      → now ≤ expires_at
      → s.user_store.find_by_phone phone v3 ≡ (found, v4)
      → verify_otp s phone otp device_id v
        ≡ after_find s phone (hash_phone s.runtime phone) o device_id found v4
  verify_otp-request_otp phone client_ip otp device_id w w' v v1 v2 v3 v4 r o now expires_at found h
        out device limits kept got parsed clock early search =
      let phone_hash = hash_phone s.runtime phone in
      let (o', at, pending, attempts, right, until) =
        Sent-Holds phone otp r.expires_at w w'
          (request_otp-Sent s table d sent_keeps phone client_ip w w' r h) out in
      let same : o' ≡ o = ground (arith, table.get_ok phone_hash v1 v2 o got, kept, at) in
      let run =
        validate_otp_record-right phone_hash otp o' v1 v2 v3 now expires_at
          (got ∙ ap (λ (x : OtpRecord). (ok x, v2)) (sym same)) pending attempts right
          (ap s.runtime.parse_rfc3339 until ∙ parsed) clock early in
      verify_otp-valid phone client_ip otp device_id w w' v r (new_phone_number phone) refl h
      ∙ verify_valid-found phone otp device_id v v1 v3 v4 o' found device limits run search
      ∙ ap (λ (x : OtpRecord). after_find s phone phone_hash x device_id found v4) same
