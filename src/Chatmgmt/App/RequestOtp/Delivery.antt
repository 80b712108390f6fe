-- ===== src/Chatmgmt/App/RequestOtp/Delivery.antt =====
-- The code that is sent is the code that was stored.
use Prim.Native.String.{◌++◌}
use realtime_messaging_platf.Prelude.{
  ℕ, ◌+◌, ◌≡◌, refl, ◌∙◌, ap, true, String, eq_iff, Option, some, arith, inl, inr, ◌⊎◌, ◌∷◌,
}
use mathlib.Core.Path.{subst}
use realtime_messaging_platf.Domain.Constants.{otp_validity_duration}
use realtime_messaging_platf.Effect.{Result, ok, err}
use realtime_messaging_platf.Auth.Otp.{
  hash_phone, verify_otp_mac, zero_padded, otp_max, generate_otp,
}
use realtime_messaging_platf.Auth.Otp.Mac.{verify_otp_mac-eq}
use realtime_messaging_platf.Chatmgmt.App.{AuthService, RequestOtpResult, OtpRecord}
use realtime_messaging_platf.Chatmgmt.App.Contract.{OtpContract, Delivery}
use realtime_messaging_platf.Chatmgmt.App.RequestOtp.{
  check_phone_limit, check_ip_limit, issue_otp, request_otp, new_record, after_create,
  request_valid,
}

module _ {W K P : Type 0} (s : AuthService W K P) (table : OtpContract s.otp_store) (d : Delivery s)
    (sent_keeps : (phone otp : String) (w : W)
      → table.stored (s.go_send_otp phone otp w) ≡ table.stored w) where
  -- The world holds a fresh record of the phone under which `otp` verifies until `expires_at`.
  abbrev pub Holds : String → String → ℕ → W → Type 0
  Holds phone_hash otp expires_at w =
      (r : OtpRecord) × (table.stored w phone_hash ≡ some r)
      × (r.status ≡ "pending")
      × (r.attempt_count ≡ 0)
      × (verify_otp_mac s.runtime s.pepper otp phone_hash r.expires_at r.otp_mac ≡ true)
      × (r.expires_at ≡ s.runtime.format_rfc3339 expires_at)

  -- Either no message was started, or exactly one, with the code that the table holds.
  abbrev pub Sent : String → ℕ → W → W → Type 0
  Sent phone expires_at w w' =
      (d.outbox w' ≡ d.outbox w)
      ⊎ ((otp : String) × (d.outbox w' ≡ (phone, otp) ∷ d.outbox w)
          × Holds (hash_phone s.runtime phone) otp expires_at w')

  Holds-create :
      (h otp : String) (now : ℕ) (w w' : W) (phone : String)
      → s.otp_store.create_otp (new_record s h otp now) w ≡ (ok tt, w')
      → Holds h otp (now + otp_validity_duration) (s.go_send_otp phone otp w')
  unfolding new_record
  Holds-create h otp now w w' phone e = (
    new_record s h otp now,
    ground (
      arith,
      ap (λ (f : String → Option OtpRecord). f h) (sent_keeps phone otp w'),
      table.create_ok (new_record s h otp now) w w' h e,
      eq_iff h h,
    ),
    refl,
    refl,
    (verify_otp_mac-eq s.runtime s.pepper otp h _ _).1 refl,
    refl,
  )

  after_create-Sent :
      (phone otp : String) (now : ℕ) (w w1 w' : W) (created : Result Unit) (r : RequestOtpResult)
      → s.otp_store.create_otp (new_record s (hash_phone s.runtime phone) otp now) w ≡ (created, w1)
      → after_create s phone
          (hash_phone s.runtime phone)
          otp
          (now + otp_validity_duration)
          created
          w1
        ≡ (ok r, w')
      → Sent phone r.expires_at w w'
  unfolding after_create
  after_create-Sent phone otp now w w1 w' (ok u) r e h =
      let h' = hash_phone s.runtime phone in
      let q : s.go_send_otp phone otp w1 ≡ w' = ap (λ (x : Result RequestOtpResult × W). x.1) h in
      let promised : now + otp_validity_duration ≡ r.expires_at = ground arith in
      inr (
        otp,
        ground (arith, q, d.sends phone otp w1, d.create_keeps (new_record s h' otp now) w),
        subst (λ t. Holds h' otp t w') promised
            (subst (λ v. Holds h' otp (now + otp_validity_duration) v) q
              (Holds-create h' otp now w w1 phone e)),
      )
  after_create-Sent phone otp now w w1 w' (err x) r e h = inl (
      ground (
        arith,
        d.create_keeps (new_record s (hash_phone s.runtime phone) otp now) w,
        d.get_keeps (hash_phone s.runtime phone) w1,
      ))

  Sent-from :
      (phone : String) (t : ℕ) (w w1 w' : W)
      → d.outbox w1 ≡ d.outbox w
      → Sent phone t w1 w'
      → Sent phone t w w'
  Sent-from phone t w w1 w' e (inl k) = inl (k ∙ e)
  Sent-from phone t w w1 w' e (inr (otp, o, r)) = inr (otp, o ∙ ap (◌∷◌ (phone, otp)) e, r)

  issue_otp-Sent_of :
      (phone : String) (w w' : W) (r : RequestOtpResult) (n : Result ℕ)
      → (s.runtime.rand_int otp_max w).0 ≡ n
      → issue_otp s phone (hash_phone s.runtime phone) w ≡ (ok r, w')
      → Sent phone r.expires_at w w'
  unfolding issue_otp generate_otp
  issue_otp-Sent_of phone w w' r (err x) e h = ground arith
  issue_otp-Sent_of phone w w' r (ok n) e h =
      let w1 = (s.runtime.rand_int otp_max w).1 in
      let (now, w2) = s.runtime.now w1 in
      let otp = zero_padded 6 n in
      let (created, w3) =
        s.otp_store.create_otp (new_record s (hash_phone s.runtime phone) otp now) w2 in
      Sent-from phone r.expires_at w w2 w' (ground (arith, d.now_keeps w1, d.rand_keeps otp_max w))
        (after_create-Sent phone otp now w2 w3 w' created r refl (ground arith))

  issue_otp-Sent :
      (phone : String) (w w' : W) (r : RequestOtpResult)
      → issue_otp s phone (hash_phone s.runtime phone) w ≡ (ok r, w')
      → Sent phone r.expires_at w w'
  issue_otp-Sent phone w w' r h =
      issue_otp-Sent_of phone w w' r (s.runtime.rand_int otp_max w).0 refl h

  request_valid-Sent :
      (phone client_ip : String) (w w' : W) (r : RequestOtpResult)
      → request_valid s phone (hash_phone s.runtime phone) client_ip w ≡ (ok r, w')
      → Sent phone r.expires_at w w'
  unfolding request_valid check_phone_limit check_ip_limit
  request_valid-Sent phone client_ip w w' r h =
      let phone_check =
        s.rate_limiter.check_and_increment ("otp_req:phone:" ++ hash_phone s.runtime phone) 3 900
          w in
      let ip_check =
        s.rate_limiter.check_and_increment ("otp_req:ip:" ++ client_ip) 10 900 phone_check.1 in
      Sent-from phone r.expires_at w ip_check.1 w'
        (ground (
          arith,
          d.check_keeps ("otp_req:phone:" ++ hash_phone s.runtime phone) 3 900 w,
          d.check_keeps ("otp_req:ip:" ++ client_ip) 10 900 phone_check.1,
        ))
        (issue_otp-Sent phone ip_check.1 w' r (ground arith))

  -- A successful request starts no text message, or exactly one: to the phone of the request, with
  -- a code that verifies against the fresh record which the table then holds for that phone, and
  -- whose expiry is the one that the answer promises.
  pub request_otp-Sent :
      (phone client_ip : String) (w w' : W) (r : RequestOtpResult)
      → request_otp s phone client_ip w ≡ (ok r, w')
      → Sent phone r.expires_at w w'
  unfolding request_otp
  request_otp-Sent phone client_ip w w' r h =
      ground (arith, request_valid-Sent phone client_ip w w' r)
