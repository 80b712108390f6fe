-- ===== src/Auth/Otp/Mac.antt =====
-- The MAC of a one-time password.
use text.Mathlib.TextLemmas.{append_cancel_right}
use realtime_messaging_platf.Prelude.{◌≡◌, ◌↔◌, true, String, eq_iff, arith}
use realtime_messaging_platf.Auth.Runtime.{Runtime}
use realtime_messaging_platf.Auth.Otp.{compute_otp_mac, verify_otp_mac}

module _ {W : Type 0} (rt : Runtime W) where
  pub verify_otp_mac-eq :
      (pepper candidate phone_hash expires_at stored : String)
      → (verify_otp_mac rt pepper candidate phone_hash expires_at stored ≡ true)
        ↔ (compute_otp_mac rt pepper candidate phone_hash expires_at ≡ stored)
  unfolding verify_otp_mac
  verify_otp_mac-eq pepper candidate phone_hash expires_at stored =
      ground (arith, eq_iff (compute_otp_mac rt pepper candidate phone_hash expires_at) stored)

  -- Under a MAC that has no two messages of one digest under the pepper, the only candidate that
  -- verifies against the MAC of a code, for the same phone and expiry, is the code itself.
  pub verify_otp_mac-compute_otp_mac :
      (pepper : String)
      → ((m m' : String) → rt.hmac_sha256_hex pepper m ≡ rt.hmac_sha256_hex pepper m' → m ≡ m')
      → (otp candidate phone_hash expires_at : String)
      → (verify_otp_mac rt pepper candidate phone_hash expires_at
            (compute_otp_mac rt pepper otp phone_hash expires_at)
          ≡ true)
        ↔ (candidate ≡ otp)
  unfolding compute_otp_mac
  verify_otp_mac-compute_otp_mac pepper inj otp candidate phone_hash expires_at =
      let v =
        verify_otp_mac-eq pepper candidate phone_hash expires_at
          (compute_otp_mac rt pepper otp phone_hash expires_at) in
      (
        λ h.
            append_cancel_right candidate otp phone_hash
              (append_cancel_right _ _ expires_at (inj _ _ (v.0 h))),
        λ e. v.1 (rw e),
      )
