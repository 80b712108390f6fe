-- ===== src/Chatmgmt/App/RequestOtp/Limits.antt =====
-- Which requests for a one-time password are refused, and what they leave behind.
use Prim.Native.String.{◌++◌}
use realtime_messaging_platf.Prelude.{
  ap, ◌≢◌, ◌≡◌, refl, Bool, true, false, String, Option, none, some, arith, ◌||◌,
}
use realtime_messaging_platf.Domain.Errors.{
  Error, sentinel, join, wrap, is, unavailable, phone_rate_limited,
}
use realtime_messaging_platf.Domain.Phone.{PhoneNumber, Validated, valid, invalid, new_phone_number}
use realtime_messaging_platf.Effect.{Result, ok, err}
use realtime_messaging_platf.Auth.Otp.{hash_phone}
use realtime_messaging_platf.Chatmgmt.App.{AuthService, RequestOtpResult}
use realtime_messaging_platf.Chatmgmt.App.RequestOtp.{
  check_phone_limit, check_ip_limit, request_valid, request_otp,
}

module _ {W K P : Type 0} (s : AuthService W K P) where
  abbrev pub phone_check : String → W → (Bool × Option Error) × W
  phone_check phone =
      s.rate_limiter.check_and_increment ("otp_req:phone:" ++ hash_phone s.runtime phone) 3 900

  abbrev pub ip_check : String → W → (Bool × Option Error) × W
  ip_check client_ip = s.rate_limiter.check_and_increment ("otp_req:ip:" ++ client_ip) 10 900

  -- A request for a phone number that the limiter refuses, or cannot answer for, fails: with
  -- ErrPhoneRateLimited, or with an error that is ErrUnavailable. The limiter was the only thing
  -- called.
  pub request_otp-phone_refused :
      (phone client_ip : String) (w w' : W) (allowed : Bool) (failure : Option Error)
      (n : PhoneNumber)
      → new_phone_number phone ≡ valid n
      → phone_check phone w ≡ ((allowed, failure), w')
      → (failure ≡ none → allowed ≡ false)
      → (e : Error) × (request_otp s phone client_ip w ≡ (err e, w'))
        × ((is e unavailable || is e phone_rate_limited) ≡ true)
  unfolding request_otp check_phone_limit is
  request_otp-phone_refused phone client_ip w w' allowed none n v c r =
      (sentinel phone_rate_limited, ground (arith, r refl), refl)
  request_otp-phone_refused phone client_ip w w' allowed (some f) n v c r =
      (wrap "check phone rate limit" (join f (sentinel unavailable)), ground arith, ground arith)

  phone_limit-admits :
      (phone : String) (w w' : W) (v : Bool × Option Error)
      → (phone_check phone w).0 ≡ v
      → check_phone_limit s (hash_phone s.runtime phone) w ≡ (ok tt, w')
      → v ≡ (true, none)
  unfolding check_phone_limit
  phone_limit-admits phone w w' (true, none) e h = refl
  phone_limit-admits phone w w' (false, none) e h = absurd (ground arith)
  phone_limit-admits phone w w' (b, some f) e h = absurd (ground arith)

  ip_limit-admits :
      (client_ip : String) (w w' : W)
      → (ip_check client_ip w).0 ≡ (false, none)
      → check_ip_limit s client_ip w ≡ (ok tt, w')
      → ⊥
  unfolding check_ip_limit
  ip_limit-admits client_ip w w' e h = ground arith

  valid-admitted :
      (phone client_ip : String) (w w' : W) (r : RequestOtpResult) (a b : Result Unit)
      → (check_phone_limit s (hash_phone s.runtime phone) w).0 ≡ a
      → (check_ip_limit s client_ip (phone_check phone w).1).0 ≡ b
      → request_valid s phone (hash_phone s.runtime phone) client_ip w ≡ (ok r, w')
      → ((phone_check phone w).0 ≡ (true, none))
        × ((ip_check client_ip (phone_check phone w).1).0 ≢ (false, none))
  unfolding request_valid check_phone_limit
  valid-admitted phone client_ip w w' r (err x) b p q h = absurd (ground arith)
  valid-admitted phone client_ip w w' r (ok u) (err x) p q h = absurd (ground arith)
  valid-admitted phone client_ip w w' r (ok u) (ok v) p q h =
      let w1 = (phone_check phone w).1 in
      let w2 = (check_ip_limit s client_ip w1).1 in
      (
        phone_limit-admits phone w w1 (phone_check phone w).0 refl
            (ap (λ (x : Result Unit). (x, w1)) p),
        λ e. ip_limit-admits client_ip w1 w2 e (ap (λ (x : Result Unit). (x, w2)) q),
      )

  number-admitted :
      (phone client_ip : String) (w w' : W) (r : RequestOtpResult) (n : Validated)
      → new_phone_number phone ≡ n
      → request_otp s phone client_ip w ≡ (ok r, w')
      → ((m : PhoneNumber) × (n ≡ valid m))
        × (request_valid s phone (hash_phone s.runtime phone) client_ip w ≡ (ok r, w'))
  unfolding request_otp
  number-admitted phone client_ip w w' r (valid m) e h = ((m, refl), ground arith)
  number-admitted phone client_ip w w' r (invalid x) e h = absurd (ground arith)

  -- A request that succeeds, with a new code or with one that was active, is for a phone number
  -- that the domain accepts; the limiter, asked for the phone with a limit of three in 900 seconds,
  -- allowed it without an error; and asked next for the address, with a limit of ten, it did not
  -- refuse, though it may have failed.
  pub request_otp-admitted :
      (phone client_ip : String) (w w' : W) (r : RequestOtpResult)
      → request_otp s phone client_ip w ≡ (ok r, w')
      → ((n : PhoneNumber) × (new_phone_number phone ≡ valid n))
        × ((phone_check phone w).0 ≡ (true, none))
        × ((ip_check client_ip (phone_check phone w).1).0 ≢ (false, none))
  request_otp-admitted phone client_ip w w' r h =
      let (number, run) = number-admitted phone client_ip w w' r (new_phone_number phone) refl h in
      let w1 = (phone_check phone w).1 in
      let (phone_allowed, ip_not_refused) =
        valid-admitted phone client_ip w w' r (check_phone_limit s (hash_phone s.runtime phone) w).0
          (check_ip_limit s client_ip w1).0 refl refl run in
      (number, phone_allowed, ip_not_refused)
