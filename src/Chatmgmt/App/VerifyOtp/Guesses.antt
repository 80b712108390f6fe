-- ===== src/Chatmgmt/App/VerifyOtp/Guesses.antt =====
-- How often a client can guess a code: the checks of a record, one after the other.
use Prim.Native.String.{◌++◌}
use realtime_messaging_platf.Prelude.{
  eq_iff, ap, Bool-cases, inl, inr, ℕ, ◌+◌, ◌-◌, ◌≤◌, ◌<◌, ◌≡◌, refl, Bool, true, false, not, ◌&&◌,
  ltb, String, str_eq, arith, List, [], ◌∷◌, if◌then◌else◌,
}
use realtime_messaging_platf.Domain.Errors.{Error}
use realtime_messaging_platf.Effect.{Result, ok, err}
use realtime_messaging_platf.Auth.Otp.{verify_otp_mac}
use realtime_messaging_platf.Chatmgmt.App.{AuthService, OtpRecord}
use realtime_messaging_platf.Chatmgmt.App.Contract.{Keeps}
use realtime_messaging_platf.Chatmgmt.App.VerifyOtp.Codes.{validated}
use realtime_messaging_platf.Chatmgmt.App.VerifyOtp.{validate_otp_record, check_record}

-- The failed attempts that the table has for one phone, when every count on a record that was just
-- found takes effect. The clock and the lockouts are kept elsewhere.
pub record AttemptContract {W K P : Type 0} (s : AuthService W K P) (phone_hash : String)
    : Type 0 where
  pub attempts : W → ℕ
  pub get_ok :
      (w w' : W) (r : OtpRecord)
      → s.otp_store.get_otp phone_hash w ≡ (ok r, w')
      → r.attempt_count ≡ attempts w
  pub get_keeps : Keeps attempts (s.otp_store.get_otp phone_hash)
  pub now_keeps : Keeps attempts s.runtime.now
  pub lockout_keeps : (k : String) (ttl : ℕ) → Keeps attempts (s.rate_limiter.set_lockout k ttl)
  pub increments :
      (w w1 : W) (r : OtpRecord)
      → s.otp_store.get_otp phone_hash w ≡ (ok r, w1)
      → attempts (s.otp_store.increment_attempts phone_hash (s.runtime.now w1).1).1
        ≡ attempts (s.runtime.now w1).1 + 1

abbrev pub is_accepted : Result OtpRecord → Bool
is_accepted (ok r) = true
is_accepted (err e) = false

module _ {W K P : Type 0} (s : AuthService W K P) (phone_hash : String)
    (c : AttemptContract s phone_hash) where
  abbrev in_time : Result ℕ → ℕ → Bool
  in_time (ok expires_at) now = not (ltb expires_at now)
  in_time (err e) now = false

  -- Whether a client learns that the candidate is not the code of the record.
  abbrev tells : String → Result OtpRecord → W → Bool
  tells candidate (err e) w = false
  tells candidate (ok r) w =
      not (str_eq r.status "verified")
      && (ltb r.attempt_count 5
          && (in_time (s.runtime.parse_rfc3339 r.expires_at) (s.runtime.now w).0
              && not
                  (verify_otp_mac s.runtime s.pepper candidate phone_hash r.expires_at r.otp_mac)))

  abbrev tells_in : String → W → Bool
  tells_in candidate w =
      let (found, w') = s.otp_store.get_otp phone_hash w in tells candidate found w'

  abbrev Counts : W → Type 0
  Counts w =
      c.attempts (s.otp_store.increment_attempts phone_hash (s.runtime.now w).1).1
      ≡ c.attempts (s.runtime.now w).1 + 1

  check_found-attempts :
      (candidate : String) (r : OtpRecord) (w : W) (t : Result ℕ)
      → s.runtime.parse_rfc3339 r.expires_at ≡ t
      → Counts w
      → c.attempts (check_record s phone_hash candidate (ok r) w).1
        ≡ c.attempts w + (if tells candidate (ok r) w then 1 else 0)
  unfolding check_record
  check_found-attempts candidate r w (err e) p counts =
      ground (arith, c.lockout_keeps ("otp_lockout:phone:" ++ phone_hash) 900 w)
  check_found-attempts candidate r w (ok t) p counts =
      ground (arith, c.lockout_keeps ("otp_lockout:phone:" ++ phone_hash) 900 w, c.now_keeps w)

  check_record-attempts :
      (candidate : String) (found : Result OtpRecord) (w : W)
      → ((r : OtpRecord) → found ≡ ok r → Counts w)
      → c.attempts (check_record s phone_hash candidate found w).1
        ≡ c.attempts w + (if tells candidate found w then 1 else 0)
  unfolding check_record
  check_record-attempts candidate (err e) w counts = ground arith
  check_record-attempts candidate (ok r) w counts =
      check_found-attempts candidate r w (s.runtime.parse_rfc3339 r.expires_at) refl (counts r refl)

  -- A wrong guess is counted, and nothing else is.
  validate_otp_record-attempts :
      (candidate : String) (w : W)
      → c.attempts (validate_otp_record s phone_hash candidate w).1
        ≡ c.attempts w + (if tells_in candidate w then 1 else 0)
  unfolding validate_otp_record
  validate_otp_record-attempts candidate w =
      let (found, w') = s.otp_store.get_otp phone_hash w in
      omega (
        arith,
        check_record-attempts candidate found w'
            (λ r e. c.increments w w' r (ap (λ (x : Result OtpRecord). (x, w')) e)),
        c.get_keeps w,
      )

  few_of_validated :
      (code : String) (w w' : W) (r : OtpRecord)
      → validate_otp_record s phone_hash code w ≡ (ok r, w')
      → c.attempts w < 5
  few_of_validated code w w' r h =
      let (g, (_, few, _, _)) =
        validated s phone_hash code w w' r (s.otp_store.get_otp phone_hash w).0 refl h in
      ground (
        arith,
        few,
        c.get_ok w (s.otp_store.get_otp phone_hash w).1 r
            (ap (λ (x : Result OtpRecord). (x, (s.otp_store.get_otp phone_hash w).1)) g),
      )

  -- Where the code would be accepted, a candidate that is refused is refused for its MAC.
  refused-tells :
      (code candidate : String) (w : W) (r : OtpRecord) (e : Error)
      → (validate_otp_record s phone_hash code w).0 ≡ ok r
      → (validate_otp_record s phone_hash candidate w).0 ≡ err e
      → tells_in candidate w ≡ true
  unfolding validate_otp_record check_record
  refused-tells code candidate w r e right wrong =
      let w' = (validate_otp_record s phone_hash code w).1 in
      let (g, (fresh, few, fits, (t, p, early))) =
        validated s phone_hash code w w' r (s.otp_store.get_otp phone_hash w).0 refl
          (ap (λ (x : Result OtpRecord). (x, w')) right) in
      ground (arith, g, few, p, early, eq_iff r.status "verified", fresh)

  -- A wrong guess is a candidate that is refused where the right code would be accepted: from such
  -- a refusal a client learns which code it is not.
  abbrev pub is_wrong_guess : String → String → W → Bool
  is_wrong_guess code candidate w =
      is_accepted (validate_otp_record s phone_hash code w).0
      && not (is_accepted (validate_otp_record s phone_hash candidate w).0)

  -- The wrong guesses among the candidates that are tried one after the other.
  abbrev pub wrong_guesses : String → List String → W → ℕ
  wrong_guesses code [] w = 0
  wrong_guesses code (candidate ∷ rest) w =
      (if is_wrong_guess code candidate w then 1 else 0)
      + wrong_guesses code rest (validate_otp_record s phone_hash candidate w).1

  is_wrong_guess-tells :
      (code candidate : String) (w : W) (a b : Result OtpRecord)
      → (validate_otp_record s phone_hash code w).0 ≡ a
      → (validate_otp_record s phone_hash candidate w).0 ≡ b
      → is_wrong_guess code candidate w ≡ true
      → (c.attempts w < 5) × (tells_in candidate w ≡ true)
  is_wrong_guess-tells code candidate w (err x) b p q h = absurd (ground arith)
  is_wrong_guess-tells code candidate w (ok r) (ok x) p q h = absurd (ground arith)
  is_wrong_guess-tells code candidate w (ok r) (err e) p q h = (
    few_of_validated code w (validate_otp_record s phone_hash code w).1 r
        (ap (λ (x : Result OtpRecord). (x, (validate_otp_record s phone_hash code w).1)) p),
    refused-tells code candidate w r e p q,
  )

  -- However many candidates a client tries for a phone, one after the other, and whichever code is
  -- the right one, at most five of them, less the attempts that failed before, are refused at a
  -- moment when the right code would have been accepted; as long as every failed attempt is counted
  -- and no new code is written in between.
  pub wrong_guesses-le :
      (code : String) (candidates : List String) (w : W)
      → wrong_guesses code candidates w ≤ 5 - c.attempts w
  wrong_guesses-le code [] w = omega arith
  wrong_guesses-le code (candidate ∷ rest) w =
      let w1 = (validate_otp_record s phone_hash candidate w).1 in
      let counted = validate_otp_record-attempts candidate w in
      let later = wrong_guesses-le code rest w1 in
      elim (Bool-cases (is_wrong_guess code candidate w)) [
        | inl wrong ↦
            let (some_left, told) =
              is_wrong_guess-tells code candidate w (validate_otp_record s phone_hash code w).0
                (validate_otp_record s phone_hash candidate w).0 refl refl wrong in
            let one : c.attempts w1 ≡ c.attempts w + 1 = ground (arith, counted, told) in
            ground (arith, later, one, some_left, wrong)
        | inr other ↦
            let more : c.attempts w ≤ c.attempts w1 = ground (arith, counted) in
            ground (arith, later, more, other)
      ]
