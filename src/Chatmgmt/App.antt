-- ===== src/Chatmgmt/App.antt =====
-- internal/chatmgmt/app/auth_service.go: the records, the interfaces of the stores and the
-- service. The logger, the tracer and the counters are left out: they return nothing to the code.
pub mod Contract
pub mod RequestOtp
pub mod Login
pub mod VerifyOtp
pub mod RefreshTokens
pub mod Logout
use realtime_messaging_platf.Prelude.{ℕ, Bool, String, List}
use realtime_messaging_platf.Effect.{Action, Verdict}
use realtime_messaging_platf.Auth.Runtime.{Runtime}
use realtime_messaging_platf.Auth.Tokens.{JwtLibrary, Minter, Validator}

pub record OtpRecord : Type 0 where
  pub phone_hash : String
  pub otp_mac : String
  pub otp_ciphertext : String
  pub created_at : String
  pub expires_at : String
  pub status : String
  pub attempt_count : ℕ
  pub ttl : ℕ

pub record UserRecord : Type 0 where
  pub user_id : String
  pub phone_number : String
  pub display_name : String
  pub created_at : String
  pub updated_at : String

pub record SessionRecord : Type 0 where
  pub session_id : String
  pub user_id : String
  pub device_id : String
  pub refresh_token_hash : String
  pub prev_token_hash : String
  pub created_at : String
  pub expires_at : String
  pub token_generation : ℕ
  pub ttl : ℕ

pub record SessionUpdate : Type 0 where
  pub refresh_token_hash : String
  pub prev_token_hash : String
  pub expires_at : String
  pub token_generation : ℕ
  pub ttl : ℕ

pub record RegistrationParams : Type 0 where
  pub phone_hash : String
  pub otp_expires_at : String
  pub otp_mac : String
  pub user_id : String
  pub phone_number : String
  pub now : String
  pub session_id : String
  pub device_id : String
  pub refresh_token_hash : String
  pub session_expires_at : String
  pub session_ttl : ℕ

pub record LoginParams : Type 0 where
  pub phone_hash : String
  pub otp_expires_at : String
  pub otp_mac : String
  pub session_id : String
  pub user_id : String
  pub device_id : String
  pub refresh_token_hash : String
  pub created_at : String
  pub session_expires_at : String
  pub session_ttl : ℕ

pub record OtpStore (W : Type 0) : Type 0 where
  pub create_otp : OtpRecord → Action W Unit
  pub get_otp : String → Action W OtpRecord
  pub increment_attempts : String → Action W Unit

pub record UserStore (W : Type 0) : Type 0 where
  pub get_by_id : String → Action W UserRecord
  pub find_by_phone : String → Action W UserRecord

pub record SessionStore (W : Type 0) : Type 0 where
  pub create : SessionRecord → Action W Unit
  pub get_by_id : String → Action W SessionRecord
  pub list_by_user : String → Action W (List SessionRecord)
  pub update : String → SessionUpdate → Action W Unit
  pub delete : String → Action W Unit

pub record AuthTransactor (W : Type 0) : Type 0 where
  pub verify_otp_and_create_user : RegistrationParams → Action W Unit
  pub verify_otp_and_create_session : LoginParams → Action W Unit

-- The key, the limit and the window in seconds; both a verdict and an error come back.
pub record RateLimiter (W : Type 0) : Type 0 where
  pub check_and_increment : String → ℕ → ℕ → W → Verdict × W
  pub check_lockout : String → W → Verdict × W
  pub set_lockout : String → ℕ → Action W Unit

pub record RevocationStore (W : Type 0) : Type 0 where
  pub revoke : String → Action W Unit
  pub is_revoked : String → W → Verdict × W

pub record RequestOtpResult : Type 0 where
  pub expires_at : ℕ
  pub retry_after_seconds : ℕ

pub record VerifyOtpResult : Type 0 where
  pub user : UserRecord
  pub session_id : String
  pub access_token : String
  pub refresh_token : String
  pub is_new_user : Bool
  pub access_token_expiry : ℕ

pub record RefreshResult : Type 0 where
  pub access_token : String
  pub refresh_token : String
  pub access_token_expiry : ℕ

-- The library and the clock stand in for the globals that the flows call. `go_send_otp phone otp`
-- is the `go` statement that starts the delivery of a text message: it returns at once, and the
-- goroutine only logs a failure. `sort_slice less` is sort.Slice.
pub record AuthService (W PrivateKey PublicKey : Type 0) : Type 0 where
  pub runtime : Runtime W
  pub jwt_library : JwtLibrary W PrivateKey PublicKey
  pub otp_store : OtpStore W
  pub user_store : UserStore W
  pub session_store : SessionStore W
  pub transactor : AuthTransactor W
  pub rate_limiter : RateLimiter W
  pub revocation_store : RevocationStore W
  pub go_send_otp : String → String → W → W
  pub sort_slice : (SessionRecord → SessionRecord → Bool) → List SessionRecord → List SessionRecord
  pub minter : Minter W PrivateKey PublicKey
  pub validator : Validator W PrivateKey PublicKey
  pub pepper : String
