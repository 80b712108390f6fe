-- ===== src/Chatmgmt/Adapter/Sms.antt =====
-- internal/chatmgmt/adapter/sns_sms.go, with the interface of internal/auth/sms.go. The client of
-- SNS and the logger are parameters; the spans are left out. A phone number is in ASCII, so its
-- characters are its bytes.
pub mod Mask
use Prim.Native.String.{◌++◌}
use realtime_messaging_platf.Prelude.{
  ℕ, zero, suc, ◌-◌, leb, String, List, [], ◌∷◌, length, codes, if◌then◌else◌,
}
use realtime_messaging_platf.Domain.Errors.{wrap}
use realtime_messaging_platf.Effect.{Result, ok, err, Action, label}

-- auth.SMSProvider.
pub record SmsProvider (W : Type 0) : Type 0 where
  pub send_otp : String → String → Action W Unit

pub record PublishInput : Type 0 where
  pub phone_number : String
  pub message : String

-- snsPublisher.
pub record SnsPublisher (W : Type 0) : Type 0 where
  pub publish : PublishInput → Action W Unit

-- Logger.InfoContext, with the attributes.
pub record Logger (W : Type 0) : Type 0 where
  pub info : String → List (String × String) → W → W

unfoldable pub sns_sms_provider : {W : Type 0} → SnsPublisher W → SmsProvider W
sns_sms_provider client = record {
  send_otp = λ phone otp. label ("sns sms: send otp to " ++ phone) (
      client.publish
        (record { phone_number = phone; message = "Your verification code is: " ++ otp }));
}

-- s[n:].
unfoldable pub str_drop : ℕ → String → String
str_drop zero s = s
str_drop (suc n) String.[] = ""
str_drop (suc n) (String.◌∷◌ c s) = str_drop n s

unfoldable pub mask_phone : String → String
mask_phone phone =
    let n = length (codes phone) in if leb n 4 then "****" else "***" ++ str_drop (n - 4) phone

unfoldable pub log_sms_provider : {W : Type 0} → Logger W → SmsProvider W
unfolding mask_phone
log_sms_provider logger = record {
  send_otp = λ phone otp w. (
    ok tt,
    logger.info "otp delivery (log-only)" (("phone", mask_phone phone) ∷ ("otp", otp) ∷ []) w,
  );
}
