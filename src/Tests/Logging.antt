-- ===== src/Tests/Logging.antt =====
-- The redaction of attributes, and the log of a delivery.
use realtime_messaging_platf.Prelude.{◌≡◌, ◌⊎◌, String, List, [], ◌∷◌, refl}
use realtime_messaging_platf.Observability.Logging.{
  Attr, sensitive_patterns, redact_secrets, level_of, level_warn,
}
use realtime_messaging_platf.Observability.Logging.Redaction.{Sensitive, redact_secrets_cases}
use realtime_messaging_platf.Chatmgmt.Adapter.Sms.{Logger, mask_phone}

abbrev attr : Attr
attr = record { key = "db_password"; value = "hunter2" }

redact_secrets_cases_example :
    (Sensitive "db_password" sensitive_patterns
      × (redact_secrets (λ s. s) [] attr ≡ record { key = "db_password"; value = "[REDACTED]" }))
    ⊎ ((Sensitive "db_password" sensitive_patterns → ⊥) × (redact_secrets (λ s. s) [] attr ≡ attr))
redact_secrets_cases_example = redact_secrets_cases (λ s. s) [] attr

redact_secrets_db_password :
    redact_secrets (λ s. s) [] attr ≡ record { key = "db_password"; value = "[REDACTED]" }
unfolding redact_secrets
redact_secrets_db_password = refl

-- A bare `token` or `otp` stays.
redact_secrets_otp :
    redact_secrets (λ s. s) [] (record { key = "otp"; value = "123456" })
    ≡ record { key = "otp"; value = "123456" }
unfolding redact_secrets
redact_secrets_otp = refl

level_of_warning : level_of (λ s. s) "warning" ≡ level_warn
unfolding level_of
level_of_warning = refl

mask_phone_short : mask_phone "1234" ≡ "****"
unfolding mask_phone
mask_phone_short = refl

abbrev logger : Logger (List (List (String × String)))
logger = record { info = λ message attributes w. attributes ∷ w }
