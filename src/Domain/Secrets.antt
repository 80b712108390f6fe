-- ===== src/Domain/Secrets.antt =====
-- internal/domain/secrets.go: values that are not shown.
use realtime_messaging_platf.Prelude.{ℕ, Bool, String, str_eq, ◌==◌, List, length}

pub record SecretString : Type 0 where
  pub value : String

-- Bytes are numbers.
pub record SecretBytes : Type 0 where
  pub value : List ℕ

abbrev pub redacted : String
redacted = "[REDACTED]"

-- Of both types, String and LogValue.
unfoldable pub string_of_text : SecretString → String
string_of_text s = redacted

unfoldable pub log_value_of_text : SecretString → String
log_value_of_text s = redacted

unfoldable pub expose_text : SecretString → String
expose_text s = s.value

unfoldable pub is_empty_text : SecretString → Bool
is_empty_text s = str_eq s.value ""

unfoldable pub string_of_bytes : SecretBytes → String
string_of_bytes s = redacted

unfoldable pub log_value_of_bytes : SecretBytes → String
log_value_of_bytes s = redacted

unfoldable pub expose_bytes : SecretBytes → List ℕ
expose_bytes s = s.value

unfoldable pub is_empty_bytes : SecretBytes → Bool
is_empty_bytes s = length s.value == 0
