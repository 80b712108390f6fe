-- ===== src/Observability/Logging.antt =====
-- internal/observability/logging.go: the level of the logger, and the redaction of its attributes.
-- strings.ToLower is a parameter. The value of an attribute is a text here.
pub mod Redaction
pub mod Handlers
use Prim.Native.Char.{code}
use realtime_messaging_platf.Prelude.{
  ℕ, Bool, true, false, ◌==◌, ◌&&◌, ◌||◌, String, str_eq, List, [], ◌∷◌, Option, none, some,
  if◌then◌else◌,
}
use realtime_messaging_platf.Observability.Settings.{LogConfig}

pub data Level : Type 0 where
  level_debug level_info level_warn level_error : Level

pub data Format : Type 0 where
  text_format json_format : Format

-- slog.Attr.
pub record Attr : Type 0 where
  pub key : String
  pub value : String

abbrev pub sensitive_patterns : List String
sensitive_patterns =
    "_key" ∷ "_secret" ∷ "_token" ∷ "_password" ∷ "_pepper" ∷ "_credential" ∷ "authorization"
    ∷ "bearer" ∷ "api_key" ∷ "apikey" ∷ "secret" ∷ "password" ∷ "private" ∷ []

unfoldable pub has_prefix : String → String → Bool
has_prefix s String.[] = true
has_prefix String.[] (String.◌∷◌ d t) = false
has_prefix (String.◌∷◌ c s) (String.◌∷◌ d t) = code c == code d && has_prefix s t

-- strings.Contains.
unfoldable pub contains : String → String → Bool
unfolding has_prefix
contains String.[] t = has_prefix "" t
contains (String.◌∷◌ c s) t = has_prefix (String.◌∷◌ c s) t || contains s t

module _ (to_lower : String → String) where
  -- The switch of InitLogger.
  unfoldable pub level_of : String → Level
  level_of level =
      let l = to_lower level in
      if str_eq l "debug"
      then level_debug
      else if str_eq l "warn" || str_eq l "warning"
      then level_warn
      else if str_eq l "error"
      then level_error
      else level_info

  unfoldable pub format_of : String → Format
  format_of format = if str_eq (to_lower format) "text" then text_format else json_format

  -- The loop over the patterns, which returns at the first match.
  redact : String → List String → Attr → Attr
  unfolding contains
  redact key_lower [] a = a
  redact key_lower (pattern ∷ rest) a =
      if contains key_lower pattern
      then record { key = a.key; value = "[REDACTED]" }
      else redact key_lower rest a

  unfoldable pub redact_secrets : List String → Attr → Attr
  unfolding redact
  redact_secrets groups a = redact (to_lower a.key) sensitive_patterns a

  unfoldable pub first_replaced : Option (List String → Attr → Attr) → List String → Attr → Attr
  first_replaced none groups a = a
  first_replaced (some original) groups a = original groups a

  -- The ReplaceAttr that NewRedactingHandler installs over the one of its options.
  unfoldable pub redacting_replace : Option (List String → Attr → Attr) → List String → Attr → Attr
  unfolding redact_secrets first_replaced
  redacting_replace original groups a = redact_secrets groups (first_replaced original groups a)
