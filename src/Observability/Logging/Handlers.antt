-- ===== src/Observability/Logging/Handlers.antt =====
-- internal/observability/logging.go and tracer.go: the loggers. A handler of log/slog is what it was
-- made with, and shows an attribute as its ReplaceAttr gives it.
use realtime_messaging_platf.Prelude.{
  Bool, ◌≡◌, inl, inr, ap, String, str_eq, List, [], ◌∷◌, ◌++◌, Option, none, some, if◌then◌else◌,
}
use realtime_messaging_platf.Observability.Settings.{LogConfig}
use realtime_messaging_platf.Observability.Logging.{
  Level, Format, json_format, Attr, level_of, format_of, redact_secrets, first_replaced,
  redacting_replace, sensitive_patterns,
}
use realtime_messaging_platf.Observability.Logging.Redaction.{Sensitive, redact_secrets_cases}

abbrev pub ReplaceAttr : Type 0
ReplaceAttr = List String → Attr → Attr

-- slog.HandlerOptions; both may be nil.
pub record HandlerOptions : Type 0 where
  pub level : Option Level
  pub replace_attr : Option ReplaceAttr

pub record Handler : Type 0 where
  pub format : Format
  pub options : HandlerOptions

pub record Logger : Type 0 where
  pub handler : Handler
  pub attrs : List Attr

-- Logger.With.
abbrev pub with_attrs : List Attr → Logger → Logger
with_attrs more logger = record logger { attrs = logger.attrs ++ more }

-- The span of a context.
pub record SpanContext : Type 0 where
  pub has_trace_id : Bool
  pub trace_id : String

unfoldable pub trace_id_from_context : SpanContext → String
trace_id_from_context span = if span.has_trace_id then span.trace_id else ""

unfoldable pub with_trace_id : SpanContext → Logger → Logger
unfolding trace_id_from_context
with_trace_id span logger =
    if str_eq (trace_id_from_context span) ""
    then logger
    else with_attrs (record { key = "trace_id"; value = trace_id_from_context span } ∷ []) logger

-- At the default logger.
unfoldable pub logger_from_context : SpanContext → Logger → Logger
unfolding with_trace_id
logger_from_context span default = with_trace_id span default

module _ (to_lower : String → String) where
  -- The logger, and the default logger after the call.
  unfoldable pub init_logger : LogConfig → Logger → Logger × Logger
  init_logger cfg default =
      let logger : Logger = record {
        handler = record {
          format = format_of to_lower cfg.format;
          options = record {
            level = some (level_of to_lower cfg.level);
            replace_attr = some (redact_secrets to_lower);
          };
        };
        attrs =
            record { key = "service"; value = cfg.service_name }
            ∷ record { key = "environment"; value = cfg.environment }
            ∷ [];
      } in
      (logger, logger)

  unfoldable pub or_empty : Option HandlerOptions → HandlerOptions
  or_empty none = record { level = none; replace_attr = none }
  or_empty (some opts) = opts

  -- The handler shares the options with the caller, who finds them changed.
  unfoldable pub new_redacting_handler : Option HandlerOptions → Handler × HandlerOptions
  unfolding or_empty
  new_redacting_handler o =
      let opts = or_empty o in
      let changed : HandlerOptions = record opts {
        replace_attr = some (redacting_replace to_lower opts.replace_attr);
      } in
      (record { format = json_format; options = changed }, changed)

  abbrev pub shown : Handler → List String → Attr → Attr
  shown handler groups a = first_replaced to_lower handler.options.replace_attr groups a

  redact_secrets-Sensitive :
      (groups : List String) (a : Attr)
      → Sensitive (to_lower a.key) sensitive_patterns
      → redact_secrets to_lower groups a ≡ record { key = a.key; value = "[REDACTED]" }
  redact_secrets-Sensitive groups a h = elim (redact_secrets_cases to_lower groups a) [
    | inl (_, e) ↦ e
    | inr (clean, _) ↦ absurd (clean h)
  ]

  -- Neither the logger that InitLogger makes nor a redacting handler shows the value of an attribute
  -- with a sensitive key: for the handler, one whose key is sensitive after the replacement that its
  -- options asked for.
  pub shown-Sensitive :
      (cfg : LogConfig) (default : Logger) (o : Option HandlerOptions) (groups : List String)
      (a : Attr)
      → (Sensitive (to_lower a.key) sensitive_patterns
          → (shown (init_logger cfg default).0.handler groups a).value ≡ "[REDACTED]")
        × (Sensitive
              (to_lower (first_replaced to_lower (or_empty o).replace_attr groups a).key)
              sensitive_patterns
            → (shown (new_redacting_handler o).0 groups a).value ≡ "[REDACTED]")
  unfolding init_logger new_redacting_handler redacting_replace first_replaced
  shown-Sensitive cfg default o groups a = (
    λ h. ap (λ (x : Attr). x.value) (redact_secrets-Sensitive groups a h),
    λ h.
        ap (λ (x : Attr). x.value)
          (redact_secrets-Sensitive groups
            (first_replaced to_lower (or_empty o).replace_attr groups a) h),
  )
