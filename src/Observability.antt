-- ===== src/Observability.antt =====
-- internal/observability: the settings of logging, tracing and metrics, the redaction of logs, and the
-- providers of traces and metrics.
pub mod Settings
pub mod Logging
pub mod Providers
