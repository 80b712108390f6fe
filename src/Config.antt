-- ===== src/Config.antt =====
-- internal/config/config.go: the configuration of the services, and how it is loaded.
pub mod Defaults
pub mod Load
