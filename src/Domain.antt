-- ===== src/Domain.antt =====
-- internal/domain: errors, limits and value objects.
pub mod Errors
pub mod Constants
pub mod Phone
pub mod Ids
pub mod Clock
pub mod Secrets
