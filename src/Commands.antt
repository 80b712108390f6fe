-- ===== src/Commands.antt =====
-- cmd: the services' commands, and how the chat management service is put together.
pub mod Setup
pub mod Services
