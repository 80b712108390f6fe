-- ===== src/Chatmgmt/Adapter.antt =====
-- internal/chatmgmt/adapter: the stores behind the flows.
pub mod Redis
pub mod Transactor
pub mod Otps
pub mod Sessions
pub mod Pem
pub mod Keys
pub mod Users
pub mod Sms
