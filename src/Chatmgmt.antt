-- ===== src/Chatmgmt.antt =====
-- internal/chatmgmt: the service for users, sessions and chats.
pub mod App
pub mod Adapter
pub mod Port
