-- ===== src/Errmap.antt =====
-- internal/errmap: domain errors on the wire.
pub mod Table
pub mod Grpc
pub mod Http
pub mod WebSocket
pub mod Agreement
