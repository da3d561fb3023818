-- ===== src/Signaling.antt =====
-- services/signaling.
pub mod Protocol
pub mod Hub
pub mod Session
