-- ===== src/Worker/Room.antt =====
-- services/media-worker/internal/room.
pub mod Slots
pub mod State
pub mod Names
pub mod Picture
pub mod Members
pub mod Forward
pub mod Recording
