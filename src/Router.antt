-- ===== src/Router.antt =====
-- services/media-router: which media worker serves a room.
pub mod Redis
pub mod Registry
pub mod Dispatcher
