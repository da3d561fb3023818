-- ===== src/Worker.antt =====
-- services/media-worker.
pub mod Layout
pub mod Asd
pub mod Room
pub mod Pipelines
pub mod Compositor
pub mod Rooms
pub mod Handlers
