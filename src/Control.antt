-- ===== src/Control.antt =====
-- services/control-plane: errors, authentication, the use cases and the HTTP interface.
pub mod Errors
pub mod Domain
pub mod Tables
pub mod Store
pub mod Sql
pub mod Auth
pub mod Rooms
pub mod Users
pub mod Recordings
pub mod Templates
pub mod Http
pub mod Routes
pub mod Media
