-- ===== src/Connection.antt =====
-- connection.rs: an established connection, which receives, sends and keeps itself up.
pub mod World
pub mod Sending
pub mod Frames
pub mod Receive
pub mod Ticking
pub mod Transfer
mod Examples
pub mod Sharing
pub mod Stream
