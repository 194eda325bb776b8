-- ===== src/State.antt =====
-- state/: the state of a connection.
pub mod Connection
pub mod Metrics
pub mod Shared
