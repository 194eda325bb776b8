-- ===== src/Reliability.antt =====
-- reliability/: what makes packets arrive, once and in order.
pub mod Levels
pub mod Ack
pub mod Ordered
pub mod SendQueue
pub mod Fragment
pub mod BitVec
pub mod RecvWindow
