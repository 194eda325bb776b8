-- ===== src/Protocol.antt =====
-- protocol/mod.rs: the wire formats.
pub mod Uint24
pub mod Packet
pub mod Buffer
pub mod Reads
pub mod Frame
pub mod Magic
pub mod Address
pub mod Opening
pub mod Login
pub mod Datagram
pub mod Codec
pub mod Safety
