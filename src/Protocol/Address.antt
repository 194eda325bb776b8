-- ===== src/Protocol/Address.antt =====
-- protocol/codec.rs: socket addresses in the RakNet format.
pub mod RoundTrip
use raknet.Base.{
  ℕ, ◌+◌, ◌-◌, Bool, List, [], ◌∷◌, ltb, ◌==◌, if◌then◌else◌, length, Result, ok, err, panic, ◌>>=◌,
  ◌>>◌, reject_if, invalid_packet,
}
use raknet.Protocol.Buffer.{Buffer}

-- `std::net::SocketAddr`: the octets of the address and the port; a V6 address has its flow
-- information and its scope id as well.
pub data SocketAddr : Type 0 where
  v4 : ℕ → ℕ → ℕ → ℕ → ℕ → SocketAddr
  v6 : List ℕ → ℕ → ℕ → ℕ → SocketAddr

-- `!byte` of a `u8`.
abbrev pub not8 : ℕ → ℕ
not8 byte = 255 - byte

module _ (lib : Buffer) where
  open lib use {put_u8, put_u16, put_slice, remaining, get_u8, get_u16, copy_to_slice}

  unfoldable pub read_v4 : List ℕ → Result (SocketAddr × List ℕ)
  read_v4 buf = do
    reject_if (ltb (remaining buf) (4 + 2)) (invalid_packet "IPv4 address truncated" [])
    (a, buf) ← get_u8 buf
    (b, buf) ← get_u8 buf
    (c, buf) ← get_u8 buf
    (d, buf) ← get_u8 buf
    (port, buf) ← get_u16 buf
    ok (v4 (not8 a) (not8 b) (not8 c) (not8 d) port, buf)

  unfoldable pub read_v6 : List ℕ → Result (SocketAddr × List ℕ)
  read_v6 buf = do
    reject_if (ltb (remaining buf) (16 + 2)) (invalid_packet "IPv6 address truncated" [])
    (ip, buf) ← copy_to_slice 16 buf
    (port, buf) ← get_u16 buf
    ok (v6 ip port 0 0, buf)

  unfoldable pub read_address : List ℕ → Result (SocketAddr × List ℕ)
  unfolding read_v4 read_v6
  read_address [] = err (invalid_packet "Address buffer empty" [])
  read_address (byte ∷ bytes) = do
    (ip_version, buf) ← get_u8 (byte ∷ bytes)
    if ip_version == 4
        then read_v4 buf
        else if ip_version == 6
        then read_v6 buf
        else err (invalid_packet "Unknown IP version: {}" (ip_version ∷ []))

  unfoldable pub write_address : List ℕ → SocketAddr → List ℕ
  write_address buf (v4 a b c d port) =
      let buf = put_u8 buf 4 in
      let buf = put_u8 (put_u8 (put_u8 (put_u8 buf (not8 a)) (not8 b)) (not8 c)) (not8 d) in
      put_u16 buf port
  write_address buf (v6 ip port flowinfo scope_id) = put_u16 (put_slice (put_u8 buf 6) ip) port
