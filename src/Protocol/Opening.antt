-- ===== src/Protocol/Opening.antt =====
-- protocol/codec.rs: the messages that open a connection. An `i64` is its bit pattern, a number
-- below 2 ^ 64.
pub mod RoundTrip
mod Examples
use raknet.Base.{
  ℕ, ◌+◌, ◌-◌, ◌%◌, ◌^◌, Bool, not, List, [], ◌∷◌, ltb, ◌==◌, if◌then◌else◌, length, Option, none,
  some, get_elem?, Result, ok, err, panic, ◌>>=◌, ◌>>◌, reject_if, invalid_packet, invalid_magic,
}
use raknet.Protocol.Buffer.{Buffer}
use raknet.Protocol.Magic.{magic, check_magic}
use raknet.Protocol.Packet.{
  id_open_connection_request_1, id_open_connection_reply_1, id_open_connection_request_2,
  id_open_connection_reply_2,
}
use raknet.Protocol.Address.{SocketAddr, read_address, write_address}

-- `bytes[i]`, which panics out of bounds.
unfoldable pub byte_at : List ℕ → ℕ → Result ℕ
byte_at bytes i = elim (get_elem? bytes i) [ none ↦ panic | some b ↦ ok b ]

module _ (lib : Buffer) where
  open lib use {
    put_u8, put_u16, put_i64, put_slice, put_bytes, remaining, get_u8, get_u16, get_i64, advance,
  }

  unfoldable pub encode_open_connection_request_1 : ℕ → ℕ → List ℕ
  encode_open_connection_request_1 protocol_version mtu =
      let buf =
        put_u8 (put_slice (put_u8 [] id_open_connection_request_1) magic) protocol_version in
      put_bytes buf 0 (mtu - length buf)

  -- The sum is one of `usize`, and `as u16` keeps its low 16 bits.
  unfoldable pub decode_open_connection_request_1 : List ℕ → Result (ℕ × ℕ)
  unfolding byte_at
  decode_open_connection_request_1 bytes = do
    reject_if (ltb (length bytes) (1 + 16 + 1))
        (invalid_packet "OpenConnectionRequest1 too short" [])
    packet_id ← byte_at bytes 0
    reject_if (not (packet_id == id_open_connection_request_1))
        (invalid_packet "Not an OpenConnectionRequest1 packet" [])
    reject_if (not (check_magic bytes 1)) invalid_magic
    protocol_version ← byte_at bytes 17
    ok (protocol_version, (length bytes + 28) % 2 ^ 16)

  pub encode_open_connection_reply_1 : ℕ → ℕ → List ℕ
  encode_open_connection_reply_1 server_guid mtu =
      let buf = put_i64 (put_slice (put_u8 [] id_open_connection_reply_1) magic) server_guid in
      put_u16 (put_u8 buf 0) mtu

  unfoldable pub decode_open_connection_reply_1 : List ℕ → Result (ℕ × ℕ)
  decode_open_connection_reply_1 bytes = do
    reject_if (ltb (length bytes) (1 + 16 + 8 + 1 + 2))
        (invalid_packet "OpenConnectionReply1 too short" [])
    (packet_id, buf) ← get_u8 bytes
    reject_if (not (packet_id == id_open_connection_reply_1))
        (invalid_packet "Not an OpenConnectionReply1 packet" [])
    reject_if (not (check_magic bytes 1)) invalid_magic
    buf ← advance 16 buf
    (server_guid, buf) ← get_i64 buf
    (use_encryption, buf) ← get_u8 buf
    (mtu, buf) ← get_u16 buf
    ok (server_guid, mtu)

  unfoldable pub encode_open_connection_request_2 : SocketAddr → ℕ → ℕ → List ℕ
  encode_open_connection_request_2 server_addr mtu client_guid =
      let buf =
        write_address lib (put_slice (put_u8 [] id_open_connection_request_2) magic) server_addr in
      put_i64 (put_u16 buf mtu) client_guid

  unfoldable pub decode_open_connection_request_2 : List ℕ → Result (SocketAddr × ℕ × ℕ)
  decode_open_connection_request_2 bytes = do
    reject_if (ltb (length bytes) (1 + 16)) (invalid_packet "OpenConnectionRequest2 too short" [])
    (packet_id, buf) ← get_u8 bytes
    reject_if (not (packet_id == id_open_connection_request_2))
        (invalid_packet "Not an OpenConnectionRequest2 packet" [])
    reject_if (not (check_magic bytes 1)) invalid_magic
    buf ← advance 16 buf
    (server_addr, buf) ← read_address lib buf
    reject_if (ltb (remaining buf) (2 + 8)) (invalid_packet "OpenConnectionRequest2 truncated" [])
    (mtu, buf) ← get_u16 buf
    (client_guid, buf) ← get_i64 buf
    ok (server_addr, mtu, client_guid)

  pub encode_open_connection_reply_2 : ℕ → SocketAddr → ℕ → List ℕ
  encode_open_connection_reply_2 server_guid client_addr mtu =
      let buf = put_i64 (put_slice (put_u8 [] id_open_connection_reply_2) magic) server_guid in
      put_u8 (put_u16 (write_address lib buf client_addr) mtu) 0

  unfoldable pub decode_open_connection_reply_2 : List ℕ → Result (ℕ × SocketAddr × ℕ)
  decode_open_connection_reply_2 bytes = do
    reject_if (ltb (length bytes) (1 + 16 + 8)) (invalid_packet "OpenConnectionReply2 too short" [])
    (packet_id, buf) ← get_u8 bytes
    reject_if (not (packet_id == id_open_connection_reply_2))
        (invalid_packet "Not an OpenConnectionReply2 packet" [])
    reject_if (not (check_magic bytes 1)) invalid_magic
    buf ← advance 16 buf
    (server_guid, buf) ← get_i64 buf
    (client_addr, buf) ← read_address lib buf
    reject_if (ltb (remaining buf) (2 + 1)) (invalid_packet "OpenConnectionReply2 truncated" [])
    (mtu, buf) ← get_u16 buf
    (use_encryption, buf) ← get_u8 buf
    ok (server_guid, client_addr, mtu)
