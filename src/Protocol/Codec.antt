-- ===== src/Protocol/Codec.antt =====
-- protocol/codec.rs: the messages. An `i64` is its bit pattern, a number below 2 ^ 64.
pub mod Pings
mod Examples
use raknet.Base.{
  ℕ, ◌+◌, ◌%◌, ◌^◌, Bool, not, List, [], ltb, ◌==◌, if◌then◌else◌, length, Result, ok, err, panic,
  ◌>>=◌, ◌>>◌, reject_if, invalid_packet, invalid_magic,
}
use raknet.Protocol.Buffer.{Buffer, slice_to}
use raknet.Protocol.Magic.{magic, check_magic}
use raknet.Protocol.Packet.{id_unconnected_ping, id_unconnected_pong}

module _ (lib : Buffer) where
  open lib use {put_u8, put_u16, put_i64, put_slice, remaining, get_u8, get_u16, get_i64, advance}

  pub encode_unconnected_ping : ℕ → ℕ → List ℕ
  encode_unconnected_ping timestamp client_guid =
      put_i64 (put_slice (put_i64 (put_u8 [] id_unconnected_ping) timestamp) magic) client_guid

  unfoldable pub decode_unconnected_ping : List ℕ → Result (ℕ × ℕ)
  decode_unconnected_ping bytes = do
    reject_if (ltb (length bytes) (1 + 8 + 16 + 8)) (invalid_packet "UnconnectedPing too short" [])
    (packet_id, buf) ← get_u8 bytes
    reject_if (not (packet_id == id_unconnected_ping))
        (invalid_packet "Not an UnconnectedPing packet" [])
    (timestamp, buf) ← get_i64 buf
    reject_if (not (check_magic bytes 9)) invalid_magic
    buf ← advance 16 buf
    (client_guid, buf) ← get_i64 buf
    ok (timestamp, client_guid)

  -- `pong_data.len() as u16` keeps the low 16 bits.
  pub encode_unconnected_pong : ℕ → ℕ → List ℕ → List ℕ
  encode_unconnected_pong timestamp server_guid pong_data =
      let head =
        put_slice (put_i64 (put_i64 (put_u8 [] id_unconnected_pong) timestamp) server_guid) magic in
      put_slice (put_u16 head (length pong_data % 2 ^ 16)) pong_data

  unfoldable pub decode_unconnected_pong : List ℕ → Result (ℕ × ℕ × List ℕ)
  decode_unconnected_pong bytes = do
    reject_if (ltb (length bytes) (1 + 8 + 8 + 16 + 2))
        (invalid_packet "UnconnectedPong too short" [])
    (packet_id, buf) ← get_u8 bytes
    reject_if (not (packet_id == id_unconnected_pong))
        (invalid_packet "Not an UnconnectedPong packet" [])
    (timestamp, buf) ← get_i64 buf
    (server_guid, buf) ← get_i64 buf
    reject_if (not (check_magic bytes 17)) invalid_magic
    buf ← advance 16 buf
    (pong_data_len, buf) ← get_u16 buf
    reject_if (ltb (remaining buf) pong_data_len)
        (invalid_packet "UnconnectedPong pong bytes truncated" [])
    pong_data ← slice_to pong_data_len buf
    ok (timestamp, server_guid, pong_data)
