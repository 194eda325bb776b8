-- ===== src/Protocol/Login.antt =====
-- protocol/codec.rs: the messages inside a connection: the login sequence, the connected ping and
-- pong, and the disconnect notification.
pub mod RoundTrip
mod Examples
use raknet.Base.{
  ℕ, zero, suc, ◌+◌, ◌-◌, Bool, not, List, [], ◌∷◌, ltb, ◌==◌, if◌then◌else◌, length, Result, ok,
  err, panic, ◌>>=◌, ◌>>◌, reject_if, invalid_packet,
}
use raknet.Protocol.Buffer.{Buffer}
use raknet.Protocol.Packet.{
  id_connection_request, id_connection_request_accepted, id_new_incoming_connection,
  id_connected_ping, id_connected_pong, id_disconnect_notification,
}
use raknet.Protocol.Address.{SocketAddr, v4, read_address, write_address}

-- "0.0.0.0:0"
abbrev pub internal_addr : SocketAddr
internal_addr = v4 0 0 0 0 0

pub encode_disconnect_notification : List ℕ
encode_disconnect_notification = id_disconnect_notification ∷ []

unfoldable pub decode_disconnect_notification : List ℕ → Result (Unit {0})
decode_disconnect_notification [] = err (invalid_packet "DisconnectNotification empty" [])
decode_disconnect_notification (packet_id ∷ bytes) =
    reject_if (not (packet_id == id_disconnect_notification))
      (invalid_packet "Not a DisconnectNotification packet" [])

module _ (lib : Buffer) where
  open lib use {put_u8, put_u16, put_i64, remaining, get_u8, get_u16, get_i64}

  pub encode_connection_request : ℕ → ℕ → List ℕ
  encode_connection_request client_guid timestamp =
      put_u8 (put_i64 (put_i64 (put_u8 [] id_connection_request) client_guid) timestamp) 0

  unfoldable pub decode_connection_request : List ℕ → Result (ℕ × ℕ)
  decode_connection_request bytes = do
    reject_if (ltb (length bytes) (1 + 8 + 8 + 1)) (invalid_packet "ConnectionRequest too short" [])
    (packet_id, buf) ← get_u8 bytes
    reject_if (not (packet_id == id_connection_request))
        (invalid_packet "Not a ConnectionRequest packet" [])
    (client_guid, buf) ← get_i64 buf
    (timestamp, buf) ← get_i64 buf
    (use_encryption, buf) ← get_u8 buf
    ok (client_guid, timestamp)

  -- The loop that writes the internal addresses, and the one that reads them.
  pub write_internal : ℕ → List ℕ → List ℕ
  write_internal zero buf = buf
  write_internal (suc n) buf = write_internal n (write_address lib buf internal_addr)

  unfoldable pub skip_addresses : ℕ → List ℕ → Result (List ℕ)
  skip_addresses zero buf = ok buf
  skip_addresses (suc n) buf = do (addr, buf) ← read_address lib buf; skip_addresses n buf

  pub encode_connection_request_accepted : SocketAddr → ℕ → ℕ → List ℕ
  encode_connection_request_accepted client_addr request_timestamp accepted_timestamp =
      let buf =
        put_u16 (write_address lib (put_u8 [] id_connection_request_accepted) client_addr) 0 in
      put_i64 (put_i64 (write_internal 10 buf) request_timestamp) accepted_timestamp

  unfoldable pub decode_connection_request_accepted : List ℕ → Result (SocketAddr × ℕ × ℕ)
  decode_connection_request_accepted bytes = do
    reject_if (ltb (length bytes) (1 + 7)) (invalid_packet "ConnectionRequestAccepted too short" [])
    (packet_id, buf) ← get_u8 bytes
    reject_if (not (packet_id == id_connection_request_accepted))
        (invalid_packet "Not a ConnectionRequestAccepted packet" [])
    (client_addr, buf) ← read_address lib buf
    reject_if (ltb (remaining buf) 2) (invalid_packet "ConnectionRequestAccepted truncated" [])
    (system_index, buf) ← get_u16 buf
    buf ← skip_addresses 10 buf
    reject_if (ltb (remaining buf) (8 + 8))
        (invalid_packet "ConnectionRequestAccepted timestamps truncated" [])
    (request_timestamp, buf) ← get_i64 buf
    (accepted_timestamp, buf) ← get_i64 buf
    ok (client_addr, request_timestamp, accepted_timestamp)

  pub encode_new_incoming_connection : SocketAddr → ℕ → ℕ → List ℕ
  encode_new_incoming_connection server_addr request_timestamp accepted_timestamp =
      let buf =
        write_internal 10 (write_address lib (put_u8 [] id_new_incoming_connection) server_addr) in
      put_i64 (put_i64 buf request_timestamp) accepted_timestamp

  unfoldable pub decode_new_incoming_connection : List ℕ → Result (SocketAddr × ℕ × ℕ)
  decode_new_incoming_connection bytes = do
    reject_if (ltb (length bytes) (1 + 7)) (invalid_packet "NewIncomingConnection too short" [])
    (packet_id, buf) ← get_u8 bytes
    reject_if (not (packet_id == id_new_incoming_connection))
        (invalid_packet "Not a NewIncomingConnection packet" [])
    (server_addr, buf) ← read_address lib buf
    buf ← skip_addresses 10 buf
    reject_if (ltb (remaining buf) (8 + 8))
        (invalid_packet "NewIncomingConnection timestamps truncated" [])
    (request_timestamp, buf) ← get_i64 buf
    (accepted_timestamp, buf) ← get_i64 buf
    ok (server_addr, request_timestamp, accepted_timestamp)

  pub encode_connected_ping : ℕ → List ℕ
  encode_connected_ping timestamp = put_i64 (put_u8 [] id_connected_ping) timestamp

  unfoldable pub decode_connected_ping : List ℕ → Result ℕ
  decode_connected_ping bytes = do
    reject_if (ltb (length bytes) (1 + 8)) (invalid_packet "ConnectedPing too short" [])
    (packet_id, buf) ← get_u8 bytes
    reject_if (not (packet_id == id_connected_ping))
        (invalid_packet "Not a ConnectedPing packet" [])
    (timestamp, buf) ← get_i64 buf
    ok timestamp

  pub encode_connected_pong : ℕ → ℕ → List ℕ
  encode_connected_pong ping_timestamp pong_timestamp =
      put_i64 (put_i64 (put_u8 [] id_connected_pong) ping_timestamp) pong_timestamp

  unfoldable pub decode_connected_pong : List ℕ → Result (ℕ × ℕ)
  decode_connected_pong bytes = do
    reject_if (ltb (length bytes) (1 + 8 + 8)) (invalid_packet "ConnectedPong too short" [])
    (packet_id, buf) ← get_u8 bytes
    reject_if (not (packet_id == id_connected_pong))
        (invalid_packet "Not a ConnectedPong packet" [])
    (ping_timestamp, buf) ← get_i64 buf
    (pong_timestamp, buf) ← get_i64 buf
    ok (ping_timestamp, pong_timestamp)
