-- ===== src/Client.antt =====
-- client.rs: the handshake of the client. The socket and the server behind it are a parameter, which says what the
-- socket takes and what comes back in time.
pub mod Discovery
pub mod Agreement
mod Examples
use raknet.Base.{
  ℕ, ◌/◌, ◌%◌, ◌^◌, Bool, true, false, not, Option, none, some, List, [], ◌∷◌, ◌++◌, ◌==◌,
  if◌then◌else◌, Result, ok, err, panic, ◌>>=◌, ◌>>◌, reject_if, invalid_packet, timeout, io,
  connection_closed, Error,
}
use raknet.Protocol.Address.{SocketAddr}
use raknet.Protocol.Buffer.{Buffer}
use raknet.Protocol.Codec.{encode_unconnected_ping, decode_unconnected_pong}
use raknet.Protocol.Login.{encode_connection_request, encode_new_incoming_connection}
use raknet.Protocol.Opening.{
  encode_open_connection_request_1, decode_open_connection_reply_1,
  encode_open_connection_request_2, decode_open_connection_reply_2,
}
use raknet.Protocol.Packet.{
  protocol_version, id_unconnected_pong, id_open_connection_reply_1, id_open_connection_reply_2,
}
use raknet.Connection.Stream.{stream_send}
use raknet.Reliability.BitVec.{BitVec}
use raknet.State.Shared
use raknet.State.Shared.{SharedState}

-- `RakNetClient` is its id. `sends` says whether the socket takes a packet, `receives` what arrives after it was
-- sent: `none` when the time runs out, an error when the socket fails. `connects` is the answer of
-- `socket.connect` and of the socket that is bound in its place, `channel_open` that of the stream's channel. The last
-- two are what the tasks of the new stream do to its state and to its channel before the first payload and before the
-- second one.
pub record Network : Type 0 where
  pub client_guid : ℕ
  pub system_time : ℕ
  pub sends : List ℕ → Bool
  pub receives : List ℕ → Option (Result (List ℕ))
  pub connects : Bool
  pub channel_open : Bool
  pub before_request : SharedState × List (List ℕ) → SharedState × List (List ℕ)
  pub before_incoming : SharedState × List (List ℕ) → SharedState × List (List ℕ)

-- `RakNetClient::new`: whether the socket is bound, and the nanoseconds since the epoch, which are the id as an `i64`.
pub new : Bool → ℕ → Result ℕ
new bound nanos = do reject_if (not bound) io; ok (nanos % 2 ^ 64)

-- `timeout(..).await.map_err(|_| Error::Timeout)??`
pub in_time : Option (Result (List ℕ)) → Result (List ℕ)
in_time none = err timeout
in_time (some r) = r

-- `packet.is_empty() || packet[0] != id`
pub expect_id : ℕ → Error → List ℕ → Result (Unit {0})
expect_id id e [] = err e
expect_id id e (packet_id ∷ bytes) = reject_if (not (packet_id == id)) e

module _ (lib : Buffer) (net : Network) where
  pub send_to : List ℕ → Result (Unit {0})
  send_to packet = reject_if (not (net.sends packet)) io

  -- The milliseconds since the epoch as an `i64`, from a clock in microseconds that is read once.
  pub timestamp : ℕ
  timestamp = net.system_time / 1000 % 2 ^ 64

  -- The packet of `send_unconnected_ping`.
  pub ping : List ℕ
  unfolding timestamp
  ping = encode_unconnected_ping lib timestamp net.client_guid

  pub receive_unconnected_pong : Option (Result (List ℕ)) → Result (ℕ × List ℕ)
  unfolding in_time expect_id
  receive_unconnected_pong arrival = do
    packet ← in_time arrival
    expect_id id_unconnected_pong (invalid_packet "Expected UnconnectedPong" []) packet
    (_, server_guid, pong_data) ← decode_unconnected_pong lib packet
    ok (server_guid, pong_data)

  pub receive_open_connection_reply_1 : Result (List ℕ) → Result (ℕ × ℕ)
  unfolding expect_id
  receive_open_connection_reply_1 arrival = do
    packet ← arrival
    expect_id id_open_connection_reply_1 (invalid_packet "Expected OpenConnectionReply1" []) packet
    decode_open_connection_reply_1 lib packet

  -- The `match` of `discover_mtu`; `later` is what the next sizes give.
  pub offered : Result ℕ → Result (ℕ × ℕ) → Result ℕ
  offered later (ok (_, reply_mtu)) = ok reply_mtu
  offered later (err e) = later
  offered later panic = panic

  pub reply_or : Result ℕ → Option (Result (List ℕ)) → Result ℕ
  unfolding receive_open_connection_reply_1 offered
  reply_or later none = later
  reply_or later (some arrival) = offered later (receive_open_connection_reply_1 arrival)

  -- The loop of `discover_mtu` over the sizes that are left.
  pub discover_among : List ℕ → Result ℕ
  unfolding send_to reply_or
  discover_among [] = err timeout
  discover_among (mtu ∷ sizes) =
      let request = encode_open_connection_request_1 lib protocol_version mtu in
      let later = discover_among sizes in send_to request >> reply_or later (net.receives request)

  pub discover_mtu : Result ℕ
  unfolding discover_among
  discover_mtu = discover_among (1492 ∷ 1200 ∷ 576 ∷ [])

  pub send_open_connection_request_2 : SocketAddr → ℕ → Result (Unit {0})
  unfolding send_to
  send_open_connection_request_2 server_addr mtu =
      send_to (encode_open_connection_request_2 lib server_addr mtu net.client_guid)

  pub receive_open_connection_reply_2 : Option (Result (List ℕ)) → Result (ℕ × SocketAddr × ℕ)
  unfolding in_time expect_id
  receive_open_connection_reply_2 arrival = do
    packet ← in_time arrival
    expect_id id_open_connection_reply_2 (invalid_packet "Expected OpenConnectionReply2" []) packet
    decode_open_connection_reply_2 lib packet

  -- The tasks of the stream run from its creation on.
  pub complete_connection_handshake :
      SharedState → SocketAddr → Result (SharedState × List (List ℕ))
  unfolding stream_send timestamp
  complete_connection_handshake stream server_addr = do
    let (stream, queued) = net.before_request (stream, [])
    queued ←
        stream_send net.channel_open stream queued
          (encode_connection_request lib net.client_guid timestamp)
    let (stream, queued) = net.before_incoming (stream, queued)
    queued ←
        stream_send net.channel_open stream queued
          (encode_new_incoming_connection lib server_addr timestamp timestamp)
    ok (stream, queued)

  -- The answer is the state of the new stream at the last payload, and what waits in its channel.
  pub connect : BitVec → SocketAddr → Result (SharedState × List (List ℕ))
  unfolding ping send_to receive_unconnected_pong discover_mtu send_open_connection_request_2
      receive_open_connection_reply_2 complete_connection_handshake
  connect bits server_addr = do
    send_to ping
    _ ← receive_unconnected_pong (net.receives ping)
    mtu ← discover_mtu
    send_open_connection_request_2 server_addr mtu
    let request = encode_open_connection_request_2 lib server_addr mtu net.client_guid
    (server_guid, _, mtu) ← receive_open_connection_reply_2 (net.receives request)
    reject_if (not net.connects) io
    let stream = Shared.new bits (net.system_time % 2 ^ 64) mtu
    complete_connection_handshake stream server_addr
