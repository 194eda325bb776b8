-- ===== src/Client/Examples.antt =====
-- The theorems of the client with a concrete server.
use raknet.Base.{
  ℕ, List, ◌==◌, ◌≡◌, true, none, some, [], ◌∷◌, length, leb, if◌then◌else◌, ok, refl, arith,
}
use raknet.Protocol.Address.{SocketAddr, v4, write_address}
use raknet.Protocol.Address.RoundTrip.{carried_address}
use raknet.Listener.{Sockets, RakNetListener, contains_key}
use raknet.Client.Agreement.{answer, asked, joined, ends_agree}
use raknet.Protocol.Buffer.{reference}
use raknet.Protocol.Opening.{
  encode_open_connection_request_2, encode_open_connection_reply_2,
  encode_open_connection_request_1, encode_open_connection_reply_1,
}
use raknet.Reliability.BitVec.{reference_bits}
use raknet.State.Shared
use raknet.State.Shared.{SharedState, is_connected}
use raknet.State.Connection.{connected, load, from_u8, to_u8}
use raknet.Connection.Stream.{stream_send}
use raknet.Protocol.Codec.{encode_unconnected_pong}
use raknet.Client.{
  complete_connection_handshake, Network, discover_among, receive_open_connection_reply_2,
}

-- A server that only gets packets of 30 bytes or fewer, and offers an MTU of 576.
abbrev net : Network
net = record {
  client_guid = 5;
  system_time = 1_700_000_000_000_000;
  sends = λ packet. true;
  receives = λ packet.
      if leb (length packet) 30
      then some (ok (encode_open_connection_reply_1 reference 77 576))
      else none;
  connects = true;
  channel_open = true;
  before_request = λ stream. stream;
  before_incoming = λ stream. stream;
}

-- A server that answers every packet in time, but sends nothing to the stream before the first payload.
abbrev willing : Network
willing = record net {
  receives = λ packet.
      if length packet == 33
      then some (ok (encode_unconnected_pong reference 0 77 []))
      else if length packet == 34
      then some (ok (encode_open_connection_reply_2 reference 77 (v4 10 0 0 2 50_000) 1400))
      else some (ok (encode_open_connection_reply_1 reference 77 1400));
}

abbrev connected_stream : SharedState
connected_stream = record (Shared.new reference_bits 0 1400) { state = to_u8 connected }

-- A stream that was connected in time takes both payloads.
connected_in_time_test :
    (queued : List (List ℕ)) × (complete_connection_handshake reference
        (record net { before_request = λ stream. (connected_stream, stream.1) })
        (Shared.new reference_bits 0 1400)
        (v4 127 0 0 1 19132)
      ≡ ok (connected_stream, queued))
unfolding complete_connection_handshake stream_send is_connected load from_u8 to_u8
connected_in_time_test = (_, refl)

abbrev host : SocketAddr
host = v4 10 0 0 1 19132

abbrev peer : SocketAddr
peer = v4 192 168 0 7 50_000

abbrev sockets : Sockets
sockets = record {
  sends = λ addr packet. true;
  opens = λ addr. true;
  session_sends = λ addr packet. true;
}

abbrev listener : RakNetListener
listener = record {
  local_addr = host;
  server_guid = 77;
  pong_data = [];
  connections = [];
  sent = [];
  streams = [];
  accepted = [];
}

-- A client that reaches the listener with packets of 40 bytes or fewer.
abbrev near : Network
near = record net {
  receives = λ packet.
      if length packet == 40
      then answer listener (asked reference net sockets listener peer 40)
      else if length packet == 34
      then answer (asked reference net sockets listener peer 40)
          (joined reference net sockets listener peer host 40)
      else none;
}

ends_agree_example :
    (discover_among reference near (50 ∷ 40 ∷ 20 ∷ []) ≡ ok 576)
    × (receive_open_connection_reply_2 reference near
          (near.receives (encode_open_connection_request_2 reference host 576 5))
        ≡ ok (77, peer, 576))
    × ((joined reference near sockets listener peer host 40).streams ≡ (peer, 576) ∷ [])
unfolding encode_open_connection_request_1 encode_open_connection_request_2 write_address
    contains_key carried_address
ends_agree_example =
    ends_agree reference near sockets (50 ∷ []) (20 ∷ []) 40 listener host peer (λ packet. refl)
      (refl, tt) refl refl (λ packet. refl) refl (λ packet. refl) refl (omega arith) (omega arith)
      (omega arith, omega arith, omega arith, omega arith, omega arith)
      (omega arith, omega arith, omega arith, omega arith, omega arith)
