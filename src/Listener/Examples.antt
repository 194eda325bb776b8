-- ===== src/Listener/Examples.antt =====
-- The theorems of the listener at a concrete handshake.
use raknet.Base.{ℕ, ◌+◌, ◌%◌, ◌^◌, ◌≡◌, ◌≢◌, max, true, List, [], ◌∷◌, ok, refl, arith}
use raknet.Protocol.Address.{SocketAddr, v4}
use raknet.Protocol.Buffer.{reference}
use raknet.Protocol.Opening.{
  encode_open_connection_request_1, decode_open_connection_reply_1,
  encode_open_connection_request_2,
}
use raknet.Protocol.Packet.{protocol_version, id_already_connected}
use raknet.Listener.{
  Sockets, RakNetListener, clamp_mtu, incompatible, contains_key, handle_open_connection_request_1,
  handle_open_connection_request_2,
}
use raknet.Listener.Handshake.{first_request, second_request, sent_to, opened}

abbrev net : Sockets
net = record {
  sends = λ addr packet. true;
  opens = λ addr. true;
  session_sends = λ addr packet. true;
}

abbrev listener : RakNetListener
listener = record {
  local_addr = v4 0 0 0 0 19132;
  server_guid = 77;
  pong_data = [];
  connections = [];
  sent = [];
  streams = [];
  accepted = [];
}

abbrev peer : SocketAddr
peer = v4 192 168 0 7 50_000

first_request_example :
    (11 ≡ protocol_version
      → (reply : List ℕ) × (handle_open_connection_request_1 reference net listener
            (encode_open_connection_request_1 reference 11 1464)
            peer
          ≡ (ok tt, sent_to listener peer reply))
        × (decode_open_connection_reply_1 reference reply
            ≡ ok (77, clamp_mtu ((max 1464 18 + 28) % 2 ^ 16))))
    × (11 ≢ protocol_version
        → handle_open_connection_request_1 reference net listener
            (encode_open_connection_request_1 reference 11 1464)
            peer
          ≡ (ok tt, sent_to listener peer (incompatible 77)))
first_request_example =
    first_request reference net listener 11 1464 peer (omega arith) (omega arith) (λ packet. refl)

second_request_example :
    (handle_open_connection_request_2 reference net listener
        (encode_open_connection_request_2 reference peer 1400 5)
        peer
      ≡ (ok tt, opened reference net listener peer 1400))
    × (handle_open_connection_request_2 reference net
          (opened reference net listener peer 1400)
          (7 ∷ [])
          peer
        ≡ (
          ok tt,
          sent_to (opened reference net listener peer 1400) peer (id_already_connected ∷ []),
        ))
unfolding contains_key
second_request_example =
    second_request reference net listener peer peer 1400 5 (7 ∷ [])
      (omega arith, omega arith, omega arith, omega arith, omega arith) (omega arith) (omega arith)
      refl refl (λ packet. refl) (λ packet. refl)
