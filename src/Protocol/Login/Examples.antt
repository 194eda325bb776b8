-- ===== src/Protocol/Login/Examples.antt =====
-- The round trips of the messages with an address, at concrete messages.
use raknet.Base.{◌≡◌, ok, arith}
use raknet.Protocol.Address.{v4}
use raknet.Protocol.Address.RoundTrip.{carried_address}
use raknet.Protocol.Buffer.{reference}
use raknet.Protocol.Login.{encode_connection_request_accepted, decode_connection_request_accepted}
use raknet.Protocol.Login.RoundTrip.{decode_connection_request_accepted-encode}

accepted_read_back :
    decode_connection_request_accepted reference
      (encode_connection_request_accepted reference (v4 192 168 0 7 50_000) 1000 2000)
    ≡ ok (carried_address (v4 192 168 0 7 50_000), 1000, 2000)
accepted_read_back =
    decode_connection_request_accepted-encode reference (v4 192 168 0 7 50_000) 1000 2000
      (omega arith, omega arith, omega arith, omega arith, omega arith) (omega arith) (omega arith)
