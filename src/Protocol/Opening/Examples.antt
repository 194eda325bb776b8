-- ===== src/Protocol/Opening/Examples.antt =====
-- The round trip of the second request at a concrete message.
use raknet.Base.{◌≡◌, ok, arith}
use raknet.Protocol.Address.{v4}
use raknet.Protocol.Address.RoundTrip.{carried_address}
use raknet.Protocol.Buffer.{reference}
use raknet.Protocol.Opening.{encode_open_connection_request_2, decode_open_connection_request_2}
use raknet.Protocol.Opening.RoundTrip.{decode_open_connection_request_2-encode}

decode_open_connection_request_2-encode_example :
    decode_open_connection_request_2 reference
      (encode_open_connection_request_2 reference (v4 10 0 0 1 19132) 1400 99)
    ≡ ok (carried_address (v4 10 0 0 1 19132), 1400, 99)
decode_open_connection_request_2-encode_example =
    decode_open_connection_request_2-encode reference (v4 10 0 0 1 19132) 1400 99
      (omega arith, omega arith, omega arith, omega arith, omega arith) (omega arith) (omega arith)
