-- ===== src/Protocol/Safety/Examples.antt =====
-- The decoders on concrete bytes.
use raknet.Base.{ℕ, ◌+◌, ◌*◌, ◌/◌, ◌^◌, ◌<◌, ◌≡◌, ◌↔◌, bit_and, true, is_some, List, [], ◌∷◌, panic}
use raknet.Protocol.Buffer.{reference}
use raknet.Protocol.Codec.{decode_unconnected_ping, decode_unconnected_pong}
use raknet.Protocol.Datagram.{decode_datagram}
use raknet.Protocol.Frame
use raknet.Protocol.Login.{
  decode_disconnect_notification, decode_connection_request, decode_connection_request_accepted,
  decode_new_incoming_connection, decode_connected_ping, decode_connected_pong,
}
use raknet.Protocol.Opening.{
  decode_open_connection_request_1, decode_open_connection_reply_1,
  decode_open_connection_request_2, decode_open_connection_reply_2,
}
use raknet.Protocol.Safety.All.{decoders_survive, frame_panics_exactly}
use raknet.Protocol.Safety.Messages.{Survives}
use raknet.Reliability.Ack.Codec.{decode_ack_nack}
use raknet.Reliability.Levels.{from_u8}

-- An ACK that promises two records and ends in the first.
abbrev cut_short : List ℕ
cut_short = 192 ∷ 0 ∷ 2 ∷ 1 ∷ 5 ∷ []

decoders_survive_example :
    Survives (decode_unconnected_ping reference cut_short)
    × Survives (decode_unconnected_pong reference cut_short)
    × Survives (decode_open_connection_request_1 reference cut_short)
    × Survives (decode_open_connection_reply_1 reference cut_short)
    × Survives (decode_open_connection_request_2 reference cut_short)
    × Survives (decode_open_connection_reply_2 reference cut_short)
    × Survives (decode_connection_request reference cut_short)
    × Survives (decode_connection_request_accepted reference cut_short)
    × Survives (decode_new_incoming_connection reference cut_short)
    × Survives (decode_connected_ping reference cut_short)
    × Survives (decode_connected_pong reference cut_short)
    × Survives (decode_disconnect_notification cut_short)
    × Survives (decode_datagram cut_short)
    × Survives (decode_ack_nack reference cut_short)
decoders_survive_example = decoders_survive reference cut_short

frame_panics_exactly_example :
    (Frame.decode reference (0 ∷ 255 ∷ 250 ∷ []) ≡ panic)
    ↔ ((is_some (from_u8 (bit_and (0 / 2 ^ 5) 0b111)) ≡ true) × (65528 < 255 * 256 + 250))
frame_panics_exactly_example = frame_panics_exactly reference 0 255 250 []
