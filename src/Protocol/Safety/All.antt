-- ===== src/Protocol/Safety/All.antt =====
-- protocol/codec.rs, protocol/frame.rs: what bytes from the network may do to the decoders.
use raknet.Base.{
  ℕ, ◌+◌, ◌*◌, ◌/◌, ◌^◌, ◌<◌, ◌≡◌, ◌↔◌, bit_and, is_some, true, Option-cases, inl, inr, dec_lt,
  arith, Result, ok, err, List, ◌∷◌, panic,
}
use raknet.Protocol.Buffer.{Buffer}
use raknet.Protocol.Codec.{decode_unconnected_ping, decode_unconnected_pong}
use raknet.Protocol.Datagram.{decode_datagram}
use raknet.Protocol.Frame
use raknet.Protocol.Login.{
  decode_disconnect_notification, decode_connection_request, decode_connection_request_accepted,
  decode_new_incoming_connection, decode_connected_ping, decode_connected_pong,
}
use raknet.Protocol.Opening.{
  decode_open_connection_request_1, decode_open_connection_reply_1,
  decode_open_connection_request_2, decode_open_connection_reply_2,
}
use raknet.Protocol.Safety.{Total}
use raknet.Protocol.Safety.Frames.{frame-Survives, frame_overflows, frame_refused}
use raknet.Protocol.Safety.Acks.{ack_nack-Survives, datagram-Survives, disconnect-Survives}
use raknet.Protocol.Safety.Login.{
  connection_request-Survives, accepted-Survives, new_incoming-Survives, connected_ping-Survives,
  connected_pong-Survives,
}
use raknet.Protocol.Safety.Messages.{
  Survives, request_1-Survives, reply_1-Survives, request_2-Survives, reply_2-Survives,
  ping-Survives, pong-Survives,
}
use raknet.Reliability.Levels.{from_u8}
use raknet.Reliability.Ack.Codec.{decode_ack_nack}

-- Whatever bytes come from the network, none of the decoders of packets reads past their end or panics otherwise: each
-- returns a value or an error.
pub decoders_survive :
    (lib : Buffer) (bytes : List ℕ)
    → Survives (decode_unconnected_ping lib bytes)
      × Survives (decode_unconnected_pong lib bytes)
      × Survives (decode_open_connection_request_1 lib bytes)
      × Survives (decode_open_connection_reply_1 lib bytes)
      × Survives (decode_open_connection_request_2 lib bytes)
      × Survives (decode_open_connection_reply_2 lib bytes)
      × Survives (decode_connection_request lib bytes)
      × Survives (decode_connection_request_accepted lib bytes)
      × Survives (decode_new_incoming_connection lib bytes)
      × Survives (decode_connected_ping lib bytes)
      × Survives (decode_connected_pong lib bytes)
      × Survives (decode_disconnect_notification bytes)
      × Survives (decode_datagram bytes)
      × Survives (decode_ack_nack lib bytes)
decoders_survive lib bytes = (
  ping-Survives lib bytes,
  pong-Survives lib bytes,
  request_1-Survives lib bytes,
  reply_1-Survives lib bytes,
  request_2-Survives lib bytes,
  reply_2-Survives lib bytes,
  connection_request-Survives lib bytes,
  accepted-Survives lib bytes,
  new_incoming-Survives lib bytes,
  connected_ping-Survives lib bytes,
  connected_pong-Survives lib bytes,
  disconnect-Survives bytes,
  datagram-Survives bytes,
  ack_nack-Survives lib bytes,
)

no_panic : {A : Type 0} (r : Result A) → Survives r → r ≡ panic → ⊥
unfolding Total
no_panic (ok a) h e = absurd cc
no_panic (err x) h e = absurd cc
no_panic panic h e = h

-- In a build with overflow checks, the decoder of a frame panics on three bytes or more exactly when the level in the
-- first is valid and the length in the next two is above 65528.
pub frame_panics_exactly :
    (lib : Buffer) (flags hi lo : ℕ) (rest : List ℕ)
    → (Frame.decode lib (flags ∷ hi ∷ lo ∷ rest) ≡ panic)
      ↔ ((is_some (from_u8 (bit_and (flags / 2 ^ 5) 0b111)) ≡ true) × (65528 < hi * 256 + lo))
frame_panics_exactly lib flags hi lo rest =
    elim (Option-cases (from_u8 (bit_and (flags / 2 ^ 5) 0b111))) [
      | inl invalid ↦ (
        λ panics. absurd (
            no_panic (Frame.decode lib (flags ∷ hi ∷ lo ∷ rest))
              (frame_refused lib flags hi lo rest invalid) panics),
        λ (valid, large). absurd (ground (arith, invalid, valid)),
      )
      | inr (level, valid) ↦ (
        λ panics. (
          ground (arith, valid),
          elim (dec_lt 65528 (hi * 256 + lo)) [
            | yes large ↦ large
            | no small ↦ absurd (
                no_panic (Frame.decode lib (flags ∷ hi ∷ lo ∷ rest))
                  (frame-Survives lib flags hi lo rest (omega arith)) panics)
          ],
        ),
        λ (known, large). frame_overflows lib flags hi lo rest level valid large,
      )
    ]
