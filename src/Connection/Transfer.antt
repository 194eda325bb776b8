-- ===== src/Connection/Transfer.antt =====
-- connection.rs: from the sending side of one connection to the receiving side of the other.
use raknet.Base.{
  ℕ, ◌%◌, ◌<◌, ◌≡◌, true, some, List, [], ◌∷◌, ◌++◌, length, get_or, ok, arith, refl, ap, ◌∙◌, sym,
}
use raknet.Protocol.Buffer.{Buffer}
use raknet.Protocol.Datagram.{encode_datagram}
use raknet.Protocol.Frame.Decode.{Fits, IsExact, carried_frame_exact}
use raknet.Protocol.Frame.Encode.{wire, encode-wire}
use raknet.Protocol.Uint24.Laws.{u24_mod}
use raknet.Reliability.BitVec.{BitVec}
use raknet.Reliability.Levels.{is_reliable, is_sequenced, is_ordered}
use raknet.Reliability.Ordered
use raknet.Reliability.Ordered.Delivery.{insert_expected}
use raknet.Reliability.RecvWindow.{RecvWindow, mark_received}
use raknet.State.Shared.{SharedState, is_connected}
use raknet.Connection.Frames.{handle_frame}
use raknet.Connection.Frames.Channels.{IsGamePacket, ordered_world, handle_frame_ordered}
use raknet.Connection.Receive.{handle_packet}
use raknet.Connection.Receive.Arrival.{noted}
use raknet.Connection.Receive.Delivery.{handle_packet-encode}
use raknet.Connection.Sending.{send_reliable_frame}
use raknet.Connection.Sending.Sent.{next_frame, send_reliable_frame-sent}
use raknet.Connection.World.{Env, World}

next_frame-Fits :
    (s : SharedState) (payload : List ℕ) → length payload < 8192 → Fits (next_frame s payload)
next_frame-Fits s payload short = record {
  message = omega arith;
  sequence = omega arith;
  order = omega arith;
  channel = omega arith;
  fragment = tt;
  short = short;
}

next_frame-IsExact : (s : SharedState) (payload : List ℕ) → IsExact (next_frame s payload)
unfolding is_reliable is_sequenced is_ordered
next_frame-IsExact s payload = record {
  message_present = refl;
  sequence_present = refl;
  order_present = refl;
  channel_zero = refl;
}

module _ (lib : Buffer) (bits : BitVec) where
  -- What a peer makes of the datagram of a frame with the next numbers of a state.
  arrives_whole :
      (env : Env) (s : SharedState) (payload : List ℕ) (b : World) (window : RecvWindow)
      → IsGamePacket payload
      → length payload < 8192
      → s.send_seq % u24_mod < 16
      → is_connected b.shared ≡ ok true
      → 0 < length b.shared.ordered_channels
      → mark_received bits b.shared.recv_window (s.send_seq % u24_mod) ≡ ok (some true, window)
      → handle_packet lib bits env
          (encode_datagram lib (s.send_seq % u24_mod) (wire (next_frame s payload) ∷ []))
          b
        ≡ (
          ok tt,
          ordered_world
              (next_frame s payload)
              (get_or s.order_indices 0 0 % u24_mod)
              (noted b window (s.send_seq % u24_mod)),
        )
  unfolding is_connected
  arrives_whole env s payload b window game short low connected channels new =
      let f = next_frame s payload in
      let seq = s.send_seq % u24_mod in
      handle_packet-encode lib bits env seq f (wire f) b window low
        (next_frame-Fits s payload short) (encode-wire lib f []) new
      ∙ ap (λ g. handle_frame lib env g (noted b window seq))
          (carried_frame_exact f (next_frame-IsExact s payload))
      ∙ (handle_frame_ordered lib env f (noted b window seq) (get_or s.order_indices 0 0 % u24_mod)
            game connected refl refl refl).0
          channels

  -- A payload that `send_reliable_frame` sends on one side is delivered on the other, in the datagram that the
  -- socket took, ahead of the packets that waited for it. The conditions: the payload starts with an identifier of
  -- the application and is below 8192 bytes, the datagram's number is below 16, the receiver is connected and has a
  -- channel 0 that expects the sender's next order index, and the number is new to the receiver's window.
  pub send_reliable_frame-delivered :
      (here there : Env) (payload : List ℕ) (a b : World) (window : RecvWindow)
      → IsGamePacket payload
      → length payload < 8192
      → 0 < length a.shared.order_indices
      → ((sent : List (List ℕ)) (packet : List ℕ) → here.accepts sent packet ≡ true)
      → a.shared.send_seq % u24_mod < 16
      → is_connected b.shared ≡ ok true
      → 0 < length b.shared.ordered_channels
      → (get_or b.shared.ordered_channels 0 Ordered.new).next_index
        ≡ get_or a.shared.order_indices 0 0 % u24_mod
      → mark_received bits b.shared.recv_window (a.shared.send_seq % u24_mod)
        ≡ ok (some true, window)
      → (datagram : List ℕ) × (waiting : List (List ℕ)) × ((send_reliable_frame lib here payload
            a).1.sent
          ≡ a.sent ++ (datagram ∷ []))
        × ((handle_packet lib bits there datagram b).0 ≡ ok tt)
        × ((handle_packet lib bits there datagram b).1.delivered
            ≡ b.delivered ++ (payload ∷ waiting))
  send_reliable_frame-delivered here there payload a b window game short indices accepts low
        connected channels expected new =
      let datagram =
        encode_datagram lib (a.shared.send_seq % u24_mod)
          (wire (next_frame a.shared payload) ∷ []) in
      let arrival =
        arrives_whole there a.shared payload b window game short low connected channels new in
      let (waiting, first) =
        insert_expected (get_or b.shared.ordered_channels 0 Ordered.new)
          (get_or a.shared.order_indices 0 0 % u24_mod) payload (sym expected) in
      (
        datagram,
        waiting,
        (send_reliable_frame-sent lib here payload a indices (accepts a.sent datagram)).1,
        ap (λ r. r.0) arrival,
        ap (λ r. r.1.delivered) arrival ∙ ap (◌++◌ b.delivered) first,
      )
