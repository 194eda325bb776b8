-- ===== src/Connection/Examples.antt =====
-- The theorems of a connection at concrete states and packets.
pub mod States
use raknet.Base.{
  true, some, ℕ, ◌+◌, ◌-◌, ◌/◌, ◌<◌, ◌≤◌, ◌≡◌, arrives, true, false, none, some, List, [], ◌∷◌,
  ◌&&◌, not, length, replicate, get_or, ok, err, panic, invalid_packet, refl, arith,
}
use raknet.Base.Map
use raknet.Protocol.Address.{v4}
use raknet.Protocol.Buffer.{reference}
use raknet.Protocol.Datagram.{encode_datagram}
use raknet.Protocol.Frame.{Frame}
use raknet.Protocol.Frame.Decode.{Fits, carried_frame}
use raknet.Protocol.Frame.Encode.{wire, encode-wire}
use raknet.Reliability.Ack.{AckRangeList, single, range, range_start, range_end}
use raknet.Reliability.Ack.Spaced.{holds}
use raknet.Reliability.BitVec.{reference_bits}
use raknet.Reliability.Fragment
use raknet.Reliability.Fragment.Reassembly.{delivered}
use raknet.Reliability.Levels.{reliable_ordered, is_reliable, is_sequenced, is_ordered}
use raknet.Reliability.Ordered
use raknet.Reliability.RecvWindow.{RecvWindow}
use raknet.Reliability.RecvWindow.Marks.{IsWindow, marked_window, accepts_within}
use raknet.Reliability.SendQueue.{contains, QueueEntry}
use raknet.State.Connection.{load, from_u8, to_u8}
use raknet.State.Metrics
use raknet.State.Shared.{is_connected}
use raknet.Connection.Frames.{handle_frame}
use raknet.Connection.Frames.Channels.{
  handle_frame_ordered, handle_frame_split, ordered_world, IsGamePacket,
}
use raknet.Connection.Receive.{handle_packet, handle_frames}
use raknet.Reliability.RecvWindow.{has_received, mark_received}
use raknet.Reliability.RecvWindow.Verdict.{accepted-has_received}
use raknet.Connection.Receive.Arrival.{handle_packet_again, handle_packet_loses, with_window, noted}
use raknet.Connection.Receive.Delivery.{handle_packet-encode}
use raknet.Connection.Receive.Fuel.{Loops, handle_frames-Loops}
use raknet.Connection.Sending.{chunks, send_reliable_frame}
use raknet.Connection.Ticking.{flush_acks}
use raknet.Connection.Ticking.Flush.{flush_acks-acknowledges}
use raknet.Connection.Transfer.{send_reliable_frame-delivered}
use raknet.Connection.Sending.Chunks.{chunks_reassemble}
use raknet.Connection.World.{Env, World}
use raknet.Connection.Examples.States.{
  env, window_from, world_from, window-IsWindow, high_window-IsWindow, frame_on, frame-Fits, game,
  connected,
}

abbrev acked : AckRangeList
acked = range 4 7 ∷ single 9 ∷ []

handle_packet-encode_example :
    handle_packet reference reference_bits env
      (encode_datagram reference 3 (wire (frame_on 0) ∷ []))
      (world_from 0)
    ≡ handle_frame reference env
        (carried_frame (frame_on 0))
        (noted (world_from 0) (marked_window (window_from 0) 3) 3)
handle_packet-encode_example =
    handle_packet-encode reference reference_bits env 3 (frame_on 0) (wire (frame_on 0))
      (world_from 0) (marked_window (window_from 0) 3) (omega arith) frame-Fits
      (encode-wire reference (frame_on 0) [])
      (accepts_within reference_bits (window_from 0) 3 window-IsWindow (omega arith) (omega arith)
        refl)

handle_packet_loses_example :
    handle_packet reference reference_bits env
      (encode_datagram reference 417 (wire (frame_on 0) ∷ []))
      (world_from 416)
    ≡ (
      err (invalid_packet "Invalid reliability: {}" (5 ∷ [])),
      noted (world_from 416) (marked_window (window_from 416) 417) 417,
    )
handle_packet_loses_example =
    handle_packet_loses reference reference_bits env 417 (wire (frame_on 0) ∷ []) (world_from 416)
      (marked_window (window_from 416) 417) (omega arith) (omega arith)
      (accepts_within reference_bits (window_from 416) 417 high_window-IsWindow (omega arith)
        (omega arith) refl)

handle_packet_again_example :
    (has_received reference_bits (marked_window (window_from 0) 3) 3 ≡ ok true)
    × (handle_packet reference reference_bits env
          (encode_datagram reference 3 (wire (frame_on 0) ∷ []))
          (with_window (world_from 0) (marked_window (window_from 0) 3))
        ≡ (
          ok tt,
          with_window
              (world_from 0)
              (record (marked_window (window_from 0) 3) { total_duplicates = 1 }),
        ))
handle_packet_again_example =
    handle_packet_again reference reference_bits env 3 (wire (frame_on 0) ∷ [])
      (with_window (world_from 0) (marked_window (window_from 0) 3)) (window_from 0)
      (marked_window (window_from 0) 3) (omega arith) window-IsWindow accepted_3
      (accepted-has_received reference_bits (window_from 0) (marked_window (window_from 0) 3) 3
        window-IsWindow (omega arith) accepted_3)
  where
    accepted_3 :
        mark_received reference_bits (window_from 0) 3
        ≡ ok (some true, marked_window (window_from 0) 3)
    accepted_3 =
        accepts_within reference_bits (window_from 0) 3 window-IsWindow (omega arith) (omega arith)
          refl

handle_frames-Loops_example :
    Loops reference env
      (wire (frame_on 0))
      (world_from 0)
      (handle_frames reference env 100 (wire (frame_on 0)) (world_from 0))
unfolding is_reliable is_sequenced is_ordered
handle_frames-Loops_example =
    handle_frames-Loops reference env 100 (wire (frame_on 0)) (world_from 0) (omega arith)

-- Channel 16 does not exist.
handle_frame_ordered_example :
    (16 < 16
      → handle_frame reference env (frame_on 16) (world_from 0)
        ≡ (ok tt, ordered_world (frame_on 16) 0 (world_from 0)))
    × (16 ≤ 16 → handle_frame reference env (frame_on 16) (world_from 0) ≡ (panic, world_from 0))
handle_frame_ordered_example =
    handle_frame_ordered reference env (frame_on 16) (world_from 0) 0 game (connected 0) refl refl
      refl

handle_frame_split_example :
    (handle_frame reference env
      (record (frame_on 0) { split = some (record { count = 2; id = 1; index = 0 }) })
      (world_from 0)).1.shared.ordered_channels
    ≡ (world_from 0).shared.ordered_channels
handle_frame_split_example =
    handle_frame_split reference env
      (record (frame_on 0) { split = some (record { count = 2; id = 1; index = 0 }) })
      (record { count = 2; id = 1; index = 0 }) (world_from 0) game (connected 0) refl

abbrev payload : List ℕ
payload = 254 ∷ 1 ∷ 2 ∷ 3 ∷ 4 ∷ 5 ∷ 6 ∷ []

pieces_arrive : (k : ℕ) → k < (7 + 3 - 1) / 3 → arrives k (2 ∷ 0 ∷ 2 ∷ 1 ∷ []) ≡ true
pieces_arrive k h = ground arith

chunks_reassemble_example :
    (rest : List (List ℕ)) × (delivered
        (λ i. get_or (chunks (length payload) 3 payload) i [])
        (Fragment.with_capacity 512)
        5
        ((length payload + 3 - 1) / 3)
        (2 ∷ 0 ∷ 2 ∷ 1 ∷ [])
      ≡ payload ∷ rest)
unfolding Fragment.with_capacity Map.lookup
chunks_reassemble_example =
    chunks_reassemble payload 3 5 (Fragment.with_capacity 512) (2 ∷ 0 ∷ 2 ∷ 1 ∷ []) (omega arith)
      (omega arith) refl (omega arith)
      (omega arith, (omega arith, (omega arith, (omega arith, tt)))) pieces_arrive

abbrev sender : World
sender = record (world_from 0) { shared = record (world_from 0).shared { send_seq = 3 } }

send_reliable_frame-delivered_example :
    (datagram : List ℕ) × (waiting : List (List ℕ)) × ((send_reliable_frame reference env
        (254 ∷ 1 ∷ 2 ∷ [])
        sender).1.sent
      ≡ datagram ∷ [])
    × ((handle_packet reference reference_bits env datagram (world_from 0)).0 ≡ ok tt)
    × ((handle_packet reference reference_bits env datagram (world_from 0)).1.delivered
        ≡ (254 ∷ 1 ∷ 2 ∷ []) ∷ waiting)
unfolding Ordered.new
send_reliable_frame-delivered_example =
    send_reliable_frame-delivered reference reference_bits env env (254 ∷ 1 ∷ 2 ∷ []) sender
      (world_from 0) (marked_window (window_from 0) 3) game (omega arith) (omega arith)
      (λ sent packet. refl) (omega arith) (connected 0) (omega arith) refl
      (accepts_within reference_bits (window_from 0) 3 window-IsWindow (omega arith) (omega arith)
        refl)

abbrev receiver : World
receiver = record (world_from 0) { shared = record (world_from 0).shared { pending_acks = acked } }

flush_acks-acknowledges_example :
    (packet : List ℕ) × ((flush_acks reference env receiver).1.sent ≡ packet ∷ [])
    × ((flush_acks reference env receiver).1.shared.pending_acks ≡ [])
    × ((handle_packet reference reference_bits env packet (world_from 0)).0 ≡ ok tt)
    × (contains
          (handle_packet reference reference_bits env packet (world_from 0)).1.shared.send_queue
          7
        ≡ (contains (world_from 0).shared.send_queue 7 && not (holds acked 7)))
unfolding range_start range_end
flush_acks-acknowledges_example =
    flush_acks-acknowledges reference reference_bits env env (range 4 7) (single 9 ∷ []) receiver
      (world_from 0) 7 refl
      (omega arith, (omega arith, omega arith), (omega arith, omega arith, tt)) (omega arith)
      (λ sent packet. refl) (omega arith, (omega arith, (omega arith, tt)))
