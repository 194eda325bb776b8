-- ===== src/Connection/Ticking/Flush.antt =====
-- connection.rs: the ACKs that a tick sends, and what the peer makes of them.
use raknet.Base.{ℕ, ◌%◌, ◌^◌, ◌<◌, ◌≡◌, true, not, ◌&&◌, List, [], ◌∷◌, ◌++◌, length, ok, refl}
use raknet.Base.Map
use raknet.Protocol.Buffer.{Buffer, be_bytes}
use raknet.Protocol.Packet.{id_ack}
use raknet.Reliability.Ack.{AckRange, AckRangeList}
use raknet.Reliability.Ack.Codec.Encode.{encode_ack-wire, wire_ranges}
use raknet.Reliability.Ack.Spaced.{IsCompressed, holds}
use raknet.Reliability.BitVec.{BitVec}
use raknet.Reliability.SendQueue.{contains}
use raknet.Connection.Receive.{handle_packet}
use raknet.Connection.Receive.Acks.{handle_packet-acknowledges}
use raknet.Connection.Ticking.{flush_acks, is_empty}
use raknet.Connection.World.{Env, World, send_recorded}

abbrev ack_packet : AckRangeList → List ℕ
ack_packet l = id_ack ∷ (be_bytes 2 (length l % 2 ^ 16) ++ wire_ranges l)

flush_acks-sent :
    (lib : Buffer) (env : Env) (r : AckRange) (ranges : AckRangeList) (w : World)
    → w.shared.pending_acks ≡ r ∷ ranges
    → env.accepts w.sent (ack_packet (r ∷ ranges)) ≡ true
    → ((flush_acks lib env w).1.sent ≡ w.sent ++ (ack_packet (r ∷ ranges) ∷ []))
      × ((flush_acks lib env w).1.shared.pending_acks ≡ [])
unfolding flush_acks send_recorded is_empty
flush_acks-sent lib env r ranges w pending accepted =
    rw pending (rw (encode_ack-wire lib (r ∷ ranges)) (rw accepted (refl, refl)))

-- The numbers that one side noted reach the other: `flush_acks` sends one packet and clears the list, and the peer
-- that gets this packet takes exactly the datagrams with these numbers out of its send queue. The conditions: the
-- list is well formed, not empty and of fewer than 2 ^ 16 ranges, the socket takes the packet, and the queue's map
-- is in the order of its keys.
pub flush_acks-acknowledges :
    (lib : Buffer) (bits : BitVec) (here there : Env) (r : AckRange) (ranges : AckRangeList)
    (b a : World) (k : ℕ)
    → b.shared.pending_acks ≡ r ∷ ranges
    → IsCompressed (r ∷ ranges)
    → length (r ∷ ranges) < 2 ^ 16
    → ((sent : List (List ℕ)) (packet : List ℕ) → here.accepts sent packet ≡ true)
    → Map.IsSorted 0 a.shared.send_queue.packets
    → (packet : List ℕ) × ((flush_acks lib here b).1.sent ≡ b.sent ++ (packet ∷ []))
      × ((flush_acks lib here b).1.shared.pending_acks ≡ [])
      × ((handle_packet lib bits there packet a).0 ≡ ok tt)
      × (contains (handle_packet lib bits there packet a).1.shared.send_queue k
          ≡ (contains a.shared.send_queue k && not (holds (r ∷ ranges) k)))
flush_acks-acknowledges lib bits here there r ranges b a k pending compressed few accepts sorted =
    let l = r ∷ ranges in
    let (sent, cleared) =
      flush_acks-sent lib here r ranges b pending (accepts b.sent (ack_packet l)) in
    let (fine, left) =
      handle_packet-acknowledges lib bits there l (ack_packet l) a k compressed few
        (encode_ack-wire lib l) sorted in
    (ack_packet l, sent, cleared, fine, left)
