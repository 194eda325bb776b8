-- ===== src/Connection/Receive/Acks.antt =====
-- connection.rs: what an ACK packet does to the send queue.
use raknet.Base.{
  ℕ, ◌%◌, ◌^◌, ◌<◌, ◌≡◌, true, not, ◌&&◌, List, [], ◌∷◌, ◌++◌, length, ok, ◌>>=◌, arith, refl, ap,
  ◌∙◌, sym, subst,
}
use raknet.Base.Map
use raknet.Protocol.Buffer.{Buffer, be_bytes}
use raknet.Protocol.Packet.{id_ack, classes_ranges}
use raknet.Reliability.Ack
use raknet.Reliability.Ack.{AckRange, single, range, AckRangeList}
use raknet.Reliability.Ack.Spaced.{IsCompressed, holds}
use raknet.Reliability.Ack.Codec.{encode_ack, decode_ack_nack}
use raknet.Reliability.Ack.Codec.Encode.{encode_ack-wire, wire_ranges}
use raknet.Reliability.Ack.Codec.RoundTrip.{decode_ack_nack-encode}
use raknet.Reliability.BitVec.{BitVec}
use raknet.Reliability.SendQueue.{SendQueue, contains}
use raknet.Reliability.SendQueue.Ranges.{
  acknowledge_range_lem, outside-IsSorted, contains-acknowledge, contains-acknowledge_range,
}
use raknet.Connection.Receive.{
  acknowledge_one, acknowledge_all, handle_ack, handle_class, handle_packet,
}
use raknet.Connection.World.{Env, World}

-- One range takes exactly its numbers out of the queue.
acknowledge_one_lem :
    (q : SendQueue (List ℕ)) (r : AckRange) (k : ℕ)
    → Map.IsSorted 0 q.packets
    → (contains (acknowledge_one q r) k ≡ (contains q k && not (Ack.contains r k)))
      × Map.IsSorted 0 (acknowledge_one q r).packets
unfolding acknowledge_one
acknowledge_one_lem q (single seq) k s = unfold Ack.contains in contains-acknowledge q seq k s
acknowledge_one_lem q (range start end) k s = (
  (contains-acknowledge_range q start end k s).0,
  subst (λ r. Map.IsSorted 0 r.1.packets) (sym (acknowledge_range_lem q start end s))
      (outside-IsSorted (Ack.contains (range start end)) q.packets 0 s),
)

acknowledge_all_lem :
    (q : SendQueue (List ℕ)) (l : AckRangeList) (k : ℕ)
    → Map.IsSorted 0 q.packets
    → contains (acknowledge_all q l) k ≡ (contains q k && not (holds l k))
unfolding acknowledge_all holds
acknowledge_all_lem q [] k s = ground arith
acknowledge_all_lem q (r ∷ l) k s =
    let (one, sorted) = acknowledge_one_lem q r k s in
    acknowledge_all_lem (acknowledge_one q r) l k sorted ∙ rw one (ground arith)

module _ (lib : Buffer) (bits : BitVec) (env : Env) where
  handle_ack_packet :
      (rest : List ℕ) (l : AckRangeList) (w : World)
      → decode_ack_nack lib (id_ack ∷ rest) ≡ ok (true, l)
      → handle_packet lib bits env (id_ack ∷ rest) w ≡ handle_ack l w
  unfolding handle_packet handle_class
  handle_ack_packet rest l w decoded =
      let (not_datagram, acknowledges, _) = classes_ranges id_ack (omega arith) in
      rw (not_datagram, acknowledges, decoded) refl

  -- An ACK packet made of well-formed ranges, fewer than 2 ^ 16, is handled without an error, and
  -- takes exactly the packets whose numbers the ranges hold out of the send queue. The condition is that the
  -- queue's map is in the order of its keys.
  pub handle_packet-acknowledges :
      (l : AckRangeList) (packet : List ℕ) (w : World) (k : ℕ)
      → IsCompressed l
      → length l < 2 ^ 16
      → encode_ack lib l ≡ ok packet
      → Map.IsSorted 0 w.shared.send_queue.packets
      → ((handle_packet lib bits env packet w).0 ≡ ok tt)
        × (contains (handle_packet lib bits env packet w).1.shared.send_queue k
            ≡ (contains w.shared.send_queue k && not (holds l k)))
  unfolding handle_ack
  handle_packet-acknowledges l packet w k compressed few encoded sorted =
      let rest = be_bytes 2 (length l % 2 ^ 16) ++ wire_ranges l in
      let wire : encode_ack lib l ≡ ok (id_ack ∷ rest) = encode_ack-wire lib l in
      let same : packet ≡ id_ack ∷ rest = cc in
      let decoded : decode_ack_nack lib (id_ack ∷ rest) ≡ ok (true, l) =
        ap (λ r. r >>= decode_ack_nack lib) (sym wire)
        ∙ (decode_ack_nack-encode lib l compressed few).0 in
      rw same (
        rw (handle_ack_packet rest l w decoded)
          (refl, acknowledge_all_lem w.shared.send_queue l k sorted))
