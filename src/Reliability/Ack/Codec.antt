-- ===== src/Reliability/Ack/Codec.antt =====
-- reliability/ack.rs: ACK and NACK packets on the wire.
pub mod Encode
pub mod Decode
pub mod RoundTrip
use raknet.Base.{
  ℕ, zero, suc, ◌+◌, ◌-◌, ◌%◌, ◌^◌, Bool, true, false, List, [], ◌∷◌, ltb, leb, ◌==◌, if◌then◌else◌,
  length, Result, ok, err, panic, ◌>>=◌, ◌>>◌, reject_if, Error, invalid_packet,
}
use raknet.Protocol.Buffer.{Buffer}
use raknet.Protocol.Packet.{id_ack, id_nack}
use raknet.Protocol.Uint24.{new, write_u24_le, read_u24_le}
use raknet.Reliability.Ack.{AckRange, single, range, AckRangeList, insert}

-- `for seq in start..=end { list.insert(u24::new(seq)) }` over the `rounds` numbers from `start` on.
pub insert_span : AckRangeList → ℕ → ℕ → AckRangeList
insert_span list start zero = list
insert_span list start (suc rounds) = insert_span (insert list (new start)) (start + 1) rounds

-- What the loop of `decode_ack_nack` does with one record.
pub insert_record : AckRangeList → AckRange → AckRangeList
insert_record list (single seq) = insert list seq
insert_record list (range start end) =
    if leb start end
    then insert_span list start (end + 1 - start)
    else insert_span (insert_span list start (0x00FFFFFF + 1 - start)) 0 (end + 1)

module _ (lib : Buffer) where
  open lib use {put_u8, put_u16, put_slice, remaining, get_u8, get_u16, advance}

  pub encode_range : AckRange → List ℕ → Result (List ℕ)
  encode_range (single seq) buf = do
    let buf = put_u8 buf 1
    temp ← write_u24_le (0 ∷ 0 ∷ 0 ∷ []) seq
    ok (put_slice buf temp)
  encode_range (range start end) buf = do
    let buf = put_u8 buf 0
    temp ← write_u24_le (0 ∷ 0 ∷ 0 ∷ []) start
    let buf = put_slice buf temp
    temp ← write_u24_le temp end
    ok (put_slice buf temp)

  pub encode_ranges : AckRangeList → List ℕ → Result (List ℕ)
  encode_ranges [] buf = ok buf
  encode_ranges (r ∷ rest) buf = do buf ← encode_range r buf; encode_ranges rest buf

  -- `ranges.len() as u16` keeps the low 16 bits.
  pub encode_packet : ℕ → AckRangeList → Result (List ℕ)
  encode_packet packet_id ranges =
      encode_ranges ranges (put_u16 (put_u8 [] packet_id) (length ranges % 2 ^ 16))

  pub encode_ack : AckRangeList → Result (List ℕ)
  unfolding encode_packet
  encode_ack = encode_packet id_ack

  pub encode_nack : AckRangeList → Result (List ℕ)
  unfolding encode_packet
  encode_nack = encode_packet id_nack

  unfoldable pub decode_single : List ℕ → Result (AckRange × List ℕ)
  decode_single buf = do
    reject_if (ltb (remaining buf) 3) (invalid_packet "ACK single range truncated" [])
    seq ← read_u24_le buf
    buf ← advance 3 buf
    ok (single seq, buf)

  unfoldable pub decode_pair : List ℕ → Result (AckRange × List ℕ)
  decode_pair buf = do
    reject_if (ltb (remaining buf) 6) (invalid_packet "ACK range truncated" [])
    start ← read_u24_le buf
    buf ← advance 3 buf
    end ← read_u24_le buf
    buf ← advance 3 buf
    ok (range start end, buf)

  unfoldable pub decode_range : List ℕ → Result (AckRange × List ℕ)
  unfolding decode_single decode_pair
  decode_range buf = do
    reject_if (ltb (remaining buf) 1) (invalid_packet "ACK range too short" [])
    (range_type, buf) ← get_u8 buf
    if range_type == 1
        then decode_single buf
        else if range_type == 0
        then decode_pair buf
        else err (invalid_packet "Invalid ACK range type: {}" (range_type ∷ []))

  -- The loop over the records that are still to come.
  unfoldable pub decode_records : ℕ → AckRangeList → List ℕ → Result AckRangeList
  decode_records zero list buf = ok list
  decode_records (suc n) list buf = do
    (r, buf) ← decode_range buf
    decode_records n (insert_record list r) buf

  unfoldable pub decode_body : Bool → List ℕ → Result (Bool × AckRangeList)
  decode_body ack buf = do
    reject_if (ltb (remaining buf) 2) (invalid_packet "ACK/NACK missing record count" [])
    (record_count, buf) ← get_u16 buf
    list ← decode_records record_count [] buf
    ok (ack, list)

  unfoldable pub decode_ack_nack : List ℕ → Result (Bool × AckRangeList)
  unfolding decode_body
  decode_ack_nack [] = err (invalid_packet "ACK/NACK packet empty" [])
  decode_ack_nack (packet_id ∷ buf) =
      if packet_id == id_ack
      then decode_body true buf
      else if packet_id == id_nack
      then decode_body false buf
      else err (invalid_packet "Not an ACK/NACK packet" [])
