-- ===== src/Reliability/Ack/Codec/Encode.antt =====
-- The bytes that `encode_ack` and `encode_nack` write.
use raknet.Base.{
  ℕ, ◌%◌, ◌/◌, ◌^◌, ◌≡◌, List, [], ◌∷◌, ◌++◌, length, ok, append-nil, append_assoc, ap, ◌∙◌, sym,
}
use raknet.Protocol.Buffer.{Buffer, be_bytes}
use raknet.Protocol.Packet.{id_ack}
use raknet.Protocol.Uint24.Laws.{IsU24}
use raknet.Protocol.Uint24.Bytes.{le_bytes, write_u24_le-bytes}
use raknet.Reliability.Ack.{AckRange, single, range, AckRangeList}
use raknet.Reliability.Ack.Codec.{encode_range, encode_ranges, encode_packet, encode_ack}

-- A range whose numbers fit the wire; it may wrap.
abbrev pub IsWire : AckRange → Type 0
IsWire (single s) = IsU24 s
IsWire (range start end) = IsU24 start × IsU24 end

-- The format: type 1 and one number, or type 0 and two numbers, lowest byte first.
abbrev pub wire_range : AckRange → List ℕ
wire_range (single s) = 1 ∷ le_bytes s
wire_range (range start end) = 0 ∷ (le_bytes start ++ le_bytes end)

abbrev pub wire_ranges : AckRangeList → List ℕ
wire_ranges [] = []
wire_ranges (r ∷ rest) = wire_range r ++ wire_ranges rest

module _ (lib : Buffer) where
  encode_range-wire :
      (r : AckRange) (buf : List ℕ) → encode_range lib r buf ≡ ok (buf ++ wire_range r)
  unfolding encode_range
  encode_range-wire (single s) buf =
      rw (write_u24_le-bytes 0 0 0 [] s) (simp (lib.put_u8_lem, lib.put_slice_lem, append_assoc))
  encode_range-wire (range start end) buf =
      rw
        (
          write_u24_le-bytes 0 0 0 [] start,
          write_u24_le-bytes (start % 256) (start / 2 ^ 8 % 256) (start / 2 ^ 16 % 256) [] end,
        )
        (simp (lib.put_u8_lem, lib.put_slice_lem, append_assoc))

  encode_ranges-wire :
      (l : AckRangeList) (buf : List ℕ) → encode_ranges lib l buf ≡ ok (buf ++ wire_ranges l)
  unfolding encode_ranges
  encode_ranges-wire [] buf = ap ok (sym (append-nil buf))
  encode_ranges-wire (r ∷ l) buf =
      rw (encode_range-wire r buf)
        (rw (encode_ranges-wire l (buf ++ wire_range r)) (simp append_assoc))

  pub encode_packet-wire :
      (packet_id : ℕ) (l : AckRangeList)
      → encode_packet lib packet_id l
        ≡ ok (be_bytes 1 packet_id ++ (be_bytes 2 (length l % 2 ^ 16) ++ wire_ranges l))
  unfolding encode_packet
  encode_packet-wire packet_id l =
      encode_ranges-wire l (lib.put_u16 (lib.put_u8 [] packet_id) (length l % 2 ^ 16))
      ∙ ap ok (simp (lib.put_u8_lem, lib.put_u16_lem, append_assoc))

  pub encode_ack-wire :
      (l : AckRangeList)
      → encode_ack lib l ≡ ok (id_ack ∷ (be_bytes 2 (length l % 2 ^ 16) ++ wire_ranges l))
  unfolding encode_ack
  encode_ack-wire l = encode_packet-wire id_ack l
