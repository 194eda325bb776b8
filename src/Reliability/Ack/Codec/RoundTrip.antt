-- ===== src/Reliability/Ack/Codec/RoundTrip.antt =====
-- ACK and NACK packets from the sender's list to the receiver's.
use raknet.Base.{
  ℕ, ◌+◌, ◌%◌, ◌^◌, ◌<◌, ◌≡◌, Bool, true, false, [], ◌∷◌, ◌++◌, length, ok, ◌>>=◌, ap, ◌∙◌, arith,
  All, append-nil,
}
use raknet.Protocol.Buffer.{Buffer, be_bytes}
use raknet.Protocol.Reads.{enough_bytes, get_u16-put}
use raknet.Protocol.Packet.{id_ack, id_nack}
use raknet.Protocol.Uint24.Laws.{IsU24}
use raknet.Reliability.Ack.{AckRange, single, range, range_end, AckRangeList}
use raknet.Reliability.Ack.Spaced.{IsProper, IsSpaced, IsCompressed, holds}
use raknet.Reliability.Ack.Canonical.{canonical}
use raknet.Reliability.Ack.Codec.{
  encode_ack, encode_nack, decode_records, decode_body, decode_ack_nack,
}
use raknet.Reliability.Ack.Codec.Encode.{IsWire, wire_ranges, encode_packet-wire}
use raknet.Reliability.Ack.Codec.Decode.{
  insert_records, insert_records-IsCompressed, holds-insert_records, decode_records-wire,
}

module _ (lib : Buffer) (rs : AckRangeList) (wire : All IsWire rs) (fits : length rs < 2 ^ 16) where
  body-wire :
      (ack : Bool)
      → decode_body lib ack (be_bytes 2 (length rs % 2 ^ 16) ++ wire_ranges rs)
        ≡ ok (ack, insert_records [] rs)
  unfolding decode_body
  body-wire ack =
      rw
        (
          enough_bytes lib 2 (be_bytes 2 (length rs % 2 ^ 16)) (wire_ranges rs) (omega arith),
          get_u16-put lib (length rs % 2 ^ 16) (wire_ranges rs) (omega arith),
        )
        (rw (count, decoded))
    where
      count : length rs % 2 ^ 16 ≡ length rs
      count = omega arith

      decoded : decode_records lib (length rs) [] (wire_ranges rs) ≡ ok (insert_records [] rs)
      decoded = rw append-nil at (decode_records-wire lib rs [] [] wire)

  pub ack_records : (encode_ack lib rs >>= decode_ack_nack lib) ≡ ok (true, insert_records [] rs)
  unfolding encode_ack decode_ack_nack
  ack_records = rw (encode_packet-wire lib id_ack rs) (body-wire true)

  pub nack_records : (encode_nack lib rs >>= decode_ack_nack lib) ≡ ok (false, insert_records [] rs)
  unfolding encode_nack decode_ack_nack
  nack_records = rw (encode_packet-wire lib id_nack rs) (body-wire false)

IsProper-IsWire : (r : AckRange) → IsProper r → IsWire r
IsProper-IsWire (single s) h = h
IsProper-IsWire (range start end) h = omega arith

IsSpaced-IsWire : (l : AckRangeList) (from : ℕ) → IsSpaced from l → All IsWire l
IsSpaced-IsWire [] from w = tt
IsSpaced-IsWire (r ∷ l) from w = (IsProper-IsWire r w.1, IsSpaced-IsWire l (range_end r + 2) w.2)

records_same : (l : AckRangeList) → IsCompressed l → insert_records [] l ≡ l
unfolding holds
records_same l w =
    canonical (insert_records [] l) l (insert_records-IsCompressed l [] tt (IsSpaced-IsWire l 0 w))
      w (λ x hx. holds-insert_records l [] x tt (IsSpaced-IsWire l 0 w) hx ∙ ground arith)

-- An ACK or a NACK packet made of well-formed ranges, fewer than 2 ^ 16, is decoded to the very list
-- that was encoded, with the kind of the packet.
pub decode_ack_nack-encode :
    (lib : Buffer) (l : AckRangeList)
    → IsCompressed l
    → length l < 2 ^ 16
    → ((encode_ack lib l >>= decode_ack_nack lib) ≡ ok (true, l))
      × ((encode_nack lib l >>= decode_ack_nack lib) ≡ ok (false, l))
decode_ack_nack-encode lib l w h = (
  ack_records lib l (IsSpaced-IsWire l 0 w) h ∙ ap (λ k. ok (true, k)) (records_same l w),
  nack_records lib l (IsSpaced-IsWire l 0 w) h ∙ ap (λ k. ok (false, k)) (records_same l w),
)

-- Any fewer than 2 ^ 16 records of 24-bit numbers, in whatever order, overlapping or wrapping, are
-- accepted in an ACK; the decoded list is well formed and holds a 24-bit number exactly if one of the
-- records contains it.
pub decode_ack_nack_any :
    (lib : Buffer) (rs : AckRangeList) (x : ℕ)
    → All IsWire rs
    → length rs < 2 ^ 16
    → IsU24 x
    → (l : AckRangeList) × ((encode_ack lib rs >>= decode_ack_nack lib) ≡ ok (true, l))
      × IsCompressed l
      × (holds l x ≡ holds rs x)
decode_ack_nack_any lib rs x wire h hx = (
  insert_records [] rs,
  ack_records lib rs wire h,
  insert_records-IsCompressed rs [] tt wire,
  holds-insert_records rs [] x tt wire hx ∙ (unfold holds in ground arith),
)
