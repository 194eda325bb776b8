-- ===== src/Reliability/Ack/Codec/Decode.antt =====
-- What `decode_ack_nack` makes of well-formed records.
use raknet.Base.{
  ℕ, zero, suc, ◌+◌, ◌-◌, ◌^◌, ◌≤◌, ◌≡◌, ◌&&◌, ◌||◌, leb, ltb, List, [], ◌∷◌, ◌++◌, length, ok,
  refl, arith, All, leb_gt, le→leb, dec_lt, append_assoc,
}
use raknet.Protocol.Buffer.{Buffer}
use raknet.Protocol.Reads.{enough_bytes, advance-append}
use raknet.Protocol.Uint24.Laws.{IsU24, new_of_IsU24}
use raknet.Protocol.Uint24.Bytes.{le_bytes, read_u24_le-le_bytes}
use raknet.Reliability.Ack.{AckRange, single, range, contains, AckRangeList, insert}
use raknet.Reliability.Ack.Spaced.{IsCompressed, holds}
use raknet.Reliability.Ack.Insert.{insert-IsCompressed, holds-insert}
use raknet.Reliability.Ack.Codec.{
  insert_span, insert_record, decode_single, decode_pair, decode_range, decode_records,
}
use raknet.Reliability.Ack.Codec.Encode.{IsWire, wire_range, wire_ranges}

-- A span of numbers that ends within 24 bits is added, and nothing else.
insert_span-IsCompressed :
    (l : AckRangeList) (start rounds : ℕ)
    → IsCompressed l
    → start + rounds ≤ 2 ^ 24
    → IsCompressed (insert_span l start rounds)
unfolding insert_span
insert_span-IsCompressed l start zero w h = w
insert_span-IsCompressed l start (suc n) w h = rw (new_of_IsU24 start (omega arith)) (
    insert_span-IsCompressed (insert l start) (start + 1) n
      (insert-IsCompressed l start w (omega arith)) (omega arith))

holds-insert_span :
    (l : AckRangeList) (start rounds x : ℕ)
    → IsCompressed l
    → start + rounds ≤ 2 ^ 24
    → holds (insert_span l start rounds) x ≡ (leb start x && ltb x (start + rounds) || holds l x)
unfolding insert_span
holds-insert_span l start zero x w h = ground arith
holds-insert_span l start (suc n) x w h = rw (new_of_IsU24 start (omega arith)) (
    ground (
      arith,
      insert-IsCompressed l start w (omega arith),
      holds-insert_span (insert l start) (start + 1) n x
          (insert-IsCompressed l start w (omega arith)) (omega arith),
      holds-insert l start x w (omega arith),
    ))

pub insert_record-IsCompressed :
    (l : AckRangeList) (r : AckRange) → IsCompressed l → IsWire r → IsCompressed (insert_record l r)
unfolding insert_record
insert_record-IsCompressed l (single s) w h = insert-IsCompressed l s w h
insert_record-IsCompressed l (range start end) w h = elim (dec_lt end start) [
  | no low ↦
      rw (le→leb start end (omega arith))
        (insert_span-IsCompressed l start (end + 1 - start) w (omega arith))
  | yes wraps ↦ rw (leb_gt start end wraps) (
      insert_span-IsCompressed (insert_span l start (0x00FFFFFF + 1 - start)) 0 (end + 1)
        (insert_span-IsCompressed l start (0x00FFFFFF + 1 - start) w (omega arith)) (omega arith))
]

-- A record adds the numbers that it contains, also where the range wraps.
pub holds-insert_record :
    (l : AckRangeList) (r : AckRange) (x : ℕ)
    → IsCompressed l
    → IsWire r
    → IsU24 x
    → holds (insert_record l r) x ≡ (contains r x || holds l x)
unfolding insert_record contains
holds-insert_record l (single s) x w h hx = ground (arith, holds-insert l s x w h)
holds-insert_record l (range start end) x w h hx = elim (dec_lt end start) [
  | no low ↦
      rw (le→leb start end (omega arith))
        (ground (arith, holds-insert_span l start (end + 1 - start) x w (omega arith)))
  | yes wraps ↦ rw (leb_gt start end wraps) (
      ground (
        arith,
        holds-insert_span l start (0x00FFFFFF + 1 - start) x w (omega arith),
        holds-insert_span (insert_span l start (0x00FFFFFF + 1 - start)) 0 (end + 1) x
            (insert_span-IsCompressed l start (0x00FFFFFF + 1 - start) w (omega arith))
            (omega arith),
      ))
]

-- The list that the records leave, one after the other.
abbrev pub insert_records : AckRangeList → AckRangeList → AckRangeList
insert_records l [] = l
insert_records l (r ∷ rest) = insert_records (insert_record l r) rest

pub insert_records-IsCompressed :
    (rs l : AckRangeList) → IsCompressed l → All IsWire rs → IsCompressed (insert_records l rs)
insert_records-IsCompressed [] l w h = w
insert_records-IsCompressed (r ∷ rs) l w h =
    insert_records-IsCompressed rs (insert_record l r) (insert_record-IsCompressed l r w h.0) h.1

pub holds-insert_records :
    (rs l : AckRangeList) (x : ℕ)
    → IsCompressed l
    → All IsWire rs
    → IsU24 x
    → holds (insert_records l rs) x ≡ (holds rs x || holds l x)
unfolding holds
holds-insert_records [] l x w h hx = refl
holds-insert_records (r ∷ rs) l x w h hx = ground (
  arith,
  holds-insert_records rs (insert_record l r) x (insert_record-IsCompressed l r w h.0) h.1 hx,
  holds-insert_record l r x w h.0 hx,
)

module _ (lib : Buffer) where
  decode_single-wire :
      (s : ℕ) (rest : List ℕ)
      → IsU24 s
      → decode_single lib (le_bytes s ++ rest) ≡ ok (single s, rest)
  unfolding decode_single
  decode_single-wire s rest h = rw (
    enough_bytes lib 3 (le_bytes s) rest (omega arith),
    read_u24_le-le_bytes s rest h,
    advance-append lib (le_bytes s) rest,
  )

  decode_pair-wire :
      (start end : ℕ) (rest : List ℕ)
      → IsU24 start
      → IsU24 end
      → decode_pair lib (le_bytes start ++ (le_bytes end ++ rest)) ≡ ok (range start end, rest)
  unfolding decode_pair
  decode_pair-wire start end rest hs he = rw (
    enough_bytes lib 6 (le_bytes start ++ le_bytes end) rest (omega arith),
    read_u24_le-le_bytes start (le_bytes end ++ rest) hs,
    advance-append lib (le_bytes start) (le_bytes end ++ rest),
    read_u24_le-le_bytes end rest he,
    advance-append lib (le_bytes end) rest,
  )

  -- One record is read back, and what follows it is left.
  pub decode_range-wire :
      (r : AckRange) (rest : List ℕ)
      → IsWire r
      → decode_range lib (wire_range r ++ rest) ≡ ok (r, rest)
  unfolding decode_range
  decode_range-wire (single s) rest h =
      rw (enough_bytes lib 1 (wire_range (single s)) rest (omega arith), lib.get_u8_lem)
        (decode_single-wire s rest h)
  decode_range-wire (range start end) rest h =
      rw (enough_bytes lib 1 (wire_range (range start end)) rest (omega arith), lib.get_u8_lem)
        (decode_pair-wire start end rest h.0 h.1)

  pub decode_records-wire :
      (rs l : AckRangeList) (rest : List ℕ)
      → All IsWire rs
      → decode_records lib (length rs) l (wire_ranges rs ++ rest) ≡ ok (insert_records l rs)
  unfolding decode_records
  decode_records-wire [] l rest h = refl
  decode_records-wire (r ∷ rs) l rest h = rw (append_assoc (wire_range r) (wire_ranges rs) rest) (
      rw (decode_range-wire r (wire_ranges rs ++ rest) h.0)
        (decode_records-wire rs (insert_record l r) rest h.1))
