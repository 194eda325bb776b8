-- ===== src/Reliability/Ack/Examples.antt =====
-- Tests of the range lists and their packets, and the theorems at concrete lists.
use raknet.Base.{ℕ, ◌≡◌, ◌>>=◌, ◌||◌, ◌==◌, true, false, [], ◌∷◌, arrives, map, refl, ok, arith}
use raknet.Protocol.Buffer.{reference}
use raknet.Protocol.Uint24.{new}
use raknet.Reliability.Ack.{
  single, range, AckRangeList, insert, position, insert_found, is_hit, contains, merge_at,
  can_merge_with_next, range_start, range_end, merged, join_next, encoded_size, list_encoded_size,
  count, insert_each, from_sequences,
}
use raknet.Reliability.Ack.Spaced.{IsCompressed, holds}
use raknet.Reliability.Ack.Insert.{holds-insert}
use raknet.Reliability.Ack.Sequences.{from_sequences_lem}
use raknet.Reliability.Ack.Codec.{encode_ack, encode_nack, decode_ack_nack}
use raknet.Reliability.Ack.Codec.RoundTrip.{decode_ack_nack-encode, decode_ack_nack_any}

abbrev two_ranges : AckRangeList
two_ranges = single 3 ∷ range 5 9 ∷ []

-- Records as a peer may send them: out of order, overlapping, one of them wrapping.
abbrev wild : AckRangeList
wild = range 5 9 ∷ single 7 ∷ range 0xFFFFFE 2 ∷ []

insert_joins_test : insert two_ranges 4 ≡ (range 3 9 ∷ [])
unfolding insert position is_hit contains insert_found can_merge_with_next range_end merge_at merged
    join_next range_start
insert_joins_test = refl

list_encoded_size_test : list_encoded_size two_ranges ≡ 11
unfolding list_encoded_size encoded_size
list_encoded_size_test = refl

-- A range that wraps at 2 ^ 24 is counted modulo 2 ^ 32.
count_wrapping_test : count (range 0xFFFFFF 0) ≡ 0xFF000002
unfolding count
count_wrapping_test = refl

two_ranges-IsCompressed : IsCompressed two_ranges
unfolding range_start range_end
two_ranges-IsCompressed = (omega arith, omega arith, (omega arith, (omega arith, omega arith), tt))

holds-insert_example : holds (insert two_ranges 4) 9 ≡ (9 == 4 || holds two_ranges 9)
holds-insert_example = holds-insert two_ranges 4 9 two_ranges-IsCompressed (omega arith)

has_seven : (x : ℕ) → (x == 7 || holds two_ranges x) ≡ holds two_ranges x
unfolding holds contains
has_seven x = ground arith

decode_ack_nack-encode_example :
    ((encode_ack reference two_ranges >>= decode_ack_nack reference) ≡ ok (true, two_ranges))
    × ((encode_nack reference two_ranges >>= decode_ack_nack reference) ≡ ok (false, two_ranges))
decode_ack_nack-encode_example =
    decode_ack_nack-encode reference two_ranges two_ranges-IsCompressed (omega arith)

decode_ack_nack_any_example :
    (l : AckRangeList) × ((encode_ack reference wild >>= decode_ack_nack reference) ≡ ok (true, l))
    × IsCompressed l
    × (holds l 1 ≡ holds wild 1)
decode_ack_nack_any_example =
    decode_ack_nack_any reference wild 1
      ((omega arith, omega arith), (omega arith, ((omega arith, omega arith), tt))) (omega arith)
      (omega arith)

from_sequences_lem_example :
    IsCompressed (from_sequences (7 ∷ 5 ∷ 16_777_222 ∷ []))
    × ((x : ℕ)
        → holds (from_sequences (7 ∷ 5 ∷ 16_777_222 ∷ [])) x
          ≡ arrives x (map new (7 ∷ 5 ∷ 16_777_222 ∷ [])))
    × (from_sequences (7 ∷ 5 ∷ 16_777_222 ∷ []) ≡ insert_each [] (7 ∷ 5 ∷ 16_777_222 ∷ []))
from_sequences_lem_example = from_sequences_lem (7 ∷ 5 ∷ 16_777_222 ∷ [])
