-- ===== src/Protocol/Safety/Frames.antt =====
-- protocol/frame.rs: the decoder of frames and its one panic.
use raknet.Base.{
  ℕ, suc, ◌+◌, ◌*◌, ◌/◌, ◌^◌, ◌≤◌, ◌<◌, ◌≡◌, not, Bool, true, false, Option, none, some, List, [],
  ◌∷◌, length, ltb, leb_gt, le→leb, ◌==◌, Result, ok, panic, ◌>>=◌, arith, refl, bit_and,
}
use raknet.Protocol.Buffer.{Buffer, slice_to}
use raknet.Protocol.Frame.{
  read_index, get_message_index, get_sequence_index, get_order, get_split, length_in_bytes,
  decode_fields, decode_level, decode,
}
use raknet.Protocol.Safety.{
  Total-ok, Total-err, Total-enough, Total-remaining, get_u8_then, get_u16_then, get_u32_then,
  advance_then, slice_to-Total,
}
use raknet.Protocol.Safety.Messages.{Survives, Survives-then}
use raknet.Protocol.Uint24.{read_u24_le}
use raknet.Reliability.Levels.{Reliability, from_u8, is_reliable, is_sequenced, is_ordered}

read_u24_le-Survives : (buf : List ℕ) → 3 ≤ length buf → Survives (read_u24_le buf)
unfolding read_u24_le
read_u24_le-Survives (a ∷ b ∷ c ∷ rest) h = Total-ok _ _ tt
read_u24_le-Survives [] h = absurd (omega arith)
read_u24_le-Survives (a ∷ []) h = absurd (omega arith)
read_u24_le-Survives (a ∷ b ∷ []) h = absurd (omega arith)

pub u24_then :
    {B : Type 0} (buf : List ℕ) (f : ℕ → Result B)
    → 3 ≤ length buf
    → ((n : ℕ) → Survives (f n))
    → Survives (read_u24_le buf >>= f)
u24_then buf f h k = Survives-then (read_u24_le buf) f (read_u24_le-Survives buf h) k

length_in_bytes_small : (n : ℕ) → n ≤ 65528 → length_in_bytes n ≡ ok ((n + 7) / 8)
unfolding length_in_bytes
length_in_bytes_small n h = rw (leb_gt (2 ^ 16) (n + 7) (omega arith)) refl

length_in_bytes_large : (n : ℕ) → 65528 < n → length_in_bytes n ≡ panic
unfolding length_in_bytes
length_in_bytes_large n h = rw (le→leb (2 ^ 16) (n + 7) (omega arith)) refl

three_bytes : (n : ℕ) → ltb (suc (suc (suc n))) 3 ≡ false
three_bytes n = ground arith

first_byte : (flags : ℕ) → 0 * 256 + flags ≡ flags
first_byte flags = omega arith

module _ (lib : Buffer) where
  read_index-Survives : (buf : List ℕ) → 3 ≤ length buf → Survives (read_index lib buf)
  unfolding read_index
  read_index-Survives buf h =
      u24_then buf _ h λ index. advance_then lib buf _ 3 _ h λ rest e. Total-ok _ _ tt

  get_message_index-Survives :
      (present : Bool) (buf : List ℕ) → Survives (get_message_index lib present buf)
  unfolding get_message_index
  get_message_index-Survives false buf = Total-ok _ _ tt
  get_message_index-Survives true buf =
      Total-remaining lib buf _ 3 _ _ λ room. read_index-Survives buf room

  get_sequence_index-Survives :
      (present : Bool) (buf : List ℕ) → Survives (get_sequence_index lib present buf)
  unfolding get_sequence_index
  get_sequence_index-Survives false buf = Total-ok _ _ tt
  get_sequence_index-Survives true buf =
      Total-remaining lib buf _ 3 _ _ λ room. read_index-Survives buf room

  get_order-Survives : (present : Bool) (buf : List ℕ) → Survives (get_order lib present buf)
  unfolding get_order
  get_order-Survives false buf = Total-ok _ _ tt
  get_order-Survives true buf = Total-remaining lib buf _ 4 _ _ λ room.
      u24_then buf _ (omega arith) λ index.
        advance_then lib buf _ 3 _ (omega arith)
          λ buf1 e1. get_u8_then lib buf1 _ _ (omega arith) λ channel rest e2. Total-ok _ _ tt

  get_split-Survives : (present : Bool) (buf : List ℕ) → Survives (get_split lib present buf)
  unfolding get_split
  get_split-Survives false buf = Total-ok _ _ tt
  get_split-Survives true buf = Total-remaining lib buf _ 10 _ _ λ room.
      get_u32_then lib buf _ _ (omega arith) λ count buf1 e1.
        get_u16_then lib buf1 _ _ (omega arith)
          λ id buf2 e2. get_u32_then lib buf2 _ _ (omega arith) λ index rest e3. Total-ok _ _ tt

  -- The length is read from the first two bytes.
  decode_fields-Survives :
      (reliability : Reliability) (split_flag : Bool) (hi lo : ℕ) (rest : List ℕ)
      → hi * 256 + lo ≤ 65528
      → Survives (decode_fields lib reliability split_flag (hi ∷ lo ∷ rest))
  unfolding decode_fields
  decode_fields-Survives reliability split_flag hi lo rest small =
      let bits = (0 * 256 + hi) * 256 + lo in
      rw (lib.get_u16_lem (hi ∷ lo ∷ rest), length_in_bytes_small bits (omega arith))
        (Survives-then (get_message_index lib (is_reliable reliability) rest) _
          (get_message_index-Survives (is_reliable reliability) rest)
          λ message.
            Survives-then (get_sequence_index lib (is_sequenced reliability) message.1) _
              (get_sequence_index-Survives (is_sequenced reliability) message.1)
              λ sequence.
                Survives-then (get_order lib (is_ordered reliability) sequence.1) _
                  (get_order-Survives (is_ordered reliability) sequence.1)
                  λ order.
                    Survives-then (get_split lib split_flag order.2) _
                      (get_split-Survives split_flag order.2)
                      λ split. Total-remaining lib split.1 _ ((bits + 7) / 8) _ _ λ room.
                        Survives-then (slice_to ((bits + 7) / 8) split.1) _
                          (slice_to-Total ((bits + 7) / 8) split.1 room)
                          λ payload.
                            advance_then lib split.1 _ ((bits + 7) / 8) _ room
                              λ left e. Total-ok _ _ tt)

  decode_level-Survives :
      (level : Option Reliability) (bits : ℕ) (split_flag : Bool) (hi lo : ℕ) (rest : List ℕ)
      → hi * 256 + lo ≤ 65528
      → Survives (decode_level lib level bits split_flag (hi ∷ lo ∷ rest))
  unfolding decode_level
  decode_level-Survives none bits split_flag hi lo rest small = Total-err _ _
  decode_level-Survives (some level) bits split_flag hi lo rest small =
      decode_fields-Survives level split_flag hi lo rest small

  -- A frame whose length field is at most 65528 is decoded or refused.
  pub frame-Survives :
      (flags hi lo : ℕ) (rest : List ℕ)
      → hi * 256 + lo ≤ 65528
      → Survives (decode lib (flags ∷ hi ∷ lo ∷ rest))
  unfolding decode
  frame-Survives flags hi lo rest small =
      Total-enough _ (length (flags ∷ hi ∷ lo ∷ rest)) 3 _ _ λ room.
        let first = 0 * 256 + flags in
        let bits = bit_and (first / 2 ^ 5) 0b111 in
        rw (lib.get_u8_lem (flags ∷ hi ∷ lo ∷ rest)) (
          decode_level-Survives (from_u8 bits) bits (not (bit_and first 0b0001_0000 == 0)) hi lo
            rest small)

  -- A length field above that overflows in the sum that rounds it up.
  pub frame_overflows :
      (flags hi lo : ℕ) (rest : List ℕ) (level : Reliability)
      → from_u8 (bit_and (flags / 2 ^ 5) 0b111) ≡ some level
      → 65528 < hi * 256 + lo
      → decode lib (flags ∷ hi ∷ lo ∷ rest) ≡ panic
  unfolding decode decode_level decode_fields
  frame_overflows flags hi lo rest level valid large =
      rw
        (
          three_bytes (length rest),
          lib.get_u8_lem (flags ∷ hi ∷ lo ∷ rest),
          first_byte flags,
          valid,
          lib.get_u16_lem (hi ∷ lo ∷ rest),
          length_in_bytes_large ((0 * 256 + hi) * 256 + lo) (omega arith),
        )
        refl

  -- Without a valid level the frame is refused.
  pub frame_refused :
      (flags hi lo : ℕ) (rest : List ℕ)
      → from_u8 (bit_and (flags / 2 ^ 5) 0b111) ≡ none
      → Survives (decode lib (flags ∷ hi ∷ lo ∷ rest))
  unfolding decode decode_level
  frame_refused flags hi lo rest invalid =
      rw
        (
          three_bytes (length rest),
          lib.get_u8_lem (flags ∷ hi ∷ lo ∷ rest),
          first_byte flags,
          invalid,
        )
        (Total-err _ _)
