-- ===== src/Protocol/Frame/Decode.antt =====
-- A decoded frame is the encoded one, up to the fields that its level does not carry.
use raknet.Base.{
  ℕ, ◌+◌, ◌*◌, ◌/◌, ◌%◌, ◌^◌, ◌<◌, ◌≡◌, bit_and, bit_or, Bool, true, false, not, ◌==◌, Option, none,
  some, is_some, List, [], ◌++◌, if◌then◌else◌, length, ok, ◌>>=◌, append_assoc, refl, ap, ◌∙◌,
  arith, ltb_ge, leb_gt,
}
use raknet.Protocol.Buffer.{Buffer, be_bytes, slice_to-append}
use raknet.Protocol.Reads.{enough_bytes, advance-append, get_u8-put, get_u16-put, get_u32-put}
use raknet.Protocol.Uint24.Laws.{IsU24}
use raknet.Protocol.Uint24.Bytes.{le_bytes, read_u24_le-le_bytes}
use raknet.Reliability.Levels.{Reliability, from_u8, to_u8, is_reliable, is_sequenced, is_ordered}
use raknet.Protocol.Frame.{
  SplitInfo, Frame, flags_byte, length_in_bytes, read_index, get_message_index, get_sequence_index,
  get_order, get_split, decode_fields, decode_level, decode, encode,
}
use raknet.Protocol.Frame.Encode.{
  value_or_zero, index_part, order_part, split_part, wire_fields, wire, encode-wire,
}

abbrev pub IsSplit : Option SplitInfo → Type 0
IsSplit none = Unit {0}
IsSplit (some s) = (s.count < 2 ^ 32) × (s.id < 2 ^ 16) × (s.index < 2 ^ 32)

-- The fields hold values of their Rust types, and the payload is at most 8191 bytes long, so that
-- its length in bits fits the 16 bits of the header.
pub record Fits (f : Frame) : Type 0 where
  pub message : IsU24 (value_or_zero f.message_index)
  pub sequence : IsU24 (value_or_zero f.sequence_index)
  pub order : IsU24 (value_or_zero f.order_index)
  pub channel : f.order_channel < 2 ^ 8
  pub fragment : IsSplit f.split
  pub short : length f.payload < 8192

abbrev carried : Bool → Option ℕ → Option ℕ
carried true o = some (value_or_zero o)
carried false o = none

-- What of a frame goes over the wire: the indices of its level, where a missing one counts as 0.
unfoldable pub carried_frame : Frame → Frame
carried_frame f = record {
  reliability = f.reliability;
  message_index = carried (is_reliable f.reliability) f.message_index;
  sequence_index = carried (is_sequenced f.reliability) f.sequence_index;
  order_index = carried (is_ordered f.reliability) f.order_index;
  order_channel = if is_ordered f.reliability then f.order_channel else 0;
  split = f.split;
  payload = f.payload;
}

-- The flags byte, over its two inputs.
abbrev flags_of : Reliability → Bool → ℕ
flags_of r fragment =
    let flags = to_u8 r * 2 ^ 5 % 2 ^ 8 in if fragment then bit_or flags 0b0001_0000 else flags

flags_of-fields :
    (r : Reliability) (b : Bool)
    → (from_u8 (bit_and (flags_of r b / 2 ^ 5) 0b111) ≡ some r)
      × (not (bit_and (flags_of r b) 0b0001_0000 == 0) ≡ b)
      × (flags_of r b < 2 ^ 8)
unfolding from_u8 to_u8
flags_of-fields Reliability.unreliable true = (refl, refl, omega arith)
flags_of-fields Reliability.unreliable false = (refl, refl, omega arith)
flags_of-fields Reliability.unreliable_sequenced true = (refl, refl, omega arith)
flags_of-fields Reliability.unreliable_sequenced false = (refl, refl, omega arith)
flags_of-fields Reliability.reliable true = (refl, refl, omega arith)
flags_of-fields Reliability.reliable false = (refl, refl, omega arith)
flags_of-fields Reliability.reliable_ordered true = (refl, refl, omega arith)
flags_of-fields Reliability.reliable_ordered false = (refl, refl, omega arith)
flags_of-fields Reliability.reliable_sequenced true = (refl, refl, omega arith)
flags_of-fields Reliability.reliable_sequenced false = (refl, refl, omega arith)

-- The level, the fragment flag and the size of the flags byte that `encode` writes.
flags_byte-fields :
    (f : Frame)
    → (from_u8 (bit_and (flags_byte f / 2 ^ 5) 0b111) ≡ some f.reliability)
      × (not (bit_and (flags_byte f) 0b0001_0000 == 0) ≡ is_some f.split)
      × (flags_byte f < 2 ^ 8)
unfolding flags_byte
flags_byte-fields f = flags_of-fields f.reliability (is_some f.split)

length_back : (n : ℕ) → n < 8192 → length_in_bytes (n * 8 % 2 ^ 16) ≡ ok n
unfolding length_in_bytes
length_back n h = rw (leb_gt (2 ^ 16) (n * 8 % 2 ^ 16 + 7) (omega arith)) (ap ok (omega arith))

module _ (lib : Buffer) where
  get_message_index-part :
      (b : Bool) (o : Option ℕ) (rest : List ℕ)
      → IsU24 (value_or_zero o)
      → get_message_index lib b (index_part b o ++ rest) ≡ ok (carried b o, rest)
  unfolding get_message_index read_index
  get_message_index-part false o rest h = refl
  get_message_index-part true o rest h = rw (
    enough_bytes lib 3 (le_bytes (value_or_zero o)) rest (omega arith),
    read_u24_le-le_bytes (value_or_zero o) rest h,
    advance-append lib (le_bytes (value_or_zero o)) rest,
  )

  get_sequence_index-part :
      (b : Bool) (o : Option ℕ) (rest : List ℕ)
      → IsU24 (value_or_zero o)
      → get_sequence_index lib b (index_part b o ++ rest) ≡ ok (carried b o, rest)
  unfolding get_sequence_index read_index
  get_sequence_index-part false o rest h = refl
  get_sequence_index-part true o rest h = rw (
    enough_bytes lib 3 (le_bytes (value_or_zero o)) rest (omega arith),
    read_u24_le-le_bytes (value_or_zero o) rest h,
    advance-append lib (le_bytes (value_or_zero o)) rest,
  )

  get_order-part :
      (b : Bool) (o : Option ℕ) (channel : ℕ) (rest : List ℕ)
      → IsU24 (value_or_zero o)
      → channel < 2 ^ 8
      → get_order lib b (order_part b o channel ++ rest)
        ≡ ok (carried b o, (if b then channel else 0), rest)
  unfolding get_order
  get_order-part false o channel rest h hc = refl
  get_order-part true o channel rest h hc = rw (
    enough_bytes lib 4 (le_bytes (value_or_zero o) ++ be_bytes 1 channel) rest (omega arith),
    read_u24_le-le_bytes (value_or_zero o) (be_bytes 1 channel ++ rest) h,
    advance-append lib (le_bytes (value_or_zero o)) (be_bytes 1 channel ++ rest),
    get_u8-put lib channel rest hc,
  )

  get_split-part :
      (s : Option SplitInfo) (rest : List ℕ)
      → IsSplit s
      → get_split lib (is_some s) (split_part s ++ rest) ≡ ok (s, rest)
  unfolding get_split
  get_split-part none rest h = refl
  get_split-part (some s) rest h = rw (
    enough_bytes lib 10 (split_part (some s)) rest (omega arith),
    get_u32-put lib s.count (be_bytes 2 s.id ++ (be_bytes 4 s.index ++ rest)) h.0,
    get_u16-put lib s.id (be_bytes 4 s.index ++ rest) h.1,
    get_u32-put lib s.index rest h.2,
  )

  decode_fields-wire :
      (f : Frame) (rest : List ℕ)
      → Fits f
      → decode_fields lib f.reliability
          (is_some f.split)
          (be_bytes 2 (length f.payload * 8 % 2 ^ 16) ++ (wire_fields f ++ rest))
        ≡ ok (carried_frame f, rest)
  unfolding decode_fields carried_frame
  decode_fields-wire f rest h =
      let after4 = f.payload ++ rest in
      let after3 = split_part f.split ++ after4 in
      let after2 = order_part (is_ordered f.reliability) f.order_index f.order_channel ++ after3 in
      let after1 = index_part (is_sequenced f.reliability) f.sequence_index ++ after2 in
      rw
        (
          get_u16-put lib (length f.payload * 8 % 2 ^ 16) (wire_fields f ++ rest) (omega arith),
          length_back (length f.payload) h.short,
        )
        (simp append_assoc (
          rw (
            get_message_index-part (is_reliable f.reliability) f.message_index after1 h.message,
            get_sequence_index-part (is_sequenced f.reliability) f.sequence_index after2 h.sequence,
            get_order-part (is_ordered f.reliability) f.order_index f.order_channel after3 h.order
                h.channel,
            get_split-part f.split after4 h.fragment,
            enough_bytes lib (length f.payload) f.payload rest (omega arith),
            slice_to-append f.payload rest,
            advance-append lib f.payload rest,
          )))

-- `decode` reads back what `encode` wrote, at the front of any further bytes: the frame with the
-- indices that its level carries (a missing one as 0) and no others. The condition is that every
-- field holds a value of its type and the payload is below 8192 bytes.
pub decode-encode :
    (lib : Buffer) (f : Frame) (rest : List ℕ)
    → Fits f
    → (encode lib f [] >>= λ bytes. decode lib (bytes ++ rest)) ≡ ok (carried_frame f, rest)
unfolding decode decode_level
decode-encode lib f rest h = rw (encode-wire lib f []) (
    rw
      (
        ltb_ge (length (wire f ++ rest)) 3 (omega arith),
        get_u8-put lib (flags_byte f)
            (be_bytes 2 (length f.payload * 8 % 2 ^ 16) ++ (wire_fields f ++ rest))
            (flags_byte-fields f).2,
        (flags_byte-fields f).0,
        (flags_byte-fields f).1,
      )
      (decode_fields-wire lib f rest h))

-- The indices that are present are those that the level calls for.
pub record IsExact (f : Frame) : Type 0 where
  pub message_present : is_some f.message_index ≡ is_reliable f.reliability
  pub sequence_present : is_some f.sequence_index ≡ is_sequenced f.reliability
  pub order_present : is_some f.order_index ≡ is_ordered f.reliability
  pub channel_zero : (if is_ordered f.reliability then f.order_channel else 0) ≡ f.order_channel

carried_present : (b : Bool) (o : Option ℕ) → is_some o ≡ b → carried b o ≡ o
carried_present true (some v) h = refl
carried_present true none h = cc
carried_present false none h = refl
carried_present false (some v) h = cc

pub carried_frame_exact : (f : Frame) → IsExact f → carried_frame f ≡ f
unfolding carried_frame
carried_frame_exact f h = λ i. record {
  reliability = f.reliability;
  message_index = carried_present (is_reliable f.reliability) f.message_index h.message_present i;
  sequence_index =
      carried_present (is_sequenced f.reliability) f.sequence_index h.sequence_present i;
  order_index = carried_present (is_ordered f.reliability) f.order_index h.order_present i;
  order_channel = h.channel_zero i;
  split = f.split;
  payload = f.payload;
}

-- A frame that has exactly the indices of its level, every field a value of its type and a payload
-- below 8192 bytes, comes back as it was.
pub decode-encode_exact :
    (lib : Buffer) (f : Frame) (rest : List ℕ)
    → Fits f
    → IsExact f
    → (encode lib f [] >>= λ bytes. decode lib (bytes ++ rest)) ≡ ok (f, rest)
decode-encode_exact lib f rest h x =
    decode-encode lib f rest h ∙ ap (λ g. ok (g, rest)) (carried_frame_exact f x)
