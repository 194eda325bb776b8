-- ===== src/Protocol/Frame.antt =====
-- protocol/frame.rs: a frame and its encoding. Bytes are numbers below 256.
pub mod Encode
pub mod Decode
pub mod Leading
pub mod Progress
mod Examples
use raknet.Base.{
  ℕ, ◌+◌, ◌*◌, ◌/◌, ◌%◌, ◌^◌, bit_and, bit_or, Bool, true, false, not, Option, none, some, is_some,
  List, [], ◌∷◌, ltb, leb, ◌==◌, if◌then◌else◌, length, Result, ok, err, panic, ◌>>=◌, ◌>>◌,
  reject_if, invalid_packet, take, drop,
}
use raknet.Protocol.Buffer.{Buffer, slice_to}
use raknet.Protocol.Uint24.{write_u24_le, read_u24_le}
use raknet.Reliability.Levels.{Reliability, from_u8, to_u8, is_reliable, is_sequenced, is_ordered}

pub record SplitInfo : Type 0 where
  pub count : ℕ
  pub id : ℕ
  pub index : ℕ

pub record Frame : Type 0 where
  pub reliability : Reliability
  pub message_index : Option ℕ
  pub sequence_index : Option ℕ
  pub order_index : Option ℕ
  pub order_channel : ℕ
  pub split : Option SplitInfo
  pub payload : List ℕ

-- `Frame::new`
unfoldable pub new : Reliability → List ℕ → Frame
new reliability payload = record {
  reliability = reliability;
  message_index = none;
  sequence_index = none;
  order_index = none;
  order_channel = 0;
  split = none;
  payload = payload;
}

unfoldable pub with_message_index : Frame → ℕ → Frame
with_message_index self index = record self { message_index = some index }

unfoldable pub with_sequence_index : Frame → ℕ → Frame
with_sequence_index self index = record self { sequence_index = some index }

unfoldable pub with_order : Frame → ℕ → ℕ → Frame
with_order self index channel = record self { order_index = some index; order_channel = channel }

unfoldable pub with_split : Frame → SplitInfo → Frame
with_split self split = record self { split = some split }

pub encoded_size : Frame → ℕ
encoded_size f =
    1
    + 2
    + (if is_reliable f.reliability then 3 else 0)
    + (if is_sequenced f.reliability then 3 else 0)
    + (if is_ordered f.reliability then 4 else 0)
    + (if is_some f.split then 10 else 0)
    + length f.payload

-- The first byte: `to_u8() << 5` as a `u8`, and bit 4 for a fragment.
pub flags_byte : Frame → ℕ
flags_byte f =
    let flags = to_u8 f.reliability * 2 ^ 5 % 2 ^ 8 in
    if is_some f.split then bit_or flags 0b0001_0000 else flags

-- The payload's length in bits, rounded up to bytes; the sum is one of `u16`, which panics past it.
unfoldable pub length_in_bytes : ℕ → Result ℕ
length_in_bytes length_bits =
    if leb (2 ^ 16) (length_bits + 7) then panic else ok ((length_bits + 7) / 8)

module _ (lib : Buffer) where
  open lib use {put_u8, put_u16, put_u32, put_slice, remaining, get_u8, get_u16, get_u32, advance}

  -- An index that is missing is written as three zero bytes.
  pub put_index : Option ℕ → List ℕ → Result (List ℕ)
  put_index (some index) buf = do
    temp ← write_u24_le (0 ∷ 0 ∷ 0 ∷ []) index
    ok (put_slice buf temp)
  put_index none buf = ok (put_u8 (put_u8 (put_u8 buf 0) 0) 0)

  pub put_order : Frame → List ℕ → Result (List ℕ)
  put_order f buf = do buf ← put_index f.order_index buf; ok (put_u8 buf f.order_channel)

  pub put_split : Option SplitInfo → List ℕ → List ℕ
  put_split none buf = buf
  put_split (some s) buf = put_u32 (put_u16 (put_u32 buf s.count) s.id) s.index

  pub encode : Frame → List ℕ → Result (List ℕ)
  encode f buf = do
    let buf = put_u8 buf (flags_byte f)
    let buf = put_u16 buf (length f.payload * 8 % 2 ^ 16)
    buf ← (if is_reliable f.reliability then put_index f.message_index buf else ok buf)
    buf ← (if is_sequenced f.reliability then put_index f.sequence_index buf else ok buf)
    buf ← (if is_ordered f.reliability then put_order f buf else ok buf)
    ok (put_slice (put_split f.split buf) f.payload)

  unfoldable pub read_index : List ℕ → Result (Option ℕ × List ℕ)
  read_index buf = do index ← read_u24_le buf; buf ← advance 3 buf; ok (some index, buf)

  unfoldable pub get_message_index : Bool → List ℕ → Result (Option ℕ × List ℕ)
  unfolding read_index
  get_message_index false buf = ok (none, buf)
  get_message_index true buf = do
    reject_if (ltb (remaining buf) 3) (invalid_packet "Frame missing message index" [])
    read_index buf

  unfoldable pub get_sequence_index : Bool → List ℕ → Result (Option ℕ × List ℕ)
  unfolding read_index
  get_sequence_index false buf = ok (none, buf)
  get_sequence_index true buf = do
    reject_if (ltb (remaining buf) 3) (invalid_packet "Frame missing sequence index" [])
    read_index buf

  unfoldable pub get_order : Bool → List ℕ → Result (Option ℕ × ℕ × List ℕ)
  get_order false buf = ok (none, 0, buf)
  get_order true buf = do
    reject_if (ltb (remaining buf) 4) (invalid_packet "Frame missing order index" [])
    index ← read_u24_le buf
    buf ← advance 3 buf
    (channel, buf) ← get_u8 buf
    ok (some index, channel, buf)

  unfoldable pub get_split : Bool → List ℕ → Result (Option SplitInfo × List ℕ)
  get_split false buf = ok (none, buf)
  get_split true buf = do
    reject_if (ltb (remaining buf) 10) (invalid_packet "Frame missing split info" [])
    (count, buf) ← get_u32 buf
    (id, buf) ← get_u16 buf
    (index, buf) ← get_u32 buf
    ok (some (record { count = count; id = id; index = index }), buf)

  -- What `decode` reads behind the flags byte, once the level is known.
  unfoldable pub decode_fields : Reliability → Bool → List ℕ → Result (Frame × List ℕ)
  decode_fields reliability split_flag buf = do
    (length_bits, buf) ← get_u16 buf
    length_bytes ← length_in_bytes length_bits
    (message_index, buf) ← get_message_index (is_reliable reliability) buf
    (sequence_index, buf) ← get_sequence_index (is_sequenced reliability) buf
    (order_index, order_channel, buf) ← get_order (is_ordered reliability) buf
    (split, buf) ← get_split split_flag buf
    reject_if (ltb (remaining buf) length_bytes) (
        invalid_packet "Frame payload truncated: expected {} bytes, got {}"
          (length_bytes ∷ remaining buf ∷ []))
    payload ← slice_to length_bytes buf
    buf ← advance length_bytes buf
    ok (
      record {
        reliability = reliability;
        message_index = message_index;
        sequence_index = sequence_index;
        order_index = order_index;
        order_channel = order_channel;
        split = split;
        payload = payload;
      },
      buf,
    )

  unfoldable pub decode_level : Option Reliability → ℕ → Bool → List ℕ → Result (Frame × List ℕ)
  decode_level none bits split_flag buf = err (invalid_packet "Invalid reliability: {}" (bits ∷ []))
  decode_level (some reliability) bits split_flag buf = decode_fields reliability split_flag buf

  unfoldable pub decode : List ℕ → Result (Frame × List ℕ)
  unfolding decode_level
  decode buf = do
    reject_if (ltb (length buf) 3) (invalid_packet "Frame too short" [])
    (flags, buf) ← get_u8 buf
    let reliability_bits = bit_and (flags / 2 ^ 5) 0b111
    let split_flag = not (bit_and flags 0b0001_0000 == 0)
    decode_level (from_u8 reliability_bits) reliability_bits split_flag buf
