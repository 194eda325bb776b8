-- ===== src/Protocol/Frame/Encode.antt =====
-- The bytes of an encoded frame.
use raknet.Base.{
  ℕ, ◌*◌, ◌%◌, ◌^◌, ◌≡◌, Bool, true, false, Option, none, some, is_some, List, [], ◌++◌,
  if◌then◌else◌, length, ok, append-nil, append_assoc, refl, ap, sym, arith, length-append,
}
use raknet.Protocol.Buffer.{Buffer, be_bytes}
use raknet.Protocol.Uint24.Bytes.{le_bytes, write_u24_le-bytes}
use raknet.Reliability.Levels.{is_reliable, is_sequenced, is_ordered}
use raknet.Protocol.Frame.{
  SplitInfo, Frame, encoded_size, flags_byte, put_index, put_order, put_split, encode,
}

abbrev pub value_or_zero : Option ℕ → ℕ
value_or_zero none = 0
value_or_zero (some v) = v

abbrev pub index_part : Bool → Option ℕ → List ℕ
index_part true o = le_bytes (value_or_zero o)
index_part false o = []

abbrev pub order_part : Bool → Option ℕ → ℕ → List ℕ
order_part true o channel = le_bytes (value_or_zero o) ++ be_bytes 1 channel
order_part false o channel = []

abbrev pub split_part : Option SplitInfo → List ℕ
split_part none = []
split_part (some s) = be_bytes 4 s.count ++ (be_bytes 2 s.id ++ be_bytes 4 s.index)

-- The parts of the header behind the flags and the length, and the payload.
abbrev pub wire_fields : Frame → List ℕ
wire_fields f =
    index_part (is_reliable f.reliability) f.message_index
    ++ (index_part (is_sequenced f.reliability) f.sequence_index
        ++ (order_part (is_ordered f.reliability) f.order_index f.order_channel
            ++ (split_part f.split ++ f.payload)))

abbrev pub wire : Frame → List ℕ
wire f = be_bytes 1 (flags_byte f) ++ (be_bytes 2 (length f.payload * 8 % 2 ^ 16) ++ wire_fields f)

module _ (lib : Buffer) where
  put_index-wire :
      (o : Option ℕ) (buf : List ℕ) → put_index lib o buf ≡ ok (buf ++ le_bytes (value_or_zero o))
  unfolding put_index
  put_index-wire (some v) buf =
      rw (write_u24_le-bytes 0 0 0 [] v) (ap ok (lib.put_slice_lem buf (le_bytes v)))
  put_index-wire none buf = ap ok (simp (lib.put_u8_lem, append_assoc))

  put_order-wire :
      (f : Frame) (buf : List ℕ)
      → put_order lib f buf
        ≡ ok (buf ++ (le_bytes (value_or_zero f.order_index) ++ be_bytes 1 f.order_channel))
  unfolding put_order
  put_order-wire f buf =
      rw (put_index-wire f.order_index buf) (ap ok (simp (lib.put_u8_lem, append_assoc)))

  put_split-wire : (s : Option SplitInfo) (buf : List ℕ) → put_split lib s buf ≡ buf ++ split_part s
  unfolding put_split
  put_split-wire none buf = sym (append-nil buf)
  put_split-wire (some s) buf = simp (lib.put_u16_lem, lib.put_u32_lem, append_assoc)

  index_step :
      (b : Bool) (o : Option ℕ) (buf : List ℕ)
      → (if b then put_index lib o buf else ok buf) ≡ ok (buf ++ index_part b o)
  index_step true o buf = put_index-wire o buf
  index_step false o buf = ap ok (sym (append-nil buf))

  order_step :
      (b : Bool) (f : Frame) (buf : List ℕ)
      → (if b then put_order lib f buf else ok buf)
        ≡ ok (buf ++ order_part b f.order_index f.order_channel)
  order_step true f buf = put_order-wire f buf
  order_step false f buf = ap ok (sym (append-nil buf))

  -- `encode` appends the wire form of the frame to the buffer, and never fails.
  pub encode-wire : (f : Frame) (buf : List ℕ) → encode lib f buf ≡ ok (buf ++ wire f)
  unfolding encode
  encode-wire f buf =
      let buf1 = lib.put_u16 (lib.put_u8 buf (flags_byte f)) (length f.payload * 8 % 2 ^ 16) in
      let buf2 = buf1 ++ index_part (is_reliable f.reliability) f.message_index in
      let buf3 = buf2 ++ index_part (is_sequenced f.reliability) f.sequence_index in
      rw
        (
          index_step (is_reliable f.reliability) f.message_index buf1,
          index_step (is_sequenced f.reliability) f.sequence_index buf2,
          order_step (is_ordered f.reliability) f buf3,
        )
        (ap ok
          (simp (lib.put_slice_lem, put_split-wire, lib.put_u8_lem, lib.put_u16_lem, append_assoc)))

length-index_part : (b : Bool) (o : Option ℕ) → length (index_part b o) ≡ (if b then 3 else 0)
length-index_part true o = refl
length-index_part false o = refl

length-order_part :
    (b : Bool) (o : Option ℕ) (c : ℕ) → length (order_part b o c) ≡ (if b then 4 else 0)
length-order_part true o c = refl
length-order_part false o c = refl

length-split_part : (s : Option SplitInfo) → length (split_part s) ≡ (if is_some s then 10 else 0)
length-split_part none = refl
length-split_part (some s) = refl

ruleset parts_length = (length-append, length-index_part, length-order_part, length-split_part)

-- `encoded_size` is the number of bytes that `encode` appends.
pub encoded_size-wire : (f : Frame) → encoded_size f ≡ length (wire f)
unfolding encoded_size
encoded_size-wire f = simp parts_length (omega arith)

-- `encode` always succeeds, leaves what was in the buffer and appends `encoded_size` bytes.
pub encode-encoded_size :
    (lib : Buffer) (f : Frame) (buf : List ℕ)
    → (bytes : List ℕ) × (encode lib f buf ≡ ok (buf ++ bytes)) × (length bytes ≡ encoded_size f)
encode-encoded_size lib f buf = (wire f, encode-wire lib f buf, sym (encoded_size-wire f))
