-- ===== src/Protocol/Frame/Leading.antt =====
-- protocol/frame.rs: what `Frame::decode` makes of some first bytes.
use raknet.Base.{
  ℕ, ◌/◌, ◌^◌, ◌≤◌, ◌<◌, ◌≡◌, bit_and, List, [], ◌∷◌, length, ok, err, invalid_packet, arith, refl,
  ap, ◌∙◌, ltb_ge,
}
use raknet.Base.Bits.{and-mask, and-bit}
use raknet.Protocol.Buffer.{Buffer, slice_to}
use raknet.Protocol.Reads.{has_remaining}
use raknet.Reliability.Levels.{
  unreliable, from_u8, from_u8-to_u8, is_reliable, is_sequenced, is_ordered,
}
use raknet.Protocol.Frame.{
  new, length_in_bytes, get_message_index, get_sequence_index, get_order, get_split, decode_fields,
  decode,
}

module _ (lib : Buffer) where
  first_byte : (b : ℕ) (rest : List ℕ) → lib.get_u8 (b ∷ rest) ≡ ok (b, rest)
  first_byte b rest = lib.get_u8_lem (b ∷ rest) ∙ ap (λ (n : ℕ). ok (n, rest)) (omega arith)

  -- No level has a number above 4, so a first byte of 160 or more is refused.
  pub decode_invalid_level :
      (b0 b1 b2 : ℕ) (rest : List ℕ)
      → b0 < 256
      → 160 ≤ b0
      → decode lib (b0 ∷ b1 ∷ b2 ∷ rest)
        ≡ err (invalid_packet "Invalid reliability: {}" (b0 / 32 ∷ []))
  unfolding decode
  decode_invalid_level b0 b1 b2 rest h above =
      let level : bit_and (b0 / 2 ^ 5) 0b111 ≡ b0 / 32 = omega (arith, and-mask 3 (b0 / 2 ^ 5)) in
      rw (ltb_ge (length (b0 ∷ b1 ∷ b2 ∷ rest)) 3 (omega arith), first_byte b0 (b1 ∷ b2 ∷ rest))
        (rw (level, (from_u8-to_u8 unreliable (b0 / 32) (omega arith)).1) refl)

  -- A first byte below 16 and two zero bytes are an empty unreliable frame.
  pub decode_empty :
      (b0 : ℕ) (rest : List ℕ)
      → b0 < 16
      → decode lib (b0 ∷ 0 ∷ 0 ∷ rest) ≡ ok (new unreliable [], rest)
  unfolding decode from_u8 decode_fields new length_in_bytes get_message_index get_sequence_index
      get_order get_split is_reliable is_sequenced is_ordered
  decode_empty b0 rest h =
      let level : bit_and (b0 / 2 ^ 5) 0b111 ≡ 0 = omega (arith, and-mask 3 (b0 / 2 ^ 5)) in
      let no_split : bit_and b0 0b0001_0000 ≡ 0 = omega (arith, and-bit 4 b0) in
      let no_length : lib.get_u16 (0 ∷ 0 ∷ rest) ≡ ok (0, rest) = lib.get_u16_lem (0 ∷ 0 ∷ rest) in
      let nothing : slice_to 0 rest ≡ ok [] = rw (ltb_ge (length rest) 0 (omega arith)) refl in
      let stays : lib.advance 0 rest ≡ ok rest =
        lib.advance_lem 0 rest ∙ rw (ltb_ge (length rest) 0 (omega arith)) refl in
      rw (ltb_ge (length (b0 ∷ 0 ∷ 0 ∷ rest)) 3 (omega arith), first_byte b0 (0 ∷ 0 ∷ rest))
        (rw (level, no_split)
          (rw no_length (rw (has_remaining lib 0 rest (omega arith), nothing, stays) refl)))
