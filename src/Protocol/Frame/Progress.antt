-- ===== src/Protocol/Frame/Progress.antt =====
-- protocol/frame.rs: `Frame::decode` takes bytes off the buffer.
use raknet.Base.{
  ℕ, zero, suc, ◌+◌, ◌*◌, ◌-◌, ◌/◌, ◌^◌, ◌≤◌, ◌≡◌, bit_and, not, ◌==◌, Bool, true, false, Option,
  none, some, List, [], ◌∷◌, length, drop, length-drop, ltb, if◌then◌else◌, Result, ok, err, panic,
  ◌>>=◌, ◌>>◌, reject_if, Error, arith, subst, sym,
}
use raknet.Protocol.Buffer.{Buffer, take_be, skip, slice_to}
use raknet.Protocol.Uint24.{read_u24_le}
use raknet.Reliability.Levels.{Reliability, from_u8, is_reliable, is_sequenced, is_ordered}
use raknet.Protocol.Frame.{
  Frame, SplitInfo, read_index, get_message_index, get_sequence_index, get_order, get_split,
  length_in_bytes, decode_fields, decode_level, decode,
}

-- What holds of the value of a result, if it has one.
abbrev pub Holds {ℓ} : {A : Type ℓ} → (A → Type 0) → Result A → Type 0
Holds P (ok a) = P a
Holds P (err e) = Unit {0}
Holds P panic = Unit {0}

any_value : {A : Type 0} (r : Result A) → Holds (λ _. Unit {0}) r
any_value (ok a) = tt
any_value (err e) = tt
any_value panic = tt

after :
    {A B : Type 0} (P : A → Type 0) (Q : B → Type 0) (r : Result A) (f : A → Result B)
    → Holds P r
    → ((a : A) → P a → Holds Q (f a))
    → Holds Q (r >>= f)
after P Q (ok a) f p k = k a p
after P Q (err e) f p k = tt
after P Q panic f p k = tt

after_test :
    {B : Type 0} (Q : B → Type 0) (c : Bool) (e : Error) (k : Result B)
    → Holds Q k
    → Holds Q (reject_if c e >> k)
after_test Q true e k h = tt
after_test Q false e k h = h

-- At most `n` bytes are left.
abbrev Leaves {ℓ} : {A : Type ℓ} → ℕ → A × List ℕ → Type 0
Leaves n (a, rest) = length rest ≤ n

relax :
    {A : Type 0} (m n : ℕ)
    → m ≤ n
    → (r : Result (A × List ℕ)) → Holds (Leaves m) r
    → Holds (Leaves n) r
relax m n h (ok (a, rest)) k = omega (arith, k)
relax m n h (err e) k = tt
relax m n h panic k = tt

take_be-Leaves : (n acc : ℕ) (buf : List ℕ) → Holds (Leaves (length buf - n)) (take_be n acc buf)
take_be-Leaves zero acc buf = omega arith
take_be-Leaves (suc n) acc [] = tt
take_be-Leaves (suc n) acc (b ∷ rest) =
    subst (λ k. Holds (Leaves k) (take_be n (acc * 256 + b) rest)) (omega arith)
      (take_be-Leaves n (acc * 256 + b) rest)

skip-Holds : (n : ℕ) (buf : List ℕ) → Holds (λ rest. length rest ≤ length buf) (skip n buf)
skip-Holds n buf =
    elim (ltb (length buf) n)
      as (λ c. Holds (λ rest. length rest ≤ length buf) (if c then panic else ok (drop n buf))) [
        | true ↦ tt
        | false ↦ omega (arith, length-drop n buf)
      ]

module _ (lib : Buffer) where
  get_u8-Leaves : (buf : List ℕ) → Holds (Leaves (length buf - 1)) (lib.get_u8 buf)
  get_u8-Leaves buf =
      subst (Holds (Leaves (length buf - 1))) (sym (lib.get_u8_lem buf)) (take_be-Leaves 1 0 buf)

  get_u16-Leaves : (buf : List ℕ) → Holds (Leaves (length buf)) (lib.get_u16 buf)
  get_u16-Leaves buf =
      relax (length buf - 2) (length buf) (omega arith) (lib.get_u16 buf) (
        subst (Holds (Leaves (length buf - 2))) (sym (lib.get_u16_lem buf))
          (take_be-Leaves 2 0 buf))

  get_u32-Leaves : (buf : List ℕ) → Holds (Leaves (length buf)) (lib.get_u32 buf)
  get_u32-Leaves buf =
      relax (length buf - 4) (length buf) (omega arith) (lib.get_u32 buf) (
        subst (Holds (Leaves (length buf - 4))) (sym (lib.get_u32_lem buf))
          (take_be-Leaves 4 0 buf))

  advance-Holds :
      (n : ℕ) (buf : List ℕ) → Holds (λ rest. length rest ≤ length buf) (lib.advance n buf)
  advance-Holds n buf =
      subst (Holds (λ rest. length rest ≤ length buf)) (sym (lib.advance_lem n buf))
        (skip-Holds n buf)

  -- A read that is followed by `advance`, and the fields behind the flags.
  advance_then :
      {A B : Type 0} (r : Result A) (n : ℕ) (buf : List ℕ) (value : A → B)
      → Holds (Leaves (length buf)) (r >>= λ a. lib.advance n buf >>= λ rest. ok (value a, rest))
  advance_then r n buf value =
      after (λ _. Unit {0}) (Leaves (length buf)) r
        (λ a. lib.advance n buf >>= λ rest. ok (value a, rest)) (any_value r)
        λ a _.
          after (λ rest. length rest ≤ length buf) (Leaves (length buf)) (lib.advance n buf)
            (λ rest. ok (value a, rest)) (advance-Holds n buf) λ rest h. h

  get_message_index-Leaves :
      (present : Bool) (buf : List ℕ)
      → Holds (Leaves (length buf)) (get_message_index lib present buf)
  unfolding get_message_index
  get_message_index-Leaves false buf = omega arith
  get_message_index-Leaves true buf =
      after_test (Leaves (length buf)) _ _ (read_index lib buf)
        (advance_then (read_u24_le buf) 3 buf some)

  get_sequence_index-Leaves :
      (present : Bool) (buf : List ℕ)
      → Holds (Leaves (length buf)) (get_sequence_index lib present buf)
  unfolding get_sequence_index
  get_sequence_index-Leaves false buf = omega arith
  get_sequence_index-Leaves true buf =
      after_test (Leaves (length buf)) _ _ (read_index lib buf)
        (advance_then (read_u24_le buf) 3 buf some)

  get_order-Leaves :
      (present : Bool) (buf : List ℕ)
      → Holds (λ (r : Option ℕ × ℕ × List ℕ). length r.2 ≤ length buf) (get_order lib present buf)
  unfolding get_order
  get_order-Leaves false buf = omega arith
  get_order-Leaves true buf =
      let Left : Option ℕ × ℕ × List ℕ → Type 0 = λ r. length r.2 ≤ length buf in
      after_test Left _ _ _ (
        after (λ _. Unit {0}) Left (read_u24_le buf) _ (any_value (read_u24_le buf))
          λ index _.
            after (λ rest. length rest ≤ length buf) Left (lib.advance 3 buf) _
              (advance-Holds 3 buf)
              λ rest h.
                after (Leaves (length rest - 1)) Left (lib.get_u8 rest) _ (get_u8-Leaves rest)
                  λ (c, b2) k. omega (arith, h, k))

  get_split-Leaves :
      (present : Bool) (buf : List ℕ) → Holds (Leaves (length buf)) (get_split lib present buf)
  unfolding get_split
  get_split-Leaves false buf = omega arith
  get_split-Leaves true buf =
      let Left : Option SplitInfo × List ℕ → Type 0 = Leaves (length buf) in
      after_test Left _ _ _ (
        after (Leaves (length buf)) Left (lib.get_u32 buf) _ (get_u32-Leaves buf) λ (count, b1) h1.
          after (Leaves (length b1)) Left (lib.get_u16 b1) _ (get_u16-Leaves b1) λ (id, b2) h2.
            after (Leaves (length b2)) Left (lib.get_u32 b2) _ (get_u32-Leaves b2)
              λ (index, b3) h3. omega (arith, h1, h2, h3))

  decode_fields-Leaves :
      (reliability : Reliability) (split_flag : Bool) (buf : List ℕ)
      → Holds (Leaves (length buf)) (decode_fields lib reliability split_flag buf)
  unfolding decode_fields
  decode_fields-Leaves reliability split_flag buf =
      let Left : Frame × List ℕ → Type 0 = Leaves (length buf) in
      after (Leaves (length buf)) Left (lib.get_u16 buf) _ (get_u16-Leaves buf) λ (bits, b1) h1.
        after (λ _. Unit {0}) Left (length_in_bytes bits) _ (any_value (length_in_bytes bits))
          λ bytes _.
            after (Leaves (length b1)) Left (get_message_index lib (is_reliable reliability) b1) _
              (get_message_index-Leaves (is_reliable reliability) b1)
              λ (m, b2) h2.
                after (Leaves (length b2)) Left
                  (get_sequence_index lib (is_sequenced reliability) b2) _
                  (get_sequence_index-Leaves (is_sequenced reliability) b2)
                  λ (s, b3) h3.
                    after (λ (r : Option ℕ × ℕ × List ℕ). length r.2 ≤ length b3) Left
                      (get_order lib (is_ordered reliability) b3) _
                      (get_order-Leaves (is_ordered reliability) b3)
                      λ (o, c, b4) h4.
                        after (Leaves (length b4)) Left (get_split lib split_flag b4) _
                          (get_split-Leaves split_flag b4)
                          λ (p, b5) h5. after_test Left _ _ _ (
                            after (λ _. Unit {0}) Left (slice_to bytes b5) _
                              (any_value (slice_to bytes b5))
                              λ payload _.
                                after (λ rest. length rest ≤ length b5) Left (lib.advance bytes b5)
                                  _ (advance-Holds bytes b5)
                                  λ rest h6. omega (arith, h1, h2, h3, h4, h5, h6))

  decode_level-Leaves :
      (level : Option Reliability) (bits : ℕ) (split_flag : Bool) (buf : List ℕ)
      → Holds (Leaves (length buf)) (decode_level lib level bits split_flag buf)
  unfolding decode_level
  decode_level-Leaves none bits split_flag buf = tt
  decode_level-Leaves (some reliability) bits split_flag buf =
      decode_fields-Leaves reliability split_flag buf

  -- What is left of a buffer when a frame was decoded is shorter than the buffer.
  pub decode-Leaves :
      (byte : ℕ) (buf : List ℕ) → Holds (Leaves (length buf)) (decode lib (byte ∷ buf))
  unfolding decode
  decode-Leaves byte buf = after_test (Leaves (length buf)) _ _ _ (
      after (Leaves (length (byte ∷ buf) - 1)) (Leaves (length buf)) (lib.get_u8 (byte ∷ buf)) _
        (get_u8-Leaves (byte ∷ buf))
        λ (flags, b1) h1. relax (length b1) (length buf) (omega (arith, h1)) _ (
          decode_level-Leaves (from_u8 (bit_and (flags / 2 ^ 5) 0b111))
            (bit_and (flags / 2 ^ 5) 0b111) (not (bit_and flags 0b0001_0000 == 0)) b1))

  pub decode_shorter :
      (byte : ℕ) (buf rest : List ℕ) (f : Frame)
      → decode lib (byte ∷ buf) ≡ ok (f, rest)
      → length rest ≤ length buf
  decode_shorter byte buf rest f e = subst (Holds (Leaves (length buf))) e (decode-Leaves byte buf)
