-- ===== src/Protocol/Uint24/Bytes.antt =====
-- The two byte orders of a `u24`.
use raknet.Base.{
  ℕ, ◌+◌, ◌*◌, ◌/◌, ◌%◌, ◌^◌, ◌<◌, ◌≡◌, arith, bit_and, bit_or, refl, ok, List, [], ◌∷◌, ◌>>=◌,
  ◌++◌, ap,
}
use raknet.Base.Bits.{and-mask, or-fields, fields-or}
use raknet.Protocol.Uint24.{write_u24_le, read_u24_le, write_u24_be, read_u24_be}
use raknet.Protocol.Uint24.Laws.{IsU24, new_of_IsU24}

abbrev pub IsByte : ℕ → Type 0
IsByte b = b < 256

low_byte : (v : ℕ) → bit_and v 0xFF ≡ v % 256
low_byte v = and-mask 8 v

-- The three bytes of a number, lowest first.
abbrev pub le_bytes : ℕ → List ℕ
le_bytes v = v % 256 ∷ v / 2 ^ 8 % 256 ∷ v / 2 ^ 16 % 256 ∷ []

pub write_u24_le-bytes :
    (b0 b1 b2 : ℕ) (rest : List ℕ) (v : ℕ)
    → write_u24_le (b0 ∷ b1 ∷ b2 ∷ rest) v ≡ ok (le_bytes v ++ rest)
unfolding write_u24_le
write_u24_le-bytes b0 b1 b2 rest v =
    rw (low_byte v, low_byte (v / 2 ^ 8), low_byte (v / 2 ^ 16)) refl

three_fields :
    (a b c : ℕ)
    → IsByte a
    → IsByte b
    → bit_or (bit_or a (b * 2 ^ 8)) (c * 2 ^ 16) ≡ a + b * 2 ^ 8 + c * 2 ^ 16
three_fields a b c ha hb = ground (arith, or-fields 8 b a, or-fields 16 c (a + b * 2 ^ 8))

-- Reading three bytes is their value in base 256, the first byte the lowest.
pub read_u24_le-value :
    (a b c : ℕ) (rest : List ℕ)
    → IsByte a
    → IsByte b
    → IsByte c
    → read_u24_le (a ∷ b ∷ c ∷ rest) ≡ ok (a + b * 2 ^ 8 + c * 2 ^ 16)
unfolding read_u24_le
read_u24_le-value a b c rest ha hb hc =
    rw (three_fields a b c ha hb)
      (rw (new_of_IsU24 (a + b * 2 ^ 8 + c * 2 ^ 16) (omega arith)) refl)

pub read_u24_le-le_bytes :
    (v : ℕ) (rest : List ℕ) → IsU24 v → read_u24_le (le_bytes v ++ rest) ≡ ok v
read_u24_le-le_bytes v rest h =
    rw
      (read_u24_le-value (v % 256) (v / 2 ^ 8 % 256) (v / 2 ^ 16 % 256) rest (omega arith)
        (omega arith) (omega arith))
      (ap ok (omega arith))

-- A 24-bit number that `write_u24_le` stores at the front of a buffer of three bytes or more is read
-- back by `read_u24_le`.
pub read_u24_le-write_u24_le :
    (b0 b1 b2 : ℕ) (rest : List ℕ) (v : ℕ)
    → IsU24 v
    → (write_u24_le (b0 ∷ b1 ∷ b2 ∷ rest) v >>= read_u24_le) ≡ ok v
read_u24_le-write_u24_le b0 b1 b2 rest v h =
    rw (write_u24_le-bytes b0 b1 b2 rest v) (read_u24_le-le_bytes v rest h)

pub read_u24_be-value :
    (a b c : ℕ) (rest : List ℕ)
    → IsByte a
    → IsByte b
    → IsByte c
    → read_u24_be (a ∷ b ∷ c ∷ rest) ≡ ok (a * 2 ^ 16 + b * 2 ^ 8 + c)
unfolding read_u24_be
read_u24_be-value a b c rest ha hb hc =
    rw (be_fields) (rw (new_of_IsU24 (a * 2 ^ 16 + b * 2 ^ 8 + c) (omega arith)) refl)
  where
    be_fields : bit_or (bit_or (a * 2 ^ 16) (b * 2 ^ 8)) c ≡ a * 2 ^ 16 + b * 2 ^ 8 + c
    be_fields = ground (arith, fields-or 16 a (b * 2 ^ 8), fields-or 8 (a * 2 ^ 8 + b) c)

-- A 24-bit number that `write_u24_be` stores at the front of a buffer of three bytes or more is read
-- back by `read_u24_be`.
pub read_u24_be-write_u24_be :
    (b0 b1 b2 : ℕ) (rest : List ℕ) (v : ℕ)
    → IsU24 v
    → (write_u24_be (b0 ∷ b1 ∷ b2 ∷ rest) v >>= read_u24_be) ≡ ok v
unfolding write_u24_be
read_u24_be-write_u24_be b0 b1 b2 rest v h =
    rw (low_byte v, low_byte (v / 2 ^ 8), low_byte (v / 2 ^ 16))
      (rw
        (read_u24_be-value (v / 2 ^ 16 % 256) (v / 2 ^ 8 % 256) (v % 256) rest (omega arith)
          (omega arith) (omega arith))
        (ap ok (omega arith)))
