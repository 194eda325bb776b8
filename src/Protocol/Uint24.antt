-- ===== src/Protocol/Uint24.antt =====
-- protocol/uint24.rs: the 24-bit counter type, its atomic cell, its byte orders and the sequence
-- comparisons. A `u24` is the `u32` that it holds; `new` keeps the low 24 bits. Plain `+` on `u32`
-- panics where it overflows (the `overflow-checks` of a debug build).
pub mod Laws
pub mod Bytes
pub mod Sequence
pub mod Atomic
mod Examples
use raknet.Base.{
  ℕ, ◌+◌, ◌-◌, ◌*◌, ◌/◌, ◌%◌, ◌^◌, bit_and, bit_or, Bool, true, false, Option, none, some, List, [],
  ◌∷◌, ltb, leb, ◌==◌, not, ◌&&◌, ◌||◌, if◌then◌else◌, get_elem?, set, Result, ok, err, panic,
  ◌>>=◌,
}

-- `u24::MASK` and the value of `u24::MAX`.
abbrev pub mask : ℕ
mask = 0x00FFFFFF

abbrev pub u32_mod : ℕ
u32_mod = 2 ^ 32

-- `u32::wrapping_add`, `u32::wrapping_sub`, `u32::saturating_add` of the standard library.
abbrev pub wrapping_add32 : ℕ → ℕ → ℕ
wrapping_add32 a b = (a + b) % u32_mod

abbrev pub wrapping_sub32 : ℕ → ℕ → ℕ
wrapping_sub32 a b = (a + u32_mod - b) % u32_mod

abbrev pub saturating_add32 : ℕ → ℕ → ℕ
saturating_add32 a b = if ltb (a + b) u32_mod then a + b else u32_mod - 1

unfoldable pub new : ℕ → ℕ
new val = bit_and val mask

unfoldable pub wrapping_add : ℕ → ℕ → ℕ
wrapping_add self rhs = new (wrapping_add32 self rhs)

unfoldable pub wrapping_sub : ℕ → ℕ → ℕ
wrapping_sub self rhs = new (wrapping_sub32 self rhs)

-- `self.0 + rhs` is a checked addition of `u32`.
pub checked_add : ℕ → ℕ → Result (Option ℕ)
checked_add self rhs =
    if leb u32_mod (self + rhs)
    then panic
    else ok (if ltb mask (self + rhs) then none else some (self + rhs))

pub checked_sub : ℕ → ℕ → Option ℕ
checked_sub self rhs = if ltb self rhs then none else some (self - rhs)

pub saturating_add : ℕ → ℕ → ℕ
saturating_add self rhs =
    let result = saturating_add32 self rhs in if ltb mask result then mask else result

-- `u32::saturating_sub` stops at 0, as `-` does.
pub saturating_sub : ℕ → ℕ → ℕ
saturating_sub self rhs = self - rhs

-- A write or read past the end of the slice panics.
unfoldable pub write_u24_le : List ℕ → ℕ → Result (List ℕ)
write_u24_le (b0 ∷ b1 ∷ b2 ∷ rest) v =
    ok (bit_and v 0xFF ∷ bit_and (v / 2 ^ 8) 0xFF ∷ bit_and (v / 2 ^ 16) 0xFF ∷ rest)
write_u24_le buf v = panic

unfoldable pub read_u24_le : List ℕ → Result ℕ
read_u24_le (b0 ∷ b1 ∷ b2 ∷ rest) = ok (new (bit_or (bit_or b0 (b1 * 2 ^ 8)) (b2 * 2 ^ 16)))
read_u24_le buf = panic

pub write_u24_be : List ℕ → ℕ → Result (List ℕ)
write_u24_be (b0 ∷ b1 ∷ b2 ∷ rest) v =
    ok (bit_and (v / 2 ^ 16) 0xFF ∷ bit_and (v / 2 ^ 8) 0xFF ∷ bit_and v 0xFF ∷ rest)
write_u24_be buf v = panic

pub read_u24_be : List ℕ → Result ℕ
read_u24_be (b0 ∷ b1 ∷ b2 ∷ rest) = ok (new (bit_or (bit_or (b0 * 2 ^ 16) (b1 * 2 ^ 8)) b2))
read_u24_be buf = panic

-- `signed_diff < 0` for the `i32` of a `u32` pattern: its top bit is set.
abbrev pub is_negative32 : ℕ → Bool
is_negative32 w = leb (2 ^ 31) w

unfoldable pub seq_less_than : ℕ → ℕ → Bool
seq_less_than a b =
    let diff = bit_and (wrapping_sub32 a b) 0x00FFFFFF in
    let signed_diff = if not (bit_and diff 0x00800000 == 0) then bit_or diff 0xFF000000 else diff in
    is_negative32 signed_diff

pub seq_in_range : ℕ → ℕ → ℕ → Bool
seq_in_range seq start end =
    if leb start end then leb start seq && leb seq end else leb start seq || leb seq end
