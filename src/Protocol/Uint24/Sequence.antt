-- ===== src/Protocol/Uint24/Sequence.antt =====
-- `seq_less_than` compares on the circle of 2 ^ 24 numbers, and `seq_in_range` is an arc of it.
use raknet.Base.{
  ℕ, ◌+◌, ◌-◌, ◌%◌, ◌^◌, ◌≡◌, ◌≢◌, arith, bit_and, bit_or, refl, false, ltb, leb, ◌==◌,
  if◌then◌else◌, not, ◌&&◌, ◌||◌,
}
use raknet.Base.Bits.{and-mask, or-fields, and-bit}
use raknet.Protocol.Uint24.{wrapping_sub32, is_negative32, seq_less_than, seq_in_range}
use raknet.Protocol.Uint24.Laws.{IsU24, u24_mod}

-- How far `b` lies ahead of `a`, going up and round at 2 ^ 24.
abbrev pub ahead : ℕ → ℕ → ℕ
ahead a b = (b + u24_mod - a) % u24_mod

pub masked_difference :
    (a b : ℕ) → IsU24 a → IsU24 b → bit_and (wrapping_sub32 a b) 0x00FFFFFF ≡ ahead b a
masked_difference a b ha hb = omega (arith, and-mask 24 (wrapping_sub32 a b))

signed_test :
    (d : ℕ)
    → IsU24 d
    → is_negative32 (if not (bit_and d 0x00800000 == 0) then bit_or d 0xFF000000 else d)
      ≡ leb (2 ^ 23) d
signed_test d h = ground (arith, and-bit 23 d, or-fields 24 0xFF d)

-- `seq_less_than` asks whether the second number is ahead of the first by at most half the circle.
pub seq_less_than-ahead :
    (a b : ℕ)
    → IsU24 a
    → IsU24 b
    → seq_less_than a b ≡ (ltb 0 (ahead a b) && leb (ahead a b) (2 ^ 23))
unfolding seq_less_than
seq_less_than-ahead a b ha hb =
    rw (masked_difference a b ha hb) (rw (signed_test (ahead b a) (omega arith)) (ground arith))

-- Of 24-bit numbers: one that is `k` steps further on is greater in sequence order exactly for 1 ≤ k ≤ 2 ^ 23,
-- wherever the count wraps.
pub seq_less_than-advance :
    (a k : ℕ)
    → IsU24 a
    → IsU24 k
    → seq_less_than a ((a + k) % u24_mod) ≡ (ltb 0 k && leb k (2 ^ 23))
seq_less_than-advance a k ha hk =
    rw (seq_less_than-ahead a ((a + k) % u24_mod) ha (omega arith)) (rw distance refl)
  where
    distance : ahead a ((a + k) % u24_mod) ≡ k
    distance = omega arith

-- Of 24-bit numbers: no number is less than itself. Of two different numbers exactly one is less than the other, unless
-- they are half a circle apart: then each is less than the other.
pub seq_less_than_trichotomy :
    (a b : ℕ)
    → IsU24 a
    → IsU24 b
    → a ≢ b
    → (seq_less_than a a ≡ false)
      × (seq_less_than a b ≡ (not (seq_less_than b a) || ahead a b == 2 ^ 23))
seq_less_than_trichotomy a b ha hb apart = (
  rw (seq_less_than-ahead a a ha ha) (ground arith),
  rw (seq_less_than-ahead a b ha hb, seq_less_than-ahead b a hb ha) (ground arith),
)

-- Of 24-bit numbers: `seq_in_range` accepts those that are reached from `start` before `end` is passed.
pub seq_in_range-ahead :
    (seq start end : ℕ)
    → IsU24 seq
    → IsU24 start
    → IsU24 end
    → seq_in_range seq start end ≡ leb (ahead start seq) (ahead start end)
unfolding seq_in_range
seq_in_range-ahead seq start end hs ha he = ground arith
