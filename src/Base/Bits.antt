-- ===== src/Base/Bits.antt =====
-- `&` with a mask of low bits and `|` of disjoint fields, as arithmetic, and tables over one byte.
use Prim.Native.Nat.{
  ℕ, zero, suc, ◌+◌, ◌*◌, ◌/◌, ◌%◌, ◌^◌, ◌≤◌, ◌<◌, ◌-◌, min, max, bit_and, bit_or, digits, bitwise,
  bit_and-bitwise, bit_or-bitwise,
}
use mathlib.Core.Path.{◌≡◌, refl, ap}
use mathlib.Core.Bool.{Bool, true, ◌&&◌}
use native.Mathlib.Omega.{arith}
use native.Mathlib.Nat.{pow-suc, one-le-pow}

-- The fuel of the digit recursion does not matter once it covers the number.
module _ (z : ℕ → ℕ) (f : ℕ → ℕ → ℕ) where
  digits-fuel : (n m a b : ℕ) → a ≤ n → a ≤ m → digits z f n a b ≡ digits z f m a b
  digits-fuel zero zero zero b hn hm = refl
  digits-fuel zero zero (suc a) b hn hm = absurd (omega arith)
  digits-fuel zero (suc m) zero b hn hm = refl
  digits-fuel zero (suc m) (suc a) b hn hm = absurd (omega arith)
  digits-fuel (suc n) zero zero b hn hm = refl
  digits-fuel (suc n) zero (suc a) b hn hm = absurd (omega arith)
  digits-fuel (suc n) (suc m) zero b hn hm = refl
  digits-fuel (suc n) (suc m) (suc a) b hn hm =
      let inner = digits-fuel n m (suc a / 2) (b / 2) (omega arith) (omega arith) in rw inner

  bitwise-lowest :
      (u v : ℕ)
      → bitwise z f (suc u) v ≡ f (suc u % 2) (v % 2) + 2 * bitwise z f (suc u / 2) (v / 2)
  bitwise-lowest u v =
      omega (arith, digits-fuel u (suc u / 2) (suc u / 2) (v / 2) (omega arith) (omega arith))

and-lowest : (a b : ℕ) → bit_and a b ≡ bit_and (a / 2) (b / 2) * 2 + min (a % 2) (b % 2)
and-lowest zero b = simp bit_and-bitwise (omega arith)
and-lowest (suc a) b = simp bit_and-bitwise (omega (arith, bitwise-lowest (λ y. 0) min a b))

or-lowest : (a b : ℕ) → bit_or a b ≡ bit_or (a / 2) (b / 2) * 2 + max (a % 2) (b % 2)
or-lowest zero b = simp bit_or-bitwise (omega arith)
or-lowest (suc a) b = simp bit_or-bitwise (omega (arith, bitwise-lowest (λ y. y) max a b))

zero-or : (b : ℕ) → bit_or 0 b ≡ b
zero-or b = bit_or-bitwise 0 b

-- By recursion on a bound, since the step goes from `a / 2` to `a`.
and-zero_below : (bound a : ℕ) → a ≤ bound → bit_and a 0 ≡ 0
and-zero_below bound zero h = refl
and-zero_below zero (suc a) h = absurd (omega arith)
and-zero_below (suc bound) (suc a) h =
    omega (arith, and-lowest (suc a) 0, and-zero_below bound (suc a / 2) (omega arith))

or-zero_below : (bound a : ℕ) → a ≤ bound → bit_or a 0 ≡ a
or-zero_below bound zero h = refl
or-zero_below zero (suc a) h = absurd (omega arith)
or-zero_below (suc bound) (suc a) h =
    omega (arith, or-lowest (suc a) 0, or-zero_below bound (suc a / 2) (omega arith))

double_pow : (k q : ℕ) → q * 2 ^ suc k ≡ 2 * (q * 2 ^ k)
double_pow k q = omega (arith, ap (λ (t : ℕ). q * t) (pow-suc 2 k))

-- `a & (2 ^ k - 1)` keeps the low `k` bits.
and-mask_fields : (k q r : ℕ) → r < 2 ^ k → bit_and (q * 2 ^ k + r) (2 ^ k - 1) ≡ r
and-mask_fields zero q r h =
    rw (and-zero_below (q * 2 ^ zero + r) (q * 2 ^ zero + r) (omega arith)) (omega arith)
and-mask_fields (suc k) q r h = ground (
  arith,
  and-lowest (q * 2 ^ suc k + r) (2 ^ suc k - 1),
  double_pow k q,
  pow-suc 2 k,
  and-mask_fields k q (r / 2) (omega (arith, pow-suc 2 k)),
)

pub and-mask : (k a : ℕ) → bit_and a (2 ^ k - 1) ≡ a % 2 ^ k
and-mask k a = ground (arith, one-le-pow k 2, and-mask_fields k (a / 2 ^ k) (a % 2 ^ k))

-- `r | (q << k)` is a sum when `r` fits `k` bits.
pub or-fields : (k q r : ℕ) → r < 2 ^ k → bit_or r (q * 2 ^ k) ≡ r + q * 2 ^ k
or-fields zero q r h = let none_left : r ≡ 0 = omega arith in rw (none_left, zero-or) (omega arith)
or-fields (suc k) q r h = ground (
  arith,
  or-lowest r (q * 2 ^ suc k),
  double_pow k q,
  or-fields k q (r / 2) (omega (arith, pow-suc 2 k)),
)

-- The same with the high field first.
pub fields-or : (k q r : ℕ) → r < 2 ^ k → bit_or (q * 2 ^ k) r ≡ q * 2 ^ k + r
fields-or zero q r h =
    let none_left : r ≡ 0 = omega arith in
    rw (none_left, or-zero_below (q * 2 ^ zero) (q * 2 ^ zero) (omega arith)) (omega arith)
fields-or (suc k) q r h = ground (
  arith,
  or-lowest (q * 2 ^ suc k) r,
  double_pow k q,
  fields-or k q (r / 2) (omega (arith, pow-suc 2 k)),
)

-- A fact about every byte is checked by evaluation.
unfoldable pub all_below : ℕ → (ℕ → Bool) → Bool
all_below zero test = true
all_below (suc top) test = test top && all_below top test

pub all_below_sound :
    (top : ℕ) (test : ℕ → Bool) (byte : ℕ)
    → byte < top
    → all_below top test ≡ true
    → test byte ≡ true
unfolding all_below
all_below_sound zero test byte under passed = absurd (omega arith)
all_below_sound (suc top) test byte under passed = ground (arith, all_below_sound top test byte)

and-one : (a : ℕ) → bit_and a 1 ≡ a % 2
and-one a = omega (arith, and-lowest a 1, and-zero_below (a / 2) (a / 2) (omega arith))

-- `a & (1 << k)` is the bit of weight `2 ^ k`.
and-bit_fields : (k q r : ℕ) → r < 2 ^ k → bit_and (q * 2 ^ k + r) (2 ^ k) ≡ q % 2 * 2 ^ k
and-bit_fields zero q r h = omega (arith, and-one (q * 2 ^ zero + r))
and-bit_fields (suc k) q r h = ground (
  arith,
  and-lowest (q * 2 ^ suc k + r) (2 ^ suc k),
  double_pow k q,
  double_pow k (q % 2),
  pow-suc 2 k,
  and-bit_fields k q (r / 2) (omega (arith, pow-suc 2 k)),
)

pub and-bit : (k a : ℕ) → bit_and a (2 ^ k) ≡ a / 2 ^ k % 2 * 2 ^ k
and-bit k a = ground (arith, one-le-pow k 2, and-bit_fields k (a / 2 ^ k) (a % 2 ^ k))
