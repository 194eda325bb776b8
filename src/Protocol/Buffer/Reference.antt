-- ===== src/Protocol/Buffer/Reference.antt =====
-- Big-endian numbers at the end and at the front of a byte list.
use raknet.Base.{
  ℕ, zero, suc, ◌+◌, ◌*◌, ◌/◌, ◌%◌, ◌^◌, ◌<◌, ◌≡◌, List, [], ◌∷◌, ◌++◌, Result, ok, panic, All,
  arith, length, ap₂, take, drop, take-append, drop-append, ltb, ltb_ge, length-append,
  if◌then◌else◌, refl, ap, ◌∙◌,
}
use native.Mathlib.Nat.{pow-suc, div-add-mod, div-div-eq-div-mul}

-- The lowest `n` bytes of a number, highest first.
abbrev pub be_bytes : ℕ → ℕ → List ℕ
be_bytes zero v = []
be_bytes (suc n) v = v / 256 ^ n % 256 ∷ be_bytes n v

-- Reads `n` more bytes behind the number read so far; past the end of the buffer that panics.
abbrev pub take_be : ℕ → ℕ → List ℕ → Result (ℕ × List ℕ)
take_be zero acc buf = ok (acc, buf)
take_be (suc n) acc [] = panic
take_be (suc n) acc (b ∷ rest) = take_be n (acc * 256 + b) rest

abbrev pub split_at : ℕ → List ℕ → Result (List ℕ × List ℕ)
split_at n buf = if ltb (length buf) n then panic else ok (take n buf, drop n buf)

abbrev pub skip : ℕ → List ℕ → Result (List ℕ)
skip n buf = if ltb (length buf) n then panic else ok (drop n buf)

-- `&buf[..n]`, which panics if the slice is shorter.
abbrev pub slice_to : ℕ → List ℕ → Result (List ℕ)
slice_to n buf = if ltb (length buf) n then panic else ok (take n buf)

abbrev pub IsBytes : List ℕ → Type 0
IsBytes = All (λ b. b < 256)

pub be_bytes-IsBytes : (n v : ℕ) → IsBytes (be_bytes n v)
be_bytes-IsBytes zero v = tt
be_bytes-IsBytes (suc n) v = (omega arith, be_bytes-IsBytes n v)

pub length-be_bytes : (n v : ℕ) → length (be_bytes n v) ≡ n
length-be_bytes zero v = refl
length-be_bytes (suc n) v = ap suc (length-be_bytes n v)

-- One digit in base 256 split off, for the power `p` that the digits below it fill.
digit_above :
    (p v acc : ℕ) → (acc * 256 + v / p % 256) * p + v % p ≡ acc * (p * 256) + v % (p * 256)
digit_above p v acc = omega (
  arith,
  div-add-mod v p,
  ap (λ (t : ℕ). p * t) (div-add-mod (v / p) 256),
  div-add-mod v (p * 256),
  ap (λ (t : ℕ). p * 256 * t) (div-div-eq-div-mul v p 256),
)

-- One number read back, at any width.
pub take_be-be_bytes :
    (n v acc : ℕ) (rest : List ℕ)
    → take_be n acc (be_bytes n v ++ rest) ≡ ok (acc * 256 ^ n + v % 256 ^ n, rest)
take_be-be_bytes zero v acc rest = ap (λ (k : ℕ). ok (k, rest)) (omega arith)
take_be-be_bytes (suc n) v acc rest =
    take_be-be_bytes n v (acc * 256 + v / 256 ^ n % 256) rest
    ∙ ap (λ (k : ℕ). ok (k, rest)) (rw (pow-suc 256 n) (digit_above (256 ^ n) v acc))

-- Skipping a known front leaves what follows it.
pub skip-append : (xs rest : List ℕ) → skip (length xs) (xs ++ rest) ≡ ok rest
skip-append xs rest =
    rw (ltb_ge (length (xs ++ rest)) (length xs) (omega (arith, length-append xs rest)))
      (ap ok (drop-append xs rest))

pub slice_to-append : (xs rest : List ℕ) → slice_to (length xs) (xs ++ rest) ≡ ok xs
slice_to-append xs rest =
    rw (ltb_ge (length (xs ++ rest)) (length xs) (omega (arith, length-append xs rest)))
      (ap ok (take-append xs rest))

pub split_at-append : (xs rest : List ℕ) → split_at (length xs) (xs ++ rest) ≡ ok (xs, rest)
split_at-append xs rest =
    rw (ltb_ge (length (xs ++ rest)) (length xs) (omega (arith, length-append xs rest)))
      (ap₂ (λ front back. ok (front, back)) (take-append xs rest) (drop-append xs rest))
