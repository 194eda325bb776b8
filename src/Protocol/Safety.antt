-- ===== src/Protocol/Safety.antt =====
-- Reading from a buffer without running past its end: one rule for each way to build a decoder.
pub mod Messages
pub mod Login
pub mod Frames
pub mod Acks
pub mod All
mod Examples
use raknet.Base.{
  ℕ, zero, suc, ◌-◌, ◌*◌, ◌+◌, ◌≤◌, ◌≡◌, Bool, true, false, List, [], ◌∷◌, length, drop, take,
  length-drop, ltb, ltb_ge, leb, if◌then◌else◌, Result, ok, err, panic, Error, ◌>>=◌, ◌>>◌,
  reject_if, arith, sym, subst, Bool-cases, inl, inr, get_elem?, none, some,
}
use raknet.Protocol.Buffer.{Buffer, take_be, skip, split_at, slice_to}

-- The code does not panic, and what it returns is as said.
unfoldable pub Total {ℓ} : {A : Type ℓ} → (A → Type 0) → Result A → Type 0
Total P (ok a) = P a
Total P (err e) = Unit {0}
Total P panic = ⊥

pub Total-ok : {A : Type 0} (P : A → Type 0) (a : A) → P a → Total P (ok a)
unfolding Total
Total-ok P a p = p

pub Total-err : {A : Type 0} (P : A → Type 0) (e : Error) → Total P (err e)
unfolding Total
Total-err P e = tt

module _ {A B : Type 0} where
  pub Total-bind :
      (P : A → Type 0) (Q : B → Type 0) (r : Result A) (f : A → Result B)
      → Total P r
      → ((a : A) → P a → Total Q (f a))
      → Total Q (r >>= f)
  unfolding Total
  Total-bind P Q (ok a) f p k = k a p
  Total-bind P Q (err e) f p k = tt
  Total-bind P Q panic f p k = elim p [ ]

module _ {B : Type 0} where
  pub Total-reject :
      (Q : B → Type 0) (c : Bool) (e : Error) (k : Result B)
      → Total Q k
      → Total Q (reject_if c e >> k)
  unfolding Total
  Total-reject Q true e k h = tt
  Total-reject Q false e k h = h

  pub Total-enough :
      (Q : B → Type 0) (m n : ℕ) (e : Error) (k : Result B)
      → (n ≤ m → Total Q k)
      → Total Q (reject_if (ltb m n) e >> k)
  unfolding Total
  Total-enough Q m n e k h = elim (Bool-cases (ltb m n)) [
    | inl short ↦ rw short tt
    | inr enough ↦ rw enough (h (ground arith))
  ]

-- So many bytes are left.
abbrev pub Leaves {ℓ} : {A : Type ℓ} → ℕ → A × List ℕ → Type 0
Leaves n (a, rest) = length rest ≡ n

take_be-Total :
    (n acc : ℕ) (buf : List ℕ)
    → n ≤ length buf
    → Total (Leaves (length buf - n)) (take_be n acc buf)
unfolding Total
take_be-Total zero acc buf h = omega arith
take_be-Total (suc n) acc [] h = absurd (omega arith)
take_be-Total (suc n) acc (b ∷ rest) h =
    let less : length rest - n ≡ suc (length rest) - suc n = omega arith in
    subst (λ k. Total (Leaves k) (take_be n (acc * 256 + b) rest)) less
      (take_be-Total n (acc * 256 + b) rest (omega arith))

pub skip-Total :
    (n : ℕ) (buf : List ℕ)
    → n ≤ length buf
    → Total (λ rest. length rest ≡ length buf - n) (skip n buf)
unfolding Total
skip-Total n buf h = rw (ltb_ge (length buf) n h) (length-drop n buf)

pub slice_to-Total :
    (n : ℕ) (buf : List ℕ) → n ≤ length buf → Total (λ front. Unit {0}) (slice_to n buf)
unfolding Total
slice_to-Total n buf h = rw (ltb_ge (length buf) n h) tt

module _ (lib : Buffer) (buf : List ℕ) where
  pub Total-remaining :
      {B : Type 0} (Q : B → Type 0) (n : ℕ) (e : Error) (k : Result B)
      → (n ≤ length buf → Total Q k)
      → Total Q (reject_if (ltb (lib.remaining buf) n) e >> k)
  Total-remaining Q n e k h = rw (lib.remaining_lem buf) (Total-enough Q (length buf) n e k h)

-- Reading on behind each of the readers.
module _ (lib : Buffer) (buf : List ℕ) {B : Type 0} (Q : B → Type 0) where
  -- A read of `n` bytes, whose law says that it is `take_be`.
  read_then :
      (n : ℕ) (r : Result (ℕ × List ℕ)) (f : ℕ × List ℕ → Result B)
      → r ≡ take_be n 0 buf
      → n ≤ length buf
      → ((v : ℕ) (rest : List ℕ) → length rest ≡ length buf - n → Total Q (f (v, rest)))
      → Total Q (r >>= f)
  unfolding Total
  read_then n r f law h k =
      Total-bind (Leaves (length buf - n)) Q r f (rw law (take_be-Total n 0 buf h))
        (λ a e. k a.0 a.1 e)

  pub get_u8_then :
      (f : ℕ × List ℕ → Result B)
      → 1 ≤ length buf
      → ((v : ℕ) (rest : List ℕ) → length rest ≡ length buf - 1 → Total Q (f (v, rest)))
      → Total Q (lib.get_u8 buf >>= f)
  get_u8_then f = read_then 1 (lib.get_u8 buf) f (lib.get_u8_lem buf)

  pub get_u16_then :
      (f : ℕ × List ℕ → Result B)
      → 2 ≤ length buf
      → ((v : ℕ) (rest : List ℕ) → length rest ≡ length buf - 2 → Total Q (f (v, rest)))
      → Total Q (lib.get_u16 buf >>= f)
  get_u16_then f = read_then 2 (lib.get_u16 buf) f (lib.get_u16_lem buf)

  pub get_u32_then :
      (f : ℕ × List ℕ → Result B)
      → 4 ≤ length buf
      → ((v : ℕ) (rest : List ℕ) → length rest ≡ length buf - 4 → Total Q (f (v, rest)))
      → Total Q (lib.get_u32 buf >>= f)
  get_u32_then f = read_then 4 (lib.get_u32 buf) f (lib.get_u32_lem buf)

  pub get_i64_then :
      (f : ℕ × List ℕ → Result B)
      → 8 ≤ length buf
      → ((v : ℕ) (rest : List ℕ) → length rest ≡ length buf - 8 → Total Q (f (v, rest)))
      → Total Q (lib.get_i64 buf >>= f)
  get_i64_then f = read_then 8 (lib.get_i64 buf) f (lib.get_i64_lem buf)

  pub advance_then :
      (n : ℕ) (f : List ℕ → Result B)
      → n ≤ length buf
      → ((rest : List ℕ) → length rest ≡ length buf - n → Total Q (f rest))
      → Total Q (lib.advance n buf >>= f)
  unfolding Total
  advance_then n f h k =
      Total-bind (λ rest. length rest ≡ length buf - n) Q (lib.advance n buf) f
        (rw (lib.advance_lem n buf) (skip-Total n buf h)) k

  pub copy_to_slice_then :
      (n : ℕ) (f : List ℕ × List ℕ → Result B)
      → n ≤ length buf
      → ((front rest : List ℕ) → length rest ≡ length buf - n → Total Q (f (front, rest)))
      → Total Q (lib.copy_to_slice n buf >>= f)
  unfolding Total
  copy_to_slice_then n f h k =
      Total-bind (Leaves (length buf - n)) Q (lib.copy_to_slice n buf) f
        (rw (lib.copy_to_slice_lem n buf) (rw (ltb_ge (length buf) n h) (length-drop n buf)))
        (λ a e. k a.0 a.1 e)
