-- ===== src/Protocol/Magic.antt =====
-- protocol/magic.rs: the constant that marks the packets outside a connection.
use raknet.Base.{
  ℕ, ◌+◌, ◌≡◌, Bool, true, false, ◌&&◌, List, [], ◌∷◌, ◌++◌, ltb, ◌==◌, if◌then◌else◌, length, take,
  drop, arith, ltb_ge, length-append, refl,
}

abbrev pub magic : List ℕ
magic =
    0x00 ∷ 0xff ∷ 0xff ∷ 0x00 ∷ 0xfe ∷ 0xfe ∷ 0xfe ∷ 0xfe ∷ 0xfd ∷ 0xfd ∷ 0xfd ∷ 0xfd ∷ 0x12 ∷ 0x34
    ∷ 0x56 ∷ 0x78 ∷ []

-- `==` of slices.
abbrev pub same_bytes : List ℕ → List ℕ → Bool
same_bytes [] [] = true
same_bytes [] (y ∷ ys) = false
same_bytes (x ∷ xs) [] = false
same_bytes (x ∷ xs) (y ∷ ys) = x == y && same_bytes xs ys

unfoldable pub check_magic : List ℕ → ℕ → Bool
check_magic buf offset =
    if ltb (length buf) (offset + length magic)
    then false
    else same_bytes (take (length magic) (drop offset buf)) magic

drop-front : (front rest : List ℕ) → drop (length front) (front ++ rest) ≡ rest
drop-front [] rest = refl
drop-front (x ∷ front) rest = drop-front front rest

pub check_magic-append :
    (front rest : List ℕ) → check_magic (front ++ (magic ++ rest)) (length front) ≡ true
unfolding check_magic
check_magic-append front rest =
    rw
      (
        ltb_ge (length (front ++ (magic ++ rest))) (length front + 16)
            (omega (arith, length-append front (magic ++ rest))),
        drop-front front (magic ++ rest),
      )
      refl
