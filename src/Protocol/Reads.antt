-- ===== src/Protocol/Reads.antt =====
-- Reading back from the front of a buffer what was put there.
use raknet.Base.{
  ℕ, ◌^◌, ◌≤◌, ◌<◌, ◌≡◌, false, List, ◌++◌, length, ltb, ok, arith, ◌∙◌, ap, ltb_ge, length-append,
}
use raknet.Protocol.Buffer.{Buffer, be_bytes, take_be-be_bytes, skip-append, split_at-append}

module _ (lib : Buffer) where
  pub has_remaining : (n : ℕ) (buf : List ℕ) → n ≤ length buf → ltb (lib.remaining buf) n ≡ false
  has_remaining n buf h = ap (λ (k : ℕ). ltb k n) (lib.remaining_lem buf) ∙ ltb_ge (length buf) n h

  pub enough_bytes :
      (n : ℕ) (xs rest : List ℕ) → n ≤ length xs → ltb (lib.remaining (xs ++ rest)) n ≡ false
  enough_bytes n xs rest h = has_remaining n (xs ++ rest) (omega (arith, length-append xs rest))

  pub advance-append : (xs rest : List ℕ) → lib.advance (length xs) (xs ++ rest) ≡ ok rest
  advance-append xs rest = lib.advance_lem (length xs) (xs ++ rest) ∙ skip-append xs rest

  pub copy_to_slice-append :
      (xs rest : List ℕ) → lib.copy_to_slice (length xs) (xs ++ rest) ≡ ok (xs, rest)
  copy_to_slice-append xs rest =
      lib.copy_to_slice_lem (length xs) (xs ++ rest) ∙ split_at-append xs rest

  pub get_u8-put :
      (v : ℕ) (rest : List ℕ) → v < 2 ^ 8 → lib.get_u8 (be_bytes 1 v ++ rest) ≡ ok (v, rest)
  get_u8-put v rest h =
      lib.get_u8_lem (be_bytes 1 v ++ rest)
      ∙ take_be-be_bytes 1 v 0 rest
      ∙ ap (λ (n : ℕ). ok (n, rest)) (omega arith)

  pub get_u16-put :
      (v : ℕ) (rest : List ℕ) → v < 2 ^ 16 → lib.get_u16 (be_bytes 2 v ++ rest) ≡ ok (v, rest)
  get_u16-put v rest h =
      lib.get_u16_lem (be_bytes 2 v ++ rest)
      ∙ take_be-be_bytes 2 v 0 rest
      ∙ ap (λ (n : ℕ). ok (n, rest)) (omega arith)

  pub get_u32-put :
      (v : ℕ) (rest : List ℕ) → v < 2 ^ 32 → lib.get_u32 (be_bytes 4 v ++ rest) ≡ ok (v, rest)
  get_u32-put v rest h =
      lib.get_u32_lem (be_bytes 4 v ++ rest)
      ∙ take_be-be_bytes 4 v 0 rest
      ∙ ap (λ (n : ℕ). ok (n, rest)) (omega arith)

  pub get_i64-put :
      (v : ℕ) (rest : List ℕ) → v < 2 ^ 64 → lib.get_i64 (be_bytes 8 v ++ rest) ≡ ok (v, rest)
  get_i64-put v rest h =
      lib.get_i64_lem (be_bytes 8 v ++ rest)
      ∙ take_be-be_bytes 8 v 0 rest
      ∙ ap (λ (n : ℕ). ok (n, rest)) (omega arith)
