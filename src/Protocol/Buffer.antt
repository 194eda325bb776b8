-- ===== src/Protocol/Buffer.antt =====
-- The operations of the `bytes` crate (`Buf` for `&[u8]`, `BufMut` for `BytesMut`) that the codecs
-- call. The crate is not part of the repository, so its operations are a parameter: a record of
-- functions on the contents of the buffer, with the behaviour that its documentation states.
mod Reference
pub use Reference.{
  be_bytes, take_be, take_be-be_bytes, IsBytes, be_bytes-IsBytes, length-be_bytes, split_at, skip,
  slice_to, skip-append, slice_to-append, split_at-append,
}
use raknet.Base.{ℕ, ◌*◌, ◌≡◌, List, [], ◌∷◌, ◌++◌, Result, length, refl, replicate, sym}

-- An `i64` is its bit pattern, a number below 2 ^ 64.
pub record Buffer : Type 0 where
  pub put_u8 : List ℕ → ℕ → List ℕ
  pub put_u16 : List ℕ → ℕ → List ℕ
  pub put_u32 : List ℕ → ℕ → List ℕ
  pub put_i64 : List ℕ → ℕ → List ℕ
  pub put_slice : List ℕ → List ℕ → List ℕ
  pub put_bytes : List ℕ → ℕ → ℕ → List ℕ
  pub remaining : List ℕ → ℕ
  pub get_u8 : List ℕ → Result (ℕ × List ℕ)
  pub get_u16 : List ℕ → Result (ℕ × List ℕ)
  pub get_u32 : List ℕ → Result (ℕ × List ℕ)
  pub get_i64 : List ℕ → Result (ℕ × List ℕ)
  pub advance : ℕ → List ℕ → Result (List ℕ)
  -- The bytes that fill a slice of the given length, and the buffer past them.
  pub copy_to_slice : ℕ → List ℕ → Result (List ℕ × List ℕ)
  -- "Writes an unsigned 16 bit integer to self in big-endian byte order", and so on.
  pub put_u8_lem : (buf : List ℕ) (v : ℕ) → put_u8 buf v ≡ buf ++ be_bytes 1 v
  pub put_u16_lem : (buf : List ℕ) (v : ℕ) → put_u16 buf v ≡ buf ++ be_bytes 2 v
  pub put_u32_lem : (buf : List ℕ) (v : ℕ) → put_u32 buf v ≡ buf ++ be_bytes 4 v
  pub put_i64_lem : (buf : List ℕ) (v : ℕ) → put_i64 buf v ≡ buf ++ be_bytes 8 v
  -- "Transfer bytes into self from src and advance the cursor by the number of bytes written."
  pub put_slice_lem : (buf src : List ℕ) → put_slice buf src ≡ buf ++ src
  -- "Put cnt bytes val into self."
  pub put_bytes_lem : (buf : List ℕ) (v cnt : ℕ) → put_bytes buf v cnt ≡ buf ++ replicate cnt v
  -- "Returns the number of bytes between the current position and the end of the buffer."
  pub remaining_lem : (buf : List ℕ) → remaining buf ≡ length buf
  -- "Gets an unsigned 16 bit integer from self in big-endian byte order. The current position is
  -- advanced by 2. Panics if there is not enough remaining data in self."
  pub get_u8_lem : (buf : List ℕ) → get_u8 buf ≡ take_be 1 0 buf
  pub get_u16_lem : (buf : List ℕ) → get_u16 buf ≡ take_be 2 0 buf
  pub get_u32_lem : (buf : List ℕ) → get_u32 buf ≡ take_be 4 0 buf
  pub get_i64_lem : (buf : List ℕ) → get_i64 buf ≡ take_be 8 0 buf
  -- "Advance the internal cursor of the Buf. This function may panic if cnt > self.remaining()."
  pub advance_lem : (n : ℕ) (buf : List ℕ) → advance n buf ≡ skip n buf
  -- "Copies bytes from self into dst. Panics if self.remaining() < dst.len()."
  pub copy_to_slice_lem : (n : ℕ) (buf : List ℕ) → copy_to_slice n buf ≡ split_at n buf

-- Functions that behave as documented.
abbrev pub reference : Buffer
reference = record {
  put_u8 = λ buf v. buf ++ be_bytes 1 v;
  put_u16 = λ buf v. buf ++ be_bytes 2 v;
  put_u32 = λ buf v. buf ++ be_bytes 4 v;
  put_i64 = λ buf v. buf ++ be_bytes 8 v;
  put_slice = λ buf src. buf ++ src;
  put_bytes = λ buf v cnt. buf ++ replicate cnt v;
  remaining = length;
  get_u8 = take_be 1 0;
  get_u16 = take_be 2 0;
  get_u32 = take_be 4 0;
  get_i64 = take_be 8 0;
  advance = skip;
  copy_to_slice = split_at;
  put_u8_lem = λ buf v. refl;
  put_u16_lem = λ buf v. refl;
  put_u32_lem = λ buf v. refl;
  put_i64_lem = λ buf v. refl;
  put_slice_lem = λ buf src. refl;
  put_bytes_lem = λ buf v cnt. refl;
  remaining_lem = λ buf. refl;
  get_u8_lem = λ buf. refl;
  get_u16_lem = λ buf. refl;
  get_u32_lem = λ buf. refl;
  get_i64_lem = λ buf. refl;
  advance_lem = λ n buf. refl;
  copy_to_slice_lem = λ n buf. refl;
}
