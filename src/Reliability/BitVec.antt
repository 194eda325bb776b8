-- ===== src/Reliability/BitVec.antt =====
-- The operations of the `bitvec` crate that the receive window calls. The crate is not part of the
-- repository, so its operations are a parameter: functions on the bits, lowest index first, with the
-- behaviour that its documentation states.
use raknet.Base.{
  ℕ, ◌-◌, ◌≤◌, ◌<◌, ◌≡◌, Bool, false, List, ◌++◌, Result, ok, panic, length, get_or, set, drop,
  take, replicate, ltb, if◌then◌else◌, refl, lt→ltb, ltb_ge,
}

pub record BitVec : Type 0 where
  pub repeat : Bool → ℕ → List Bool
  pub index : List Bool → ℕ → Result Bool
  pub set_bit : List Bool → ℕ → Bool → Result (List Bool)
  pub fill : List Bool → Bool → List Bool
  -- `copy_within(start.., 0)`
  pub copy_to_front : List Bool → ℕ → Result (List Bool)
  -- `bits[start..].fill(value)`
  pub fill_from : List Bool → ℕ → Bool → Result (List Bool)
  -- `bitvec![value; count]` has `count` bits of this value.
  pub repeat_lem : (value : Bool) (count : ℕ) → repeat value count ≡ replicate count value
  -- `bits[i]`: "panics when the index is out of bounds".
  pub index_lem :
      (bits : List Bool) (i : ℕ) → i < length bits → index bits i ≡ ok (get_or bits i false)
  pub index_panics : (bits : List Bool) (i : ℕ) → length bits ≤ i → index bits i ≡ panic
  -- `set`: "Writes a new value into a single bit. Panics if index is out of bounds."
  pub set_bit_lem :
      (bits : List Bool) (i : ℕ) (value : Bool)
      → i < length bits
      → set_bit bits i value ≡ ok (set bits i value)
  pub set_bit_panics :
      (bits : List Bool) (i : ℕ) (value : Bool) → length bits ≤ i → set_bit bits i value ≡ panic
  -- `fill`: "Fills the bit-slice with a given bit."
  pub fill_lem : (bits : List Bool) (value : Bool) → fill bits value ≡ replicate (length bits) value
  -- `copy_within`: "Copies a span of bits to another location in the bit-slice."
  pub copy_to_front_lem :
      (bits : List Bool) (start : ℕ)
      → start ≤ length bits
      → copy_to_front bits start ≡ ok (drop start bits ++ drop (length bits - start) bits)
  pub fill_from_lem :
      (bits : List Bool) (start : ℕ) (value : Bool)
      → start ≤ length bits
      → fill_from bits start value ≡ ok (take start bits ++ replicate (length bits - start) value)

-- Functions that behave as documented.
abbrev pub reference_bits : BitVec
reference_bits = record {
  repeat = λ value count. replicate count value;
  index = λ bits i. if ltb i (length bits) then ok (get_or bits i false) else panic;
  set_bit = λ bits i value. if ltb i (length bits) then ok (set bits i value) else panic;
  fill = λ bits value. replicate (length bits) value;
  copy_to_front = λ bits start.
      if ltb (length bits) start
      then panic
      else ok (drop start bits ++ drop (length bits - start) bits);
  fill_from = λ bits start value.
      if ltb (length bits) start
      then panic
      else ok (take start bits ++ replicate (length bits - start) value);
  repeat_lem = λ value count. refl;
  index_lem = λ bits i h. rw (lt→ltb i (length bits) h) refl;
  index_panics = λ bits i h. rw (ltb_ge i (length bits) h) refl;
  set_bit_lem = λ bits i value h. rw (lt→ltb i (length bits) h) refl;
  set_bit_panics = λ bits i value h. rw (ltb_ge i (length bits) h) refl;
  fill_lem = λ bits value. refl;
  copy_to_front_lem = λ bits start h. rw (ltb_ge (length bits) start h) refl;
  fill_from_lem = λ bits start value h. rw (ltb_ge (length bits) start h) refl;
}
