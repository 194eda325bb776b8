-- ===== src/Protocol/Uint24/Laws.antt =====
-- Arithmetic of `u24`: masking is reduction modulo 2 ^ 24, and the wrapping operations are those of
-- the integers modulo 2 ^ 24.
use raknet.Base.{
  ℕ, ◌+◌, ◌-◌, ◌%◌, ◌^◌, ◌≤◌, ◌<◌, ◌≡◌, arith, some, none, ok, panic, ltb, leb, if◌then◌else◌, min,
  max,
}
use raknet.Base.Bits.{and-mask}
use raknet.Protocol.Uint24.{
  mask, u32_mod, new, wrapping_add, wrapping_sub, wrapping_add32, wrapping_sub32, checked_add,
  checked_sub, saturating_add, saturating_sub,
}

abbrev pub u24_mod : ℕ
u24_mod = 2 ^ 24

abbrev pub IsU24 : ℕ → Type 0
IsU24 v = v < u24_mod

pub new-mod : (v : ℕ) → new v ≡ v % u24_mod
unfolding new
new-mod v = and-mask 24 v

pub new-IsU24 : (v : ℕ) → IsU24 (new v)
new-IsU24 v = omega (arith, new-mod v)

pub new_of_IsU24 : (v : ℕ) → IsU24 v → new v ≡ v
new_of_IsU24 v h = omega (arith, new-mod v)

pub wrapping_add-mod : (a b : ℕ) → wrapping_add a b ≡ (a + b) % u24_mod
unfolding wrapping_add
wrapping_add-mod a b = omega (arith, new-mod (wrapping_add32 a b))

pub wrapping_sub-mod : (a b : ℕ) → IsU24 a → b < u32_mod → (wrapping_sub a b + b) % u24_mod ≡ a
unfolding wrapping_sub
wrapping_sub-mod a b ha hb = omega (arith, new-mod (wrapping_sub32 a b))

-- For a 24-bit first operand and a sum below 2 ^ 32: while the sum stays within 24 bits all three
-- additions give it; where it passes 24 bits the wrapping one drops the carry, the checked one returns `None` and the saturating one
-- the maximum.
pub additions_agree :
    (a b : ℕ)
    → IsU24 a
    → a + b < u32_mod
    → (wrapping_add a b ≡ (a + b) % u24_mod)
      × (checked_add a b ≡ ok (if ltb (a + b) u24_mod then some (a + b) else none))
      × (saturating_add a b ≡ min (a + b) mask)
unfolding checked_add saturating_add
additions_agree a b ha h = (wrapping_add-mod a b, ground arith, ground arith)

-- For a 24-bit first operand and a 32-bit second one: the wrapping subtraction gives the difference
-- modulo 2 ^ 24, the checked one `None` where it is negative, and the saturating one 0 there.
pub subtractions_agree :
    (a b : ℕ)
    → IsU24 a
    → b < u32_mod
    → ((wrapping_sub a b + b) % u24_mod ≡ a)
      × (checked_sub a b ≡ (if leb b a then some (a - b) else none))
      × (saturating_sub a b + b ≡ max a b)
unfolding checked_sub saturating_sub
subtractions_agree a b ha hb = (wrapping_sub-mod a b ha hb, ground arith, ground arith)

-- `checked_add`, which is to return `None` on overflow, panics where the sum passes 32 bits.
pub checked_add_panics : (a b : ℕ) → u32_mod ≤ a + b → checked_add a b ≡ panic
unfolding checked_add
checked_add_panics a b h = ground arith
