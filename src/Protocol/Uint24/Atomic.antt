-- ===== src/Protocol/Uint24/Atomic.antt =====
-- `AtomicU24`: a `u32` cell whose value is read modulo 2 ^ 24. Each operation of the standard
-- atomics is one indivisible step, which returns its result and the new cell; memory orders are not
-- modelled.
use raknet.Base.{
  true, false, not, ◌&&◌, Bool-cases, ℕ, Bool, ◌+◌, ◌-◌, ◌%◌, ◌≤◌, ◌<◌, ◌≡◌, ◌⊎◌, inl, inr, arith,
  refl, ◌==◌, if◌then◌else◌,
}
use raknet.Protocol.Uint24.{u32_mod, new, wrapping_add32, wrapping_sub32}
use raknet.Protocol.Uint24.Laws.{IsU24, u24_mod, new-mod, new_of_IsU24}

abbrev pub Cell : Type 0
Cell = ℕ

unfoldable pub init : ℕ → Cell
init val = new val

unfoldable pub load : Cell → ℕ
load c = new c

unfoldable pub store : Cell → ℕ → Cell
store c val = val

pub swap : Cell → ℕ → ℕ × Cell
swap c val = (new c, val)

unfoldable pub fetch_add : Cell → ℕ → ℕ × Cell
fetch_add c val = (new c, wrapping_add32 c val)

pub fetch_sub : Cell → ℕ → ℕ × Cell
fetch_sub c val = (new c, wrapping_sub32 c val)

-- `Ok` is `inl`.
pub compare_exchange : Cell → ℕ → ℕ → (ℕ ⊎ ℕ) × Cell
compare_exchange c current val = if c == current then (inl (new c), val) else (inr (new c), c)

-- The weak version may fail as well where the values agree.
pub compare_exchange_weak : Bool → Cell → ℕ → ℕ → (ℕ ⊎ ℕ) × Cell
unfolding compare_exchange
compare_exchange_weak spurious c current val =
    if spurious then (inr (new c), c) else compare_exchange c current val

-- A history of calls and the values that they return.
pub data Call : Type 0 where
  loads : Call
  stores swaps adds subs : ℕ → Call
  exchanges : ℕ → ℕ → Call
  exchanges_weak : Bool → ℕ → ℕ → Call

-- The value is `inr` where a `compare_exchange` fails, and that before the call for a `store`, which returns none.
pub step : Cell → Call → (ℕ ⊎ ℕ) × Cell
unfolding store swap fetch_add fetch_sub compare_exchange compare_exchange_weak
step c loads = (inl (load c), c)
step c (stores v) = (inl (load c), store c v)
step c (swaps v) = (inl (swap c v).0, (swap c v).1)
step c (adds v) = (inl (fetch_add c v).0, (fetch_add c v).1)
step c (subs v) = (inl (fetch_sub c v).0, (fetch_sub c v).1)
step c (exchanges current v) = compare_exchange c current v
step c (exchanges_weak spurious current v) = compare_exchange_weak spurious c current v

-- The same calls on an integer modulo 2 ^ 24.
abbrev pub counter_step : ℕ → Call → (ℕ ⊎ ℕ) × ℕ
counter_step n loads = (inl n, n)
counter_step n (stores v) = (inl n, v)
counter_step n (swaps v) = (inl n, v)
counter_step n (adds v) = (inl n, (n + v) % u24_mod)
counter_step n (subs v) = (inl n, (n + u32_mod - v) % u24_mod)
counter_step n (exchanges current v) = if n == current then (inl n, v) else (inr n, n)
counter_step n (exchanges_weak spurious current v) =
    if not spurious && n == current then (inl n, v) else (inr n, n)

abbrev pub CallFits : Cell → Call → Type 0
CallFits c loads = Unit {0}
CallFits c (stores v) = IsU24 v
CallFits c (swaps v) = IsU24 v
CallFits c (adds v) = v < u32_mod
CallFits c (subs v) = v < u32_mod
CallFits c (exchanges current v) = IsU24 c × IsU24 v
CallFits c (exchanges_weak spurious current v) = IsU24 c × IsU24 v

exchange_refines :
    (c : Cell) (current v : ℕ)
    → IsU24 c
    → IsU24 v
    → ((step c (exchanges current v)).0 ≡ (counter_step (load c) (exchanges current v)).0)
      × (load (step c (exchanges current v)).1 ≡ (counter_step (load c) (exchanges current v)).1)
      × ((step c (exchanges current v)).1 < u32_mod)
unfolding step load compare_exchange
exchange_refines c current v small f = elim (Bool-cases (c == current)) [
  | inl same ↦ rw (new_of_IsU24 c small, same) (refl, new_of_IsU24 v f, omega (arith, f))
  | inr other ↦ rw (new_of_IsU24 c small, other) (refl, new_of_IsU24 c small, omega (arith, small))
]

-- On a cell below 2 ^ 32, a `load`, a `store` or `swap` of a 24-bit value, and a `fetch_add` or `fetch_sub` of a 32-bit
-- one return and store what the counter modulo 2 ^ 24 does, even after the `u32` has run past 24 bits; both versions of
-- `compare_exchange` to a 24-bit value do so as long as it has not, and fail where the counter's do.
pub step_refines :
    (c : Cell) (call : Call)
    → c < u32_mod
    → CallFits c call
    → ((step c call).0 ≡ (counter_step (load c) call).0)
      × (load (step c call).1 ≡ (counter_step (load c) call).1)
      × ((step c call).1 < u32_mod)
unfolding step load compare_exchange compare_exchange_weak
step_refines c loads h f = (refl, refl, h)
step_refines c (stores v) h f = (refl, new_of_IsU24 v f, omega arith)
step_refines c (swaps v) h f = (refl, new_of_IsU24 v f, omega arith)
step_refines c (adds v) h f =
    (refl, omega (arith, new-mod c, new-mod (wrapping_add32 c v)), omega arith)
step_refines c (subs v) h f =
    (refl, omega (arith, new-mod c, new-mod (wrapping_sub32 c v)), omega arith)
step_refines c (exchanges current v) h (small, f) = exchange_refines c current v small f
step_refines c (exchanges_weak true current v) h (small, f) =
    rw (new_of_IsU24 c small) (refl, refl, h)
step_refines c (exchanges_weak false current v) h (small, f) = exchange_refines c current v small f

-- Once the `u32` has passed 24 bits, `compare_exchange` fails against the very value that `load`
-- returns, reports that value as the one it found, and changes nothing.
pub compare_exchange_after_wrap :
    (c val : ℕ) → u24_mod ≤ c → compare_exchange c (load c) val ≡ (inr (load c), c)
unfolding compare_exchange load
compare_exchange_after_wrap c val h = ground (arith, new-mod c)
