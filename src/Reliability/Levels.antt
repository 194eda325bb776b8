-- ===== src/Reliability/Levels.antt =====
-- reliability/levels.rs: the reliability levels of a frame.
mod Examples
use raknet.Base.{
  ℕ, ◌+◌, ◌≤◌, ◌<◌, ◌≡◌, Bool, true, false, Option, none, some, ◌==◌, if◌then◌else◌, arith, refl,
  ltb,
}

pub data Reliability : Type 0 where
  unreliable unreliable_sequenced reliable reliable_ordered reliable_sequenced : Reliability

unfoldable pub from_u8 : ℕ → Option Reliability
from_u8 value =
    if value == 0
    then some unreliable
    else if value == 1
    then some unreliable_sequenced
    else if value == 2
    then some reliable
    else if value == 3
    then some reliable_ordered
    else if value == 4
    then some reliable_sequenced
    else none

unfoldable pub to_u8 : Reliability → ℕ
to_u8 unreliable = 0
to_u8 unreliable_sequenced = 1
to_u8 reliable = 2
to_u8 reliable_ordered = 3
to_u8 reliable_sequenced = 4

unfoldable pub is_reliable : Reliability → Bool
is_reliable unreliable = false
is_reliable unreliable_sequenced = false
is_reliable reliable = true
is_reliable reliable_ordered = true
is_reliable reliable_sequenced = true

unfoldable pub is_sequenced : Reliability → Bool
is_sequenced unreliable = false
is_sequenced unreliable_sequenced = true
is_sequenced reliable = false
is_sequenced reliable_ordered = false
is_sequenced reliable_sequenced = true

unfoldable pub is_ordered : Reliability → Bool
is_ordered unreliable = false
is_ordered unreliable_sequenced = false
is_ordered reliable = false
is_ordered reliable_ordered = true
is_ordered reliable_sequenced = true

-- 3 bytes of flags and length, then what each property of the level adds.
pub header_size : Reliability → ℕ
header_size self =
    3
    + (if is_reliable self then 3 else 0)
    + (if is_sequenced self then 3 else 0)
    + (if is_ordered self then 4 else 0)

abbrev pub max_header_size : ℕ
max_header_size = 14

abbrev pub min_header_size : ℕ
min_header_size = 3

-- A level survives the trip through its number, and only 0 to 4 are numbers of levels.
pub from_u8-to_u8 :
    (r : Reliability) (n : ℕ) → 5 ≤ n → (from_u8 (to_u8 r) ≡ some r) × (from_u8 n ≡ none)
unfolding from_u8 to_u8
from_u8-to_u8 unreliable n h = ground arith
from_u8-to_u8 unreliable_sequenced n h = ground arith
from_u8-to_u8 r n h = ground arith

pub to_u8-lt : (r : Reliability) → to_u8 r < 5
unfolding to_u8
to_u8-lt unreliable = omega arith
to_u8-lt r = omega arith
