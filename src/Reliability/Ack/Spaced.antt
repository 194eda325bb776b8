-- ===== src/Reliability/Ack/Spaced.antt =====
-- When a range list is well formed, and which numbers it holds.
use raknet.Base.{ℕ, ◌+◌, ◌≤◌, ◌<◌, ◌≡◌, Bool, false, [], ◌∷◌, leb, ◌&&◌, ◌||◌, arith, refl}
use raknet.Protocol.Uint24.Laws.{IsU24}
use raknet.Reliability.Ack.{
  AckRange, single, range, contains, range_start, range_end, AckRangeList, is_hit,
}

-- A single number, or a proper range that does not wrap.
abbrev pub IsProper : AckRange → Type 0
IsProper (single s) = IsU24 s
IsProper (range start end) = (start < end) × IsU24 end

-- The ranges start at `from` or above, go up, and leave a number out between any two.
abbrev pub IsSpaced : ℕ → AckRangeList → Type 0
IsSpaced from [] = Unit {0}
IsSpaced from (r ∷ rest) = (from ≤ range_start r) × IsProper r × IsSpaced (range_end r + 2) rest

abbrev pub IsCompressed : AckRangeList → Type 0
IsCompressed ranges = IsSpaced 0 ranges

unfoldable pub holds : AckRangeList → ℕ → Bool
holds [] x = false
holds (r ∷ rest) x = contains r x || holds rest x

pub proper_bounds :
    (r : AckRange) → IsProper r → (range_start r ≤ range_end r) × IsU24 (range_end r)
unfolding range_start range_end
proper_bounds (single s) h = omega arith
proper_bounds (range start end) h = omega arith

pub contains_bounds :
    (r : AckRange) (x : ℕ)
    → IsProper r
    → contains r x ≡ (leb (range_start r) x && leb x (range_end r))
unfolding contains range_start range_end
contains_bounds (single s) x h = ground arith
contains_bounds (range start end) x h = ground arith

pub is_hit_lem : (r : AckRange) (seq : ℕ) → IsProper r → is_hit seq r ≡ leb seq (range_end r)
unfolding is_hit range_end contains
is_hit_lem (single s) x h = ground arith
is_hit_lem (range start end) x h = ground arith

pub holds_below : (l : AckRangeList) (from x : ℕ) → IsSpaced from l → x < from → holds l x ≡ false
unfolding holds
holds_below [] from x w h = refl
holds_below (r ∷ rest) from x w h =
    ground (arith, contains_bounds r x, proper_bounds r, holds_below rest (range_end r + 2) x)

pub IsSpaced-weaken :
    (l : AckRangeList) (low high : ℕ) → low ≤ high → IsSpaced high l → IsSpaced low l
IsSpaced-weaken [] low high h w = tt
IsSpaced-weaken (r ∷ l) low high h w = (omega arith, w.1, w.2)
