-- ===== src/Reliability/Ack.antt =====
-- reliability/ack.rs: ranges of sequence numbers, and the list that compresses them.
pub mod Spaced
pub mod Place
pub mod Insert
pub mod Canonical
pub mod Sequences
pub mod Codec
mod Examples
use raknet.Base.{
  ℕ, zero, suc, ◌+◌, ◌-◌, ◌<◌, Bool, true, false, Option, none, some, List, [], ◌∷◌, ◌++◌, ◌==◌,
  ltb, leb, ◌&&◌, ◌||◌, if◌then◌else◌, length, get_or, set, remove_at,
}
use raknet.Protocol.Uint24.{new, wrapping_add32, wrapping_sub32}

pub data AckRange : Type 0 where
  single : ℕ → AckRange
  range : ℕ → ℕ → AckRange

-- `AckRange::range`
pub make_range : ℕ → ℕ → AckRange
make_range start end = if start == end then single start else range start end

pub count : AckRange → ℕ
count (single s) = 1
count (range start end) = wrapping_add32 (wrapping_sub32 end start) 1

unfoldable pub contains : AckRange → ℕ → Bool
contains (single s) seq = s == seq
contains (range start end) seq =
    if leb start end then leb start seq && leb seq end else leb start seq || leb seq end

pub encoded_size : AckRange → ℕ
encoded_size (single s) = 1 + 3
encoded_size (range start end) = 1 + 3 + 3

unfoldable pub range_start : AckRange → ℕ
range_start (single s) = s
range_start (range start end) = start

unfoldable pub range_end : AckRange → ℕ
range_end (single s) = s
range_end (range start end) = end

-- The list of ranges of an `AckRangeList`.
abbrev pub AckRangeList : Type 0
AckRangeList = List AckRange

-- `Vec::insert`; `Vec::remove` is `remove_at`.
abbrev pub insert_at {ℓ} : {A : Type ℓ} → ℕ → A → List A → List A
insert_at zero a xs = a ∷ xs
insert_at (suc i) a [] = []
insert_at (suc i) a (x ∷ xs) = x ∷ insert_at i a xs

-- `self.ranges[idx]`. Every index below comes from `position` or from `len`, so it is in bounds.
abbrev pub range_at : AckRangeList → ℕ → AckRange
range_at ranges idx = get_or ranges idx (single 0)

-- The closure that `insert` hands to `position`: a hit is a range that holds the number, or that
-- starts above it.
pub is_hit : ℕ → AckRange → Bool
is_hit seq (single s) = if s == seq then true else ltb seq s
is_hit seq (range start end) = if contains (range start end) seq then true else ltb seq start

pub position : ℕ → AckRangeList → Option ℕ
position seq [] = none
position seq (r ∷ rest) =
    let later : Option ℕ = elim (position seq rest) [ none ↦ none | some i ↦ some (suc i) ] in
    if is_hit seq r then some 0 else later

pub can_merge_with_next : AckRangeList → ℕ → ℕ → Bool
can_merge_with_next ranges idx seq = wrapping_add32 (range_end (range_at ranges idx)) 1 == seq

pub can_merge_with_prev : AckRangeList → ℕ → ℕ → Bool
can_merge_with_prev ranges idx seq = wrapping_add32 seq 1 == range_start (range_at ranges idx)

-- The range that `merge_at` puts at `idx`; `none` where it returns early.
pub merged : AckRange → ℕ → Option AckRange
merged r seq =
    if wrapping_add32 (range_end r) 1 == seq
    then some (range (range_start r) seq)
    else if wrapping_add32 seq 1 == range_start r
    then some (range seq (range_end r))
    else none

-- The second half of `merge_at`: join the range at `idx` to the one after it, if they now touch.
pub join_next : AckRangeList → ℕ → AckRangeList
join_next ranges idx =
    if ltb (idx + 1) (length ranges)
      && wrapping_add32 (range_end (range_at ranges idx)) 1
        == range_start (range_at ranges (idx + 1))
    then remove_at (idx + 1) (
        set ranges idx
          (range (range_start (range_at ranges idx)) (range_end (range_at ranges (idx + 1)))))
    else ranges

pub merge_at : AckRangeList → ℕ → ℕ → AckRangeList
merge_at ranges idx seq = elim (merged (range_at ranges idx) seq) [
  | none ↦ ranges
  | some new_range ↦ join_next (set ranges idx new_range) idx
]

-- The arms of the `match insert_pos` of `insert`.
pub insert_found : AckRangeList → ℕ → ℕ → AckRangeList
insert_found ranges seq pos =
    if contains (range_at ranges pos) seq
    then ranges
    else if ltb 0 pos && can_merge_with_next ranges (pos - 1) seq
    then merge_at ranges (pos - 1) seq
    else if can_merge_with_prev ranges pos seq
    then merge_at ranges pos seq
    else insert_at pos (single seq) ranges

pub insert_end : AckRangeList → ℕ → AckRangeList
insert_end ranges seq =
    if ltb 0 (length ranges) && can_merge_with_next ranges (length ranges - 1) seq
    then merge_at ranges (length ranges - 1) seq
    else ranges ++ (single seq ∷ [])

pub insert : AckRangeList → ℕ → AckRangeList
insert ranges seq = elim (position seq ranges) [
  | some pos ↦ insert_found ranges seq pos
  | none ↦ insert_end ranges seq
]

pub list_encoded_size : AckRangeList → ℕ
list_encoded_size [] = 0
list_encoded_size (r ∷ rest) = encoded_size r + list_encoded_size rest

-- `sort_unstable` of numbers.
pub sorted_insert : ℕ → List ℕ → List ℕ
sorted_insert n [] = n ∷ []
sorted_insert n (m ∷ rest) = if leb n m then n ∷ m ∷ rest else m ∷ sorted_insert n rest

pub sort : List ℕ → List ℕ
unfolding sorted_insert
sort [] = []
sort (n ∷ rest) = sorted_insert n (sort rest)

-- The loop of `from_sequences`.
pub insert_each : AckRangeList → List ℕ → AckRangeList
unfolding insert
insert_each list [] = list
insert_each list (seq ∷ seqs) = insert_each (insert list (new seq)) seqs

pub from_sequences : List ℕ → AckRangeList
unfolding insert_each sort
from_sequences seqs = insert_each [] (sort seqs)
