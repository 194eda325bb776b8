-- ===== src/Reliability/Ack/Canonical.antt =====
-- A well-formed range list is determined by the numbers that it holds, so the order of insertions
-- does not show in it.
use raknet.Base.{
  ℕ, ◌+◌, ◌^◌, ◌≤◌, ◌≡◌, false, [], ◌∷◌, arith, refl, ap, ap₂, ◌∙◌, sym, dec_lt, subst,
}
use raknet.Protocol.Uint24.Laws.{IsU24}
use raknet.Reliability.Ack.{AckRange, single, range, range_start, range_end, AckRangeList, insert}
use raknet.Reliability.Ack.Spaced.{
  IsProper, IsSpaced, IsCompressed, holds, proper_bounds, contains_bounds, holds_below,
}
use raknet.Reliability.Ack.Insert.{insert-IsCompressed, holds-insert}

range_eq :
    (r s : AckRange)
    → IsProper r
    → IsProper s
    → range_start r ≡ range_start s
    → range_end r ≡ range_end s
    → r ≡ s
unfolding range_start range_end
range_eq (single a) (single b) hr hs e f = ap single e
range_eq (single a) (range b c) hr hs e f = absurd (omega arith)
range_eq (range a b) (single c) hr hs e f = absurd (omega arith)
range_eq (range a b) (range c d) hr hs e f = ap₂ range e f

abbrev SameMembers : AckRangeList → AckRangeList → Type 0
SameMembers l k = (x : ℕ) → holds l x ≡ holds k x

-- The first ranges of two lists with the same members start and end at the same numbers.
start_le :
    (r s : AckRange) (l k : AckRangeList) (from : ℕ)
    → IsSpaced from (r ∷ l)
    → IsSpaced from (s ∷ k)
    → SameMembers (r ∷ l) (s ∷ k)
    → range_start s ≤ range_start r
unfolding holds
start_le r s l k from w v same = ground (
  arith,
  same (range_start r),
  contains_bounds r (range_start r),
  proper_bounds r,
  holds_below (s ∷ k) (range_start s) (range_start r) (omega arith, v.1, v.2),
)

end_le :
    (r s : AckRange) (l k : AckRangeList) (from : ℕ)
    → IsSpaced from (r ∷ l)
    → IsSpaced from (s ∷ k)
    → SameMembers (r ∷ l) (s ∷ k)
    → range_start r ≡ range_start s
    → range_end s ≤ range_end r
unfolding holds
end_le r s l k from w v same e = ground (
  arith,
  same (range_end r + 1),
  contains_bounds r (range_end r + 1),
  contains_bounds s (range_end r + 1),
  proper_bounds r,
  holds_below l (range_end r + 2) (range_end r + 1) w.2,
)

tail_members :
    (r : AckRange) (l k : AckRangeList)
    → IsProper r
    → IsSpaced (range_end r + 2) l
    → IsSpaced (range_end r + 2) k
    → SameMembers (r ∷ l) (r ∷ k)
    → SameMembers l k
unfolding holds
tail_members r l k h w v same x = ground (
  arith,
  same x,
  contains_bounds r x,
  holds_below l (range_end r + 2) x w,
  holds_below k (range_end r + 2) x v,
)

members_determine :
    (l k : AckRangeList) (from : ℕ) → IsSpaced from l → IsSpaced from k → SameMembers l k → l ≡ k
members_determine [] [] from w v same = refl
members_determine [] (s ∷ k) from w v same = absurd (
    unfold holds in
    ground (arith, same (range_start s), contains_bounds s (range_start s), proper_bounds s))
members_determine (r ∷ l) [] from w v same = absurd (
    unfold holds in
    ground (arith, same (range_start r), contains_bounds r (range_start r), proper_bounds r))
members_determine (r ∷ l) (s ∷ k) from w v same =
    let starts : range_start r ≡ range_start s =
      omega
        (arith, start_le r s l k from w v same, start_le s r k l from v w (λ x. sym (same x))) in
    let ends : range_end r ≡ range_end s = omega (
      arith,
      end_le r s l k from w v same starts,
      end_le s r k l from v w (λ x. sym (same x)) (sym starts),
    ) in
    let first = range_eq r s w.1 v.1 starts ends in
    let v' : IsSpaced (range_end r + 2) k = subst (λ (n : ℕ). IsSpaced (n + 2) k) (sym ends) v.2 in
    ap₂ ◌∷◌ first (
      members_determine l k (range_end r + 2) w.2 v'
        (tail_members r l k w.1 w.2 v' (subst (λ t. SameMembers (r ∷ l) (t ∷ k)) (sym first) same)))

holds_above : (l : AckRangeList) (from x : ℕ) → IsSpaced from l → 2 ^ 24 ≤ x → holds l x ≡ false
unfolding holds
holds_above [] from x w h = refl
holds_above (r ∷ l) from x w h =
    ground (arith, contains_bounds r x, proper_bounds r, holds_above l (range_end r + 2) x w.2)

-- Two well-formed lists that hold the same 24-bit numbers are the same list.
pub canonical :
    (l k : AckRangeList)
    → IsCompressed l
    → IsCompressed k
    → ((x : ℕ) → IsU24 x → holds l x ≡ holds k x)
    → l ≡ k
canonical l k w v same = members_determine l k 0 w v λ x. elim (dec_lt x (2 ^ 24)) [
  | yes fits ↦ same x fits
  | no high ↦ holds_above l 0 x w (omega arith) ∙ sym (holds_above k 0 x v (omega arith))
]

-- Inserting two 24-bit numbers in a well-formed list, in either order, gives the same list.
pub insert_comm :
    (l : AckRangeList) (a b : ℕ)
    → IsCompressed l
    → IsU24 a
    → IsU24 b
    → insert (insert l a) b ≡ insert (insert l b) a
insert_comm l a b w ha hb =
    canonical (insert (insert l a) b) (insert (insert l b) a)
      (insert-IsCompressed (insert l a) b (insert-IsCompressed l a w ha) hb)
      (insert-IsCompressed (insert l b) a (insert-IsCompressed l b w hb) ha)
      (λ x _. ground (
        arith,
        holds-insert (insert l a) b x (insert-IsCompressed l a w ha) hb,
        holds-insert (insert l b) a x (insert-IsCompressed l b w hb) ha,
        holds-insert l a x w ha,
        holds-insert l b x w hb,
      ))
