-- ===== src/Reliability/Ack/Insert.antt =====
-- `insert`, which works by indices, is the recursive insertion; so it keeps the list well formed and
-- adds exactly the number that it is given.
use raknet.Base.{
  ℕ, suc, ◌+◌, ◌-◌, ◌≤◌, ◌<◌, ◌≡◌, true, false, Option, none, some, [], ◌∷◌, ◌==◌, ◌||◌, length,
  set, arith, refl, ap, ◌∙◌, inl, inr, Option-cases, sym, dec_lt, leb_gt, le→leb,
}
use raknet.Protocol.Uint24.Laws.{IsU24}
use raknet.Reliability.Ack.{
  AckRange, range_start, range_end, AckRangeList, range_at, is_hit, position, can_merge_with_next,
  can_merge_with_prev, merged, join_next, merge_at, insert_found, insert_end, insert,
}
use raknet.Reliability.Ack.Spaced.{
  IsProper, IsSpaced, IsCompressed, holds, proper_bounds, contains_bounds, is_hit_lem,
}
use raknet.Reliability.Ack.Place.{place, joined, place-IsSpaced, holds-place}

-- One range further along the list, every helper does the same.
join_next-cons :
    (r : AckRange) (l : AckRangeList) (i : ℕ) → join_next (r ∷ l) (suc i) ≡ r ∷ join_next l i
unfolding join_next
join_next-cons r l i = let e : suc i + 1 ≡ suc (i + 1) = omega arith in rw e (ground arith)

merge_at-cons :
    (r : AckRange) (l : AckRangeList) (i seq : ℕ)
    → merge_at (r ∷ l) (suc i) seq ≡ r ∷ merge_at l i seq
unfolding merge_at
merge_at-cons r l i seq = elim (Option-cases (merged (range_at l i) seq)) [
  | inl e ↦ rw (e, merge_at)
  | inr (n, e) ↦ rw (e, merge_at) (join_next-cons r (set l i n) i)
]

suc-sub_one : (n : ℕ) → suc n - 1 ≡ n
suc-sub_one n = omega arith

insert_found-cons :
    (r : AckRange) (l : AckRangeList) (seq p : ℕ)
    → insert_found (r ∷ l) seq (suc (suc p)) ≡ r ∷ insert_found l seq (suc p)
unfolding insert_found can_merge_with_next can_merge_with_prev
insert_found-cons r l seq p =
    rw (suc-sub_one (suc p), suc-sub_one p)
      (ground (arith, merge_at-cons r l p seq, merge_at-cons r l (suc p) seq))

insert_end-cons :
    (r n : AckRange) (l : AckRangeList) (seq : ℕ)
    → insert_end (r ∷ n ∷ l) seq ≡ r ∷ insert_end (n ∷ l) seq
unfolding insert_end can_merge_with_next
insert_end-cons r n l seq =
    rw (suc-sub_one (suc (length l)), suc-sub_one (length l))
      (ground (arith, merge_at-cons r (n ∷ l) (length l) seq))

abbrev next_index : Option ℕ → Option ℕ
next_index none = none
next_index (some i) = some (suc i)

position_hit :
    (r : AckRange) (l : AckRangeList) (seq : ℕ)
    → is_hit seq r ≡ true
    → position seq (r ∷ l) ≡ some 0
unfolding position
position_hit r l seq h = rw h

position_miss :
    (r : AckRange) (l : AckRangeList) (seq : ℕ)
    → is_hit seq r ≡ false
    → position seq (r ∷ l) ≡ next_index (position seq l)
unfolding position
position_miss r l seq h = ground arith

insert_of_some :
    (l : AckRangeList) (seq p : ℕ) → position seq l ≡ some p → insert l seq ≡ insert_found l seq p
unfolding insert
insert_of_some l seq p e = rw (e, insert)

insert_of_none :
    (l : AckRangeList) (seq : ℕ) → position seq l ≡ none → insert l seq ≡ insert_end l seq
unfolding insert
insert_of_none l seq e = rw (e, insert)

-- Past two ranges that are no hits, `insert` works on the tail.
insert-cons :
    (r n : AckRange) (l : AckRangeList) (seq : ℕ)
    → is_hit seq r ≡ false
    → is_hit seq n ≡ false
    → insert (r ∷ n ∷ l) seq ≡ r ∷ insert (n ∷ l) seq
insert-cons r n l seq hr hn = elim (Option-cases (position seq l)) [
  | inl e ↦ cc (
    insert_of_none (r ∷ n ∷ l) seq (cc (position_miss r (n ∷ l) seq hr, position_miss n l seq hn)),
    insert_of_none (n ∷ l) seq (cc (position_miss n l seq hn)),
    insert_end-cons r n l seq,
  )
  | inr (p, e) ↦ cc (
    insert_of_some (r ∷ n ∷ l) seq (suc (suc p))
        (cc (position_miss r (n ∷ l) seq hr, position_miss n l seq hn)),
    insert_of_some (n ∷ l) seq (suc p) (cc (position_miss n l seq hn)),
    insert_found-cons r (n ∷ l) seq p,
  )
]

-- The first range is a hit.
insert_at_first :
    (r : AckRange) (l : AckRangeList) (seq : ℕ)
    → IsSpaced 0 (r ∷ l)
    → seq ≤ range_end r
    → insert_found (r ∷ l) seq 0 ≡ place seq (r ∷ l)
unfolding place insert_found can_merge_with_prev merge_at merged join_next range_start range_end
insert_at_first r [] seq w h = ground (arith, contains_bounds r seq, proper_bounds r)
insert_at_first r (n ∷ l) seq w h = ground (arith, contains_bounds r seq, proper_bounds r)

-- The second range is a hit, and the number lies above the first.
insert_at_second :
    (r n : AckRange) (l : AckRangeList) (seq : ℕ)
    → IsSpaced 0 (r ∷ n ∷ l)
    → range_end r < seq
    → seq ≤ range_end n
    → insert_found (r ∷ n ∷ l) seq 1 ≡ place seq (r ∷ n ∷ l)
unfolding place insert_found can_merge_with_next can_merge_with_prev merge_at merged join_next
    joined range_start range_end
insert_at_second r n l seq w h k =
    ground (arith, contains_bounds r seq, proper_bounds r, contains_bounds n seq, proper_bounds n)

insert_single :
    (r : AckRange) (seq : ℕ)
    → IsSpaced 0 (r ∷ [])
    → range_end r < seq
    → insert_end (r ∷ []) seq ≡ place seq (r ∷ [])
unfolding place insert_end can_merge_with_next merge_at merged join_next joined range_start
    range_end
insert_single r seq w h = ground (arith, contains_bounds r seq, proper_bounds r)

place_past :
    (r n : AckRange) (l : AckRangeList) (seq : ℕ)
    → IsSpaced 0 (r ∷ n ∷ l)
    → range_end n < seq
    → place seq (r ∷ n ∷ l) ≡ r ∷ place seq (n ∷ l)
unfolding place
place_past r n l seq w h =
    ground (arith, contains_bounds r seq, proper_bounds r, contains_bounds n seq, proper_bounds n)

is_hit_miss : (r : AckRange) (seq : ℕ) → IsProper r → range_end r < seq → is_hit seq r ≡ false
is_hit_miss r seq h k = is_hit_lem r seq h ∙ leb_gt seq (range_end r) k

is_hit_here : (r : AckRange) (seq : ℕ) → IsProper r → seq ≤ range_end r → is_hit seq r ≡ true
is_hit_here r seq h k = is_hit_lem r seq h ∙ le→leb seq (range_end r) k

-- On a well-formed list `insert` is the recursive insertion.
pub insert-place :
    (l : AckRangeList) (from seq : ℕ) → IsSpaced from l → IsU24 seq → insert l seq ≡ place seq l
insert-place [] from seq w h =
    insert_of_none [] seq (unfold position in refl) ∙ (unfold place insert_end in refl)
insert-place (r ∷ []) from seq w h = elim (dec_lt (range_end r) seq) [
  | yes above ↦
      insert_of_none (r ∷ []) seq
        (position_miss r [] seq (is_hit_miss r seq w.1 above) ∙ (unfold position in refl))
      ∙ insert_single r seq (omega arith, w.1, w.2) above
  | no low ↦
      insert_of_some (r ∷ []) seq 0 (position_hit r [] seq (is_hit_here r seq w.1 (omega arith)))
      ∙ insert_at_first r [] seq (omega arith, w.1, w.2) (omega arith)
]
insert-place (r ∷ n ∷ l) from seq w h = elim (dec_lt (range_end r) seq) [
  | yes above ↦ elim (dec_lt (range_end n) seq) [
    | yes past ↦
        insert-cons r n l seq (is_hit_miss r seq w.1 above) (is_hit_miss n seq w.2.1 past)
        ∙ ap (◌∷◌ r) (insert-place (n ∷ l) (range_end r + 2) seq w.2 h)
        ∙ sym (place_past r n l seq (omega arith, w.1, w.2) past)
    | no low ↦
        insert_of_some (r ∷ n ∷ l) seq 1 (
          position_miss r (n ∷ l) seq (is_hit_miss r seq w.1 above)
          ∙ ap next_index (position_hit n l seq (is_hit_here n seq w.2.1 (omega arith))))
        ∙ insert_at_second r n l seq (omega arith, w.1, w.2) above (omega arith)
  ]
  | no low ↦
      insert_of_some (r ∷ n ∷ l) seq 0
        (position_hit r (n ∷ l) seq (is_hit_here r seq w.1 (omega arith)))
      ∙ insert_at_first r (n ∷ l) seq (omega arith, w.1, w.2) (omega arith)
]

-- Inserting a 24-bit number keeps a list well-formed: its ranges in order, none empty or wrapping,
-- and a number left out between any two.
pub insert-IsCompressed :
    (l : AckRangeList) (seq : ℕ) → IsCompressed l → IsU24 seq → IsCompressed (insert l seq)
insert-IsCompressed l seq w h =
    rw (insert-place l 0 seq w h) (place-IsSpaced l 0 seq w h (omega arith))

-- After a 24-bit number is inserted in a well-formed list, the list holds that number and what it
-- held before, and nothing else.
pub holds-insert :
    (l : AckRangeList) (seq x : ℕ)
    → IsCompressed l
    → IsU24 seq
    → holds (insert l seq) x ≡ (x == seq || holds l x)
holds-insert l seq x w h = rw (insert-place l 0 seq w h) (holds-place l 0 seq x w h)
