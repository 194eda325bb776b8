-- ===== src/Reliability/Ack/Sequences.antt =====
-- reliability/ack.rs: a list made of many numbers at once.
use raknet.Base.{
  ℕ, ◌≡◌, ◌||◌, ◌==◌, List, [], ◌∷◌, map, arrives, leb, Bool-cases, inl, inr, arith, refl, sym, ap,
  ◌∙◌,
}
use raknet.Protocol.Uint24.{new}
use raknet.Protocol.Uint24.Laws.{IsU24, new-mod}
use raknet.Reliability.Ack.{AckRangeList, insert, sorted_insert, sort, insert_each, from_sequences}
use raknet.Reliability.Ack.Spaced.{IsCompressed, holds}
use raknet.Reliability.Ack.Insert.{insert-IsCompressed, holds-insert}
use raknet.Reliability.Ack.Canonical.{canonical}

new-IsU24 : (n : ℕ) → IsU24 (new n)
new-IsU24 n = omega (arith, new-mod n)

-- A well-formed list, and what it holds beside the numbers of another one.
record Holds (l : AckRangeList) (r : AckRangeList) (seqs : List ℕ) : Type 0 where
  compressed : IsCompressed r
  members : (x : ℕ) → holds r x ≡ (holds l x || arrives x (map new seqs))

insert_each-Holds :
    (seqs : List ℕ) (l : AckRangeList) → IsCompressed l → Holds l (insert_each l seqs) seqs
unfolding insert_each
insert_each-Holds [] l w = record { compressed = w; members = λ x. ground arith }
insert_each-Holds (seq ∷ seqs) l w =
    let rest =
      insert_each-Holds seqs (insert l (new seq))
        (insert-IsCompressed l (new seq) w (new-IsU24 seq)) in
    record {
      compressed = rest.compressed;
      members = λ x. ground (arith, rest.members x, holds-insert l (new seq) x w (new-IsU24 seq));
    }

arrives-sorted_insert :
    (x n : ℕ) (seqs : List ℕ)
    → arrives x (map new (sorted_insert n seqs)) ≡ arrives x (map new (n ∷ seqs))
unfolding sorted_insert
arrives-sorted_insert x n [] = refl
arrives-sorted_insert x n (m ∷ rest) = elim (Bool-cases (leb n m)) [
  | inl first ↦ rw first refl
  | inr later ↦ rw later (ground (arith, arrives-sorted_insert x n rest))
]

arrives-sort : (x : ℕ) (seqs : List ℕ) → arrives x (map new (sort seqs)) ≡ arrives x (map new seqs)
unfolding sort
arrives-sort x [] = refl
arrives-sort x (n ∷ rest) =
    arrives-sorted_insert x n (sort rest) ∙ ap (λ b. x == new n || b) (arrives-sort x rest)

-- The list made of any numbers is well formed and holds these numbers, modulo 2 ^ 24, and no
-- others; and it is the list that inserting them one by one gives, in the order in which they come and without
-- sorting them.
pub from_sequences_lem :
    (seqs : List ℕ)
    → IsCompressed (from_sequences seqs)
      × ((x : ℕ) → holds (from_sequences seqs) x ≡ arrives x (map new seqs))
      × (from_sequences seqs ≡ insert_each [] seqs)
unfolding from_sequences holds
from_sequences_lem seqs =
    let sorted = insert_each-Holds (sort seqs) [] tt in
    let plain = insert_each-Holds seqs [] tt in
    let same : (x : ℕ) → holds (insert_each [] (sort seqs)) x ≡ arrives x (map new seqs) =
      λ x. sorted.members x ∙ arrives-sort x seqs in
    (
      sorted.compressed,
      same,
      canonical (insert_each [] (sort seqs)) (insert_each [] seqs) sorted.compressed
          plain.compressed (λ x _. same x ∙ sym (plain.members x)),
    )
