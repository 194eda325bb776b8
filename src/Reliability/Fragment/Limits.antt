-- ===== src/Reliability/Fragment/Limits.antt =====
-- reliability/fragment.rs: the order and the number of the splits, whatever is inserted.
use raknet.Base.{
  ℕ, ◌≤◌, ◌≡◌, ◌&&◌, false, not, List, [], ◌∷◌, length, leb, ◌==◌, arith, refl, Bool-cases, inl,
  inr,
}
use raknet.Base.Map
use raknet.Base.Map.{Map}
use raknet.Reliability.Fragment.{
  FragmentEntry, FragmentQueue, new, set_timeout, with_capacity, entry_or_insert, insert_in_entry,
  insert, remove_each, expired_ids, cleanup_expired,
}

-- The splits are in the order of their ids, and there are at most this many.
pub record IsLimited (limit : ℕ) (q : FragmentQueue) : Type 0 where
  pub sorted : Map.IsSorted 0 q.splits
  pub bounded : length q.splits ≤ limit
  pub room : q.max_concurrent ≡ limit

pub new-IsLimited : (timeout : ℕ) → IsLimited 512 (set_timeout new timeout)
unfolding set_timeout new with_capacity
new-IsLimited timeout = record { sorted = tt; bounded = omega arith; room = refl }

put-IsLimited :
    (limit : ℕ) (q : FragmentQueue) (id : ℕ) (entry : FragmentEntry)
    → IsLimited limit q
    → leb q.max_concurrent (length q.splits) && not (Map.contains_key id q.splits) ≡ false
    → IsLimited limit (record q { splits = Map.insert id entry q.splits })
put-IsLimited limit q id entry h place =
    let grown = Map.length-insert q.splits 0 id entry h.sorted in
    record {
      sorted = Map.insert-IsSorted q.splits 0 id entry h.sorted (omega arith);
      bounded = ground (arith, grown, h.room, h.bounded);
      room = h.room;
    }

drop-IsLimited :
    (limit : ℕ) (q : FragmentQueue) (id : ℕ)
    → IsLimited limit q
    → IsLimited limit (record q { splits = Map.remove id q.splits })
drop-IsLimited limit q id h = record {
  sorted = Map.remove-IsSorted q.splits 0 id h.sorted;
  bounded = omega (arith, h.bounded, Map.length-remove q.splits id);
  room = h.room;
}

insert_in_entry-IsLimited :
    (limit : ℕ) (q : FragmentQueue) (entry : FragmentEntry) (id index count : ℕ) (bytes : List ℕ)
    → IsLimited limit q
    → leb q.max_concurrent (length q.splits) && not (Map.contains_key id q.splits) ≡ false
    → IsLimited limit (insert_in_entry q entry id index count bytes).1
unfolding insert_in_entry
insert_in_entry-IsLimited limit q entry id index count bytes h place =
    elim (Bool-cases (not (entry.total_count == count))) [
      | inl other ↦ rw other (drop-IsLimited limit q id h)
      | inr same ↦ elim (Bool-cases (Map.contains_key index entry.fragments)) [
        | inl again ↦ rw (same, again) (put-IsLimited limit q id entry h place)
        | inr new ↦ elim (Bool-cases (length (Map.insert index bytes entry.fragments) == count)) [
          | inl last ↦ rw (same, new, last) (drop-IsLimited limit q id h)
          | inr more ↦ rw (same, new, more) (put-IsLimited limit q id _ h place)
        ]
      ]
    ]

pub insert-IsLimited :
    (limit : ℕ) (q : FragmentQueue) (now id index count : ℕ) (bytes : List ℕ)
    → IsLimited limit q
    → IsLimited limit (insert q now id index count bytes).1
unfolding insert
insert-IsLimited limit q now id index count bytes h = elim (Bool-cases (leb count index)) [
  | inl beyond ↦ rw beyond h
  | inr within ↦
      elim (Bool-cases
        (leb q.max_concurrent (length q.splits) && not (Map.contains_key id q.splits))) [
          | inl full ↦ rw (within, full) h
          | inr place ↦
              rw (within, place)
                (insert_in_entry-IsLimited limit q (entry_or_insert q now id count) id index count
                  bytes h place)
        ]
]

remove_each-IsLimited :
    (limit : ℕ) (ids : List ℕ) (q : FragmentQueue)
    → IsLimited limit q
    → IsLimited limit (record q { splits = remove_each ids q.splits })
unfolding remove_each
remove_each-IsLimited limit [] q h = h
remove_each-IsLimited limit (id ∷ ids) q h =
    remove_each-IsLimited limit ids (record q { splits = Map.remove id q.splits })
      (drop-IsLimited limit q id h)

pub cleanup_expired-IsLimited :
    (limit : ℕ) (q : FragmentQueue) (now : ℕ)
    → IsLimited limit q
    → IsLimited limit (cleanup_expired q now).1
unfolding cleanup_expired
cleanup_expired-IsLimited limit q now h =
    remove_each-IsLimited limit (expired_ids now q.timeout q.splits) q h
