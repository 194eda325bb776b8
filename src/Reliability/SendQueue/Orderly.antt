-- ===== src/Reliability/SendQueue/Orderly.antt =====
-- reliability/send_queue.rs: the order and the size of the queue, whatever is called.
use raknet.Base.{
  ℕ, suc, ◌-◌, ◌*◌, ◌≤◌, ◌≡◌, [], ◌∷◌, ltb, leb, length, arith, refl, Bool-cases, Option-cases, inl,
  inr,
}
use raknet.Base.Map
use raknet.Base.Map.{Map}
use raknet.Reliability.SendQueue.{
  QueueEntry, SendQueue, new, with_capacity, insert, acknowledge, acknowledge_range, expire,
  get_expired,
}
use raknet.Reliability.SendQueue.Ranges.{acknowledge_range_lem, outside-IsSorted, left_by-length}
use raknet.Reliability.Ack.{range}
use raknet.Reliability.Ack

-- The queue is in the order of its keys, and it holds at most its capacity.
pub record IsOrderly {A : Type 0} (capacity : ℕ) (q : SendQueue A) : Type 0 where
  pub sorted : Map.IsSorted 0 q.packets
  pub bounded : length q.packets ≤ capacity
  pub limit : q.max_size ≡ capacity

module _ {A : Type 0} where
  pub expire-length :
      (now timeout : ℕ) (m : Map (QueueEntry A)) → length (expire now timeout m).1 ≡ length m
  unfolding expire
  expire-length now timeout [] = refl
  expire-length now timeout ((k, e) ∷ m) = ground (arith, expire-length now timeout m)

  expire-IsSorted :
      (now timeout : ℕ) (m : Map (QueueEntry A)) (low : ℕ)
      → Map.IsSorted low m
      → Map.IsSorted low (expire now timeout m).1
  unfolding expire
  expire-IsSorted now timeout [] low s = tt
  expire-IsSorted now timeout ((k, e) ∷ m) low s =
      elim (Bool-cases (ltb timeout (now - e.last_send_time))) [
        | inl late ↦ rw late (s.0, expire-IsSorted now timeout m (suc k) s.1)
        | inr soon ↦ rw soon (s.0, expire-IsSorted now timeout m (suc k) s.1)
      ]

  pub new-IsOrderly : IsOrderly {A = A} 2048 new
  unfolding new with_capacity
  new-IsOrderly = record { sorted = tt; bounded = omega arith; limit = refl }

  -- The calls keep that.
  module _ (capacity : ℕ) (q : SendQueue A) where
    pub insert-IsOrderly :
        (now seq : ℕ) (packet : A)
        → IsOrderly capacity q
        → IsOrderly capacity (insert q now seq packet).1
    unfolding insert
    insert-IsOrderly now seq packet b = elim (Bool-cases (leb q.max_size (length q.packets))) [
      | inl full ↦ rw full b
      | inr room ↦
          let entry : QueueEntry A = record {
            packet = packet;
            last_send_time = now;
            retry_count = 0;
          } in
          let grown = Map.length-insert q.packets 0 seq entry b.sorted in
          rw room (record {
            sorted = Map.insert-IsSorted q.packets 0 seq entry b.sorted (omega arith);
            bounded = ground (arith, grown, b.limit);
            limit = b.limit;
          })
    ]

    pub acknowledge-IsOrderly :
        (seq : ℕ) → IsOrderly capacity q → IsOrderly capacity (acknowledge q seq).1
    unfolding acknowledge
    acknowledge-IsOrderly seq b = elim (Option-cases (Map.lookup seq q.packets)) [
      | inl absent ↦ rw (absent, acknowledge) b
      | inr (e, present) ↦
          let fewer = Map.length-remove q.packets seq in
          rw (present, acknowledge)
            (record {
              sorted = Map.remove-IsSorted q.packets 0 seq b.sorted;
              bounded = ground (arith, fewer, present, b.bounded);
              limit = b.limit;
            })
    ]

    pub acknowledge_range-IsOrderly :
        (start end : ℕ)
        → IsOrderly capacity q
        → IsOrderly capacity (acknowledge_range q start end).1
    acknowledge_range-IsOrderly start end b =
        rw (acknowledge_range_lem q start end b.sorted) (record {
          sorted = outside-IsSorted (Ack.contains (range start end)) q.packets 0 b.sorted;
          bounded = omega (arith, left_by-length start end q.packets, b.bounded);
          limit = b.limit;
        })

    pub get_expired-IsOrderly :
        (now rtt times : ℕ)
        → IsOrderly capacity q
        → IsOrderly capacity (get_expired q now rtt times).1
    unfolding get_expired
    get_expired-IsOrderly now rtt times b = record {
      sorted = expire-IsSorted now (rtt * times) q.packets 0 b.sorted;
      bounded = omega (arith, expire-length now (rtt * times) q.packets, b.bounded);
      limit = b.limit;
    }
