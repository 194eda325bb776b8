-- ===== src/Reliability/Ordered/Limits.antt =====
-- reliability/ordered.rs: the order and the size of the queue, whatever is inserted.
use raknet.Base.{
  ℕ, zero, suc, ◌≤◌, ◌≡◌, ◌&&◌, List, length, ltb, ◌==◌, arith, refl, Bool-cases, Option-cases, inl,
  inr,
}
use raknet.Base.Map
use raknet.Base.Map.{Map}
use raknet.Protocol.Uint24.{wrapping_add32}
use raknet.Reliability.Ordered.{OrderedChannel, new, drain, deliver, insert}

module _ {A : Type 0} where
  -- The queue is in the order of its keys, and it holds at most this many packets.
  pub record IsLimited (limit : ℕ) (c : OrderedChannel A) : Type 0 where
    pub sorted : Map.IsSorted 0 c.queue
    pub bounded : length c.queue ≤ limit
    pub room : c.max_queue_size ≡ limit

  pub new-IsLimited : IsLimited 256 new
  unfolding new
  new-IsLimited = record { sorted = tt; bounded = omega arith; room = refl }

  -- What the loop leaves of a queue.
  record IsRest (queue : Map A) (r : List A × ℕ × Map A) : Type 0 where
    sorted : Map.IsSorted 0 r.2
    fewer : length r.2 ≤ length queue

  drain-IsRest :
      (fuel next : ℕ) (queue : Map A) → Map.IsSorted 0 queue → IsRest queue (drain fuel next queue)
  unfolding drain
  drain-IsRest zero next queue s = record { sorted = s; fewer = omega arith }
  drain-IsRest (suc fuel) next queue s = elim (Option-cases (Map.lookup next queue)) [
    | inl gap ↦ rw (gap, drain) (record { sorted = s; fewer = omega arith })
    | inr (packet, found) ↦
        let rest =
          drain-IsRest fuel (wrapping_add32 next 1) (Map.remove next queue)
            (Map.remove-IsSorted queue 0 next s) in
        rw (found, drain)
          (record {
            sorted = rest.sorted;
            fewer = omega (arith, rest.fewer, Map.length-remove queue next);
          })
  ]

  pub insert-IsLimited :
      (limit : ℕ) (c : OrderedChannel A) (index : ℕ) (packet : A)
      → IsLimited limit c
      → IsLimited limit (insert c index packet).1
  unfolding insert deliver
  insert-IsLimited limit c index packet h = elim (Bool-cases (index == c.next_index)) [
    | inl due ↦
        let rest = drain-IsRest (length c.queue) (wrapping_add32 c.next_index 1) c.queue h.sorted in
        rw due (record {
          sorted = rest.sorted;
          bounded = omega (arith, rest.fewer, h.bounded);
          room = h.room;
        })
    | inr early ↦
        elim (Bool-cases (ltb c.next_index index && ltb (length c.queue) c.max_queue_size)) [
          | inr drop ↦ rw (early, drop) h
          | inl wait ↦
              let grown = Map.length-insert c.queue 0 index packet h.sorted in
              rw (early, wait)
                (record {
                  sorted = Map.insert-IsSorted c.queue 0 index packet h.sorted (omega arith);
                  bounded = ground (arith, grown, h.room);
                  room = h.room;
                })
        ]
  ]
