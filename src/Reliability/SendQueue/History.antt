-- ===== src/Reliability/SendQueue/History.antt =====
-- reliability/send_queue.rs: the queue over whole histories of calls.
use raknet.Base.{
  Bool, suc, List, not, ◌&&◌, ◌||◌, ◌==◌, if◌then◌else◌, ltb, ap, ◌-◌, ℕ, ◌+◌, ◌*◌, ◌≡◌, false, [],
  ◌∷◌, leb, length, arith, refl, ◌∙◌, Bool-cases, Option-cases, inl, inr,
}
use raknet.Base.Map
use raknet.Reliability.Ack
use raknet.Reliability.Ack.{range}
use raknet.Base.Map.{Map}
use raknet.Reliability.SendQueue.{
  QueueEntry, SendQueue, with_capacity, insert, acknowledge, acknowledge_range, expire, get_expired,
  contains,
}
use raknet.Reliability.SendQueue.Ranges.{
  contains-acknowledge, contains-acknowledge_range, acknowledge_range_lem, left_by-length,
}
use raknet.Reliability.SendQueue.Orderly.{
  IsOrderly, insert-IsOrderly, acknowledge-IsOrderly, acknowledge_range-IsOrderly, expire-length,
  get_expired-IsOrderly,
}

-- What happened to a queue: a packet with a number was accepted or turned away, numbers were acknowledged, or packets were
-- looked for that wait too long.
pub data Event : Type 0 where
  sent : (seq : ℕ) (accepted : Bool) → Event
  acked : (seq : ℕ) → Event
  acked_range : (start end : ℕ) → Event
  expired : Event

-- The packets that were accepted, of the events, the last one first; and whether the packet with a number was accepted and
-- not acknowledged since.
pub accepted_count : List Event → ℕ
accepted_count [] = 0
accepted_count (sent seq accepted ∷ log) =
    if accepted then suc (accepted_count log) else accepted_count log
accepted_count (acked seq ∷ log) = accepted_count log
accepted_count (acked_range start end ∷ log) = accepted_count log
accepted_count (expired ∷ log) = accepted_count log

pub outstanding : List Event → ℕ → Bool
outstanding [] k = false
outstanding (sent seq accepted ∷ log) k = (accepted && seq == k) || outstanding log k
outstanding (acked seq ∷ log) k = outstanding log k && not (seq == k)
outstanding (acked_range start end ∷ log) k =
    outstanding log k && not (Ack.contains (range start end) k)
outstanding (expired ∷ log) k = outstanding log k

module _ {A : Type 0} where
  expire-contains_key :
      (now limit k : ℕ) (m : Map (QueueEntry A))
      → Map.contains_key k (expire now limit m).1 ≡ Map.contains_key k m
  unfolding expire Map.lookup
  expire-contains_key now limit k [] = refl
  expire-contains_key now limit k ((seq, entry) ∷ m) =
      let rest = expire-contains_key now limit k m in
      elim (Bool-cases (ltb limit (now - entry.last_send_time))) [
        | inl late ↦ rw late (elim (Bool-cases (seq == k)) [
          | inl here ↦ rw here refl
          | inr further ↦ rw further rest
        ])
        | inr early ↦ rw early (elim (Bool-cases (seq == k)) [
          | inl here ↦ rw here refl
          | inr further ↦ rw further rest
        ])
      ]

  -- One call. A number is sent again only after its packet has left the queue.
  pub data Step : SendQueue A → Event → SendQueue A → Type 0 where
    sends :
        {q : SendQueue A} (now seq : ℕ) (packet : A)
        → contains q seq ≡ false
        → Step q (sent seq (insert q now seq packet).0) (insert q now seq packet).1
    acks : {q : SendQueue A} (seq : ℕ) → Step q (acked seq) (acknowledge q seq).1
    acks_range :
        {q : SendQueue A} (start end : ℕ)
        → Step q (acked_range start end) (acknowledge_range q start end).1
    expires :
        {q : SendQueue A} (now rtt timeout_multiplier : ℕ)
        → Step q expired (get_expired q now rtt timeout_multiplier).1

  -- A history, from the new queue of this capacity.
  pub data Reachable (capacity : ℕ) : List Event → SendQueue A → Type 0 where
    created : Reachable capacity [] (with_capacity capacity)
    after :
        {log : List Event} {event : Event} {q r : SendQueue A}
        → Reachable capacity log q
        → Step q event r
        → Reachable capacity (event ∷ log) r

  pub record Balanced (capacity : ℕ) (log : List Event) (q : SendQueue A) : Type 0 where
    pub orderly : IsOrderly capacity q
    pub accepted : q.total_sent ≡ accepted_count log
    pub holds : (k : ℕ) → contains q k ≡ outstanding log k
    pub balance : q.total_sent ≡ q.total_acked + length q.packets

  Step-Balanced :
      (capacity : ℕ) (log : List Event) (q : SendQueue A) (event : Event) (r : SendQueue A)
      → Balanced capacity log q
      → Step q event r
      → Balanced capacity (event ∷ log) r
  unfolding insert acknowledge get_expired contains accepted_count outstanding
  Step-Balanced capacity log q _ _ b (sends now seq packet fresh) = record {
    orderly = insert-IsOrderly capacity q now seq packet b.orderly;
    accepted = elim (Bool-cases (leb q.max_size (length q.packets))) [
      | inl full ↦ rw full b.accepted
      | inr room ↦ rw room (omega (arith, b.accepted))
    ];
    holds = λ k. elim (Bool-cases (leb q.max_size (length q.packets))) [
      | inl full ↦ rw full (b.holds k)
      | inr room ↦
          let entry : QueueEntry A = record {
            packet = packet;
            last_send_time = now;
            retry_count = 0;
          } in
          let found = Map.lookup-insert q.packets seq k entry in
          rw room (ground (arith, found, b.holds k))
    ];
    balance = elim (Bool-cases (leb q.max_size (length q.packets))) [
      | inl full ↦ rw full b.balance
      | inr room ↦
          let entry : QueueEntry A = record {
            packet = packet;
            last_send_time = now;
            retry_count = 0;
          } in
          let grown = Map.length-insert q.packets 0 seq entry b.orderly.sorted in
          rw room (ground (arith, grown, fresh, b.balance))
    ];
  }
  Step-Balanced capacity log q _ _ b (acks seq) = record {
    orderly = acknowledge-IsOrderly capacity q seq b.orderly;
    accepted = elim (Option-cases (Map.lookup seq q.packets)) [
      | inl absent ↦ rw (absent, acknowledge) b.accepted
      | inr (e, present) ↦ rw (present, acknowledge) b.accepted
    ];
    holds = λ k.
        (contains-acknowledge q seq k b.orderly.sorted).0
        ∙ ap (λ h. h && not (seq == k)) (b.holds k);
    balance = elim (Option-cases (Map.lookup seq q.packets)) [
      | inl absent ↦ rw (absent, acknowledge) b.balance
      | inr (e, present) ↦
          let fewer = Map.length-remove q.packets seq in
          rw (present, acknowledge) (ground (arith, fewer, present, b.balance))
    ];
  }
  Step-Balanced capacity log q _ _ b (acks_range start end) = record {
    orderly = acknowledge_range-IsOrderly capacity q start end b.orderly;
    accepted = rw (acknowledge_range_lem q start end b.orderly.sorted) b.accepted;
    holds = λ k.
        (contains-acknowledge_range q start end k b.orderly.sorted).0
        ∙ ap (λ h. h && not (Ack.contains (range start end) k)) (b.holds k);
    balance =
        rw (acknowledge_range_lem q start end b.orderly.sorted)
          (omega (arith, left_by-length start end q.packets, b.balance));
  }
  Step-Balanced capacity log q _ _ b (expires now rtt times) = record {
    orderly = get_expired-IsOrderly capacity q now rtt times b.orderly;
    accepted = b.accepted;
    holds = λ k. expire-contains_key now (rtt * times) k q.packets ∙ b.holds k;
    balance = omega (arith, expire-length now (rtt * times) q.packets, b.balance);
  }

  -- After any history of calls on a new queue in which no number is sent again while its packet waits: the queue is in
  -- the order of its keys and holds at most its capacity; it holds a number exactly if a packet with that number was
  -- accepted and not acknowledged since, where a packet that finds the queue full is not accepted; and `total_sent`
  -- counts the packets that were accepted, each of which is counted as acknowledged or still in the queue.
  pub Reachable-Balanced :
      (capacity : ℕ) (log : List Event) (q : SendQueue A)
      → Reachable capacity log q
      → Balanced capacity log q
  unfolding with_capacity accepted_count outstanding contains Map.lookup
  Reachable-Balanced capacity _ _ created = record {
    orderly = record { sorted = tt; bounded = omega arith; limit = refl };
    accepted = refl;
    holds = λ k. refl;
    balance = refl;
  }
  Reachable-Balanced capacity _ r (after {log} {event} {q} h s) =
      Step-Balanced capacity log q event r (Reachable-Balanced capacity log q h) s
