-- ===== src/Reliability/SendQueue/Examples.antt =====
-- Tests of the send queue, and the theorems at a concrete history.
use raknet.Base.{List, ℕ, ◌+◌, ◌≡◌, ◌&&◌, false, not, [], ◌∷◌, length, refl, arith}
use raknet.Base.Map
use raknet.Reliability.Ack
use raknet.Reliability.Ack.{range}
use raknet.Reliability.SendQueue.{
  SendQueue, with_capacity, insert, acknowledge_range, get_expired, contains, keys_in, remove_each,
  expire,
}
use raknet.Reliability.SendQueue.Ranges.{contains-acknowledge_range}
use raknet.Reliability.SendQueue.History.{
  Event, sent, expired, Reachable, created, after, sends, expires, Balanced, Reachable-Balanced,
}

-- Packets 0, 1 and 0xFFFFFF, sent at the instants 5, 6 and 4.
abbrev three_packets : SendQueue ℕ
three_packets = record {
  packets =
      (0, record { packet = 10; last_send_time = 5; retry_count = 0 })
      ∷ (1, record { packet = 11; last_send_time = 6; retry_count = 0 })
      ∷ (0xFFFFFF, record { packet = 12; last_send_time = 4; retry_count = 0 })
      ∷ [];
  max_size = 3;
  total_sent = 3;
  total_acked = 0;
  total_retransmitted = 0;
}

insert_full_test : (insert three_packets 7 2 13).0 ≡ false
unfolding insert
insert_full_test = refl

acknowledge_range_wrapped_test : (acknowledge_range three_packets 0xFFFFF0 0).0 ≡ 2
unfolding acknowledge_range keys_in remove_each
acknowledge_range_wrapped_test = refl

get_expired_test : (get_expired three_packets 10 2 2).0 ≡ (0, 10) ∷ (0xFFFFFF, 12) ∷ []
unfolding get_expired expire
get_expired_test = refl

contains-acknowledge_range_example :
    (contains (acknowledge_range three_packets 0xFFFFF0 0).1 1
      ≡ (contains three_packets 1 && not (Ack.contains (range 0xFFFFF0 0) 1)))
    × ((acknowledge_range three_packets 0xFFFFF0 0).0
          + length (acknowledge_range three_packets 0xFFFFF0 0).1.packets
        ≡ length three_packets.packets)
    × ((acknowledge_range three_packets 0xFFFFF0 0).1.total_acked
        ≡ three_packets.total_acked + (acknowledge_range three_packets 0xFFFFF0 0).0)
contains-acknowledge_range_example =
    contains-acknowledge_range three_packets 0xFFFFF0 0 1
      (omega arith, (omega arith, (omega arith, tt)))

abbrev one_sent : List Event
one_sent = expired ∷ sent 5 (insert {A = ℕ} (with_capacity 3) 0 5 10).0 ∷ []

one_sent-Reachable :
    Reachable {A = ℕ} 3 one_sent (get_expired (insert (with_capacity 3) 0 5 10).1 20 2 3).1
unfolding contains with_capacity Map.lookup
one_sent-Reachable = after (after created (sends 0 5 10 refl)) (expires 20 2 3)

Reachable-Balanced_example :
    Balanced {A = ℕ} 3 one_sent (get_expired (insert (with_capacity 3) 0 5 10).1 20 2 3).1
Reachable-Balanced_example =
    Reachable-Balanced 3 one_sent (get_expired (insert (with_capacity 3) 0 5 10).1 20 2 3).1
      one_sent-Reachable
