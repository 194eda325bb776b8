-- ===== src/Reliability/SendQueue.antt =====
-- reliability/send_queue.rs: the packets that were sent and not yet acknowledged, of any type.
-- Instants and durations are numbers of one unit; the clock's reading is an argument. The counters
-- do not wrap.
pub mod Ranges
pub mod Orderly
pub mod History
mod Examples
use raknet.Base.{
  ℕ, suc, ◌+◌, ◌-◌, ◌*◌, Bool, true, false, Option, none, some, List, [], ◌∷◌, ◌++◌, ltb, leb, ◌&&◌,
  if◌then◌else◌, length, min,
}
use raknet.Base.Map
use raknet.Base.Map.{Map}

pub record QueueEntry (A : Type 0) : Type 0 where
  pub packet : A
  pub last_send_time : ℕ
  pub retry_count : ℕ

pub record SendQueue (A : Type 0) : Type 0 where
  pub packets : Map (QueueEntry A)
  pub max_size : ℕ
  pub total_sent : ℕ
  pub total_acked : ℕ
  pub total_retransmitted : ℕ

pub record SendQueueStats : Type 0 where
  pub total_sent : ℕ
  pub total_acked : ℕ
  pub total_retransmitted : ℕ
  pub current_queue_size : ℕ
  pub max_size : ℕ

module _ {A : Type 0} where
  unfoldable pub with_capacity : ℕ → SendQueue A
  with_capacity max_size = record {
    packets = [];
    max_size = max_size;
    total_sent = 0;
    total_acked = 0;
    total_retransmitted = 0;
  }

  -- `SendQueue::new`
  pub new : SendQueue A
  new = with_capacity 2048

  pub is_full : SendQueue A → Bool
  is_full self = leb self.max_size (length self.packets)

  unfoldable pub insert : SendQueue A → ℕ → ℕ → A → Bool × SendQueue A
  insert self now seq packet = if leb self.max_size (length self.packets) then (false, self) else (
    true,
    record self {
      packets =
          Map.insert seq (record { packet = packet; last_send_time = now; retry_count = 0 })
            self.packets;
      total_sent = self.total_sent + 1;
    },
  )

  unfoldable pub acknowledge : SendQueue A → ℕ → Option A × SendQueue A
  acknowledge self seq = elim (Map.lookup seq self.packets) [
    | none ↦ (none, self)
    | some entry ↦ (
      some entry.packet,
      record self { packets = Map.remove seq self.packets; total_acked = self.total_acked + 1 },
    )
  ]

  -- The keys that `self.packets.range(..)` walks over, in ascending order.
  pub keys_in : (ℕ → Bool) → Map (QueueEntry A) → List ℕ
  keys_in within [] = []
  keys_in within ((k, e) ∷ m) = if within k then k ∷ keys_in within m else keys_in within m

  -- `for seq in to_remove`
  pub remove_each : List ℕ → SendQueue A → ℕ → ℕ × SendQueue A
  remove_each [] self count = (count, self)
  remove_each (seq ∷ to_remove) self count =
      remove_each to_remove
        (record self { packets = Map.remove seq self.packets; total_acked = self.total_acked + 1 })
        (count + 1)

  unfoldable pub acknowledge_range : SendQueue A → ℕ → ℕ → ℕ × SendQueue A
  unfolding keys_in remove_each
  acknowledge_range self start end =
      if leb start end
      then remove_each (keys_in (λ k. leb start k && leb k end) self.packets) self 0
      else remove_each
          (keys_in (λ k. leb start k) self.packets ++ keys_in (λ k. leb k end) self.packets) self 0

  -- The loop of `get_expired` over the entries: those that it resends, and the entries after it.
  unfoldable pub expire : ℕ → ℕ → Map (QueueEntry A) → List (ℕ × A) × Map (QueueEntry A)
  expire now timeout [] = ([], [])
  expire now timeout ((seq, entry) ∷ m) =
      let (expired, m') = expire now timeout m in
      if ltb timeout (now - entry.last_send_time)
      then (
        (seq, entry.packet) ∷ expired,
        (seq, record entry { last_send_time = now; retry_count = min (entry.retry_count + 1) 255 })
            ∷ m',
      )
      else (expired, (seq, entry) ∷ m')

  unfoldable pub get_expired : SendQueue A → ℕ → ℕ → ℕ → List (ℕ × A) × SendQueue A
  unfolding expire
  get_expired self now rtt timeout_multiplier =
      let (expired, packets) = expire now (rtt * timeout_multiplier) self.packets in
      (
        expired,
        record self {
          packets = packets;
          total_retransmitted = self.total_retransmitted + length expired;
        },
      )

  unfoldable pub contains : SendQueue A → ℕ → Bool
  contains self seq = Map.contains_key seq self.packets

  pub stats : SendQueue A → SendQueueStats
  stats self = record {
    total_sent = self.total_sent;
    total_acked = self.total_acked;
    total_retransmitted = self.total_retransmitted;
    current_queue_size = length self.packets;
    max_size = self.max_size;
  }

  pub clear : SendQueue A → SendQueue A
  clear self = record self { packets = [] }
