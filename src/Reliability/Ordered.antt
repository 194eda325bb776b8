-- ===== src/Reliability/Ordered.antt =====
-- reliability/ordered.rs: one ordered channel. The packets are values of any type.
pub mod Drain
pub mod Delivery
pub mod Exactly
pub mod Limits
mod Examples
use raknet.Base.{
  ℕ, zero, suc, ◌+◌, ◌<◌, Bool, true, false, Option, none, some, List, [], ◌∷◌, ◌==◌, ltb, ◌&&◌,
  if◌then◌else◌, length,
}
use raknet.Base.Map
use raknet.Base.Map.{Map}
use raknet.Protocol.Uint24.{wrapping_add32}

pub record OrderedChannel (A : Type 0) : Type 0 where
  pub next_index : ℕ
  pub queue : Map A
  pub max_queue_size : ℕ

-- `OrderedChannel::new`
unfoldable pub new : {A : Type 0} → OrderedChannel A
new = record { next_index = 0; queue = []; max_queue_size = 256 }

module _ {A : Type 0} where
  -- `while let Some(data) = self.queue.remove(&self.next_index)`, with the packets pushed.
  pub drain : ℕ → ℕ → Map A → List A × ℕ × Map A
  drain zero next queue = ([], next, queue)
  drain (suc fuel) next queue = elim (Map.lookup next queue) [
    | none ↦ ([], next, queue)
    | some packet ↦
        let (ready, next', queue') = drain fuel (wrapping_add32 next 1) (Map.remove next queue) in
        (packet ∷ ready, next', queue')
  ]

  -- The arm for the next expected packet. Every round of the loop takes a packet from the queue, so
  -- its length is enough fuel.
  pub deliver : OrderedChannel A → A → List A × OrderedChannel A
  deliver self packet =
      let (ready, next, queue) =
        drain (length self.queue) (wrapping_add32 self.next_index 1) self.queue in
      (packet ∷ ready, record self { next_index = next; queue = queue })

  pub insert : OrderedChannel A → ℕ → A → List A × OrderedChannel A
  unfolding deliver
  insert self order_index packet =
      if order_index == self.next_index
      then deliver self packet
      else if ltb self.next_index order_index && ltb (length self.queue) self.max_queue_size
      then ([], record self { queue = Map.insert order_index packet self.queue })
      else ([], self)

  pub queue_len : OrderedChannel A → ℕ
  queue_len self = length self.queue

  pub clear : OrderedChannel A → OrderedChannel A
  clear self = record self { queue = []; next_index = 0 }
