-- ===== src/Connection/Sharing.antt =====
-- connection.rs, state/shared.rs: what the tasks of a connection do to its shared state in one piece. Every lock is
-- held, and every atomic is accessed, for one of these steps, so the tasks interleave at their borders.
pub mod Sound
pub mod Invariant
pub mod Traces
pub mod Tasks
mod Examples
use raknet.Base.{ℕ, ◌<◌, List, [], length, get_or, set}
use raknet.Base.Map
use raknet.Protocol.Uint24.Laws.{IsU24}
use raknet.Reliability.Ack
use raknet.Reliability.BitVec.{BitVec}
use raknet.Reliability.Fragment
use raknet.Reliability.Ordered
use raknet.Reliability.SendQueue
use raknet.State.Metrics.{ConnectionMetrics}
use raknet.State.Shared
use raknet.State.Shared.{
  SharedState, next_send_seq, next_message_index, next_order_index, next_sequence_index,
  next_split_id, set_mtu, mark_connected, mark_disconnecting, mark_disconnected,
}
use raknet.Connection.Receive.{mark_in_window}

module _ (bits : BitVec) where
  pub data Step (s : SharedState) : SharedState → Type 0 where
    takes_send_seq : Step s (next_send_seq s).1
    takes_message_index : Step s (next_message_index s).1
    takes_order_index : (channel : ℕ) → Step s (next_order_index s channel).1
    takes_sequence_index : Step s (next_sequence_index s).1
    takes_split_id : Step s (next_split_id s).1
    sets_mtu : (mtu : ℕ) → Step s (set_mtu s mtu)
    connects : Step s (mark_connected s).1
    closes : Step s (mark_disconnecting s).1
    disconnects : Step s (mark_disconnected s)
    -- The metrics are separate atomics, so that a step may leave any mixture of them.
    measures : (metrics : ConnectionMetrics) → Step s (record s { metrics = metrics })
    queues :
        (now seq : ℕ) (datagram : List ℕ)
        → Step s (record s { send_queue = (SendQueue.insert s.send_queue now seq datagram).1 })
    acknowledges :
        (seq : ℕ) → Step s (record s { send_queue = (SendQueue.acknowledge s.send_queue seq).1 })
    acknowledges_range :
        (start end : ℕ)
        → Step s (record s { send_queue = (SendQueue.acknowledge_range s.send_queue start end).1 })
    expires :
        (now rtt times : ℕ)
        → Step s (record s { send_queue = (SendQueue.get_expired s.send_queue now rtt times).1 })
    marks : (seq : ℕ) → IsU24 seq → Step s (mark_in_window bits seq s).1
    notes_ack :
        (seq : ℕ) → IsU24 seq → Step s (record s { pending_acks = Ack.insert s.pending_acks seq })
    takes_acks : Step s (record s { pending_acks = [] })
    takes_nacks : Step s (record s { pending_nacks = [] })
    inserts_fragment :
        (now id index count : ℕ) (bytes : List ℕ)
        → Step s (record s {
          fragment_queue = (Fragment.insert s.fragment_queue now id index count bytes).1;
        })
    cleans_fragments :
        (now : ℕ)
        → Step s (record s { fragment_queue = (Fragment.cleanup_expired s.fragment_queue now).1 })
    inserts_ordered :
        (channel index : ℕ) (payload : List ℕ)
        → channel < length s.ordered_channels
        → Step s (record s {
          ordered_channels =
              set s.ordered_channels channel
                (Ordered.insert (get_or s.ordered_channels channel Ordered.new) index payload).1;
        })
    notes_ping :
        (timestamp now : ℕ)
        → Step s (record s { pending_pings = Map.insert timestamp now s.pending_pings })
    takes_ping :
        (timestamp : ℕ) → Step s (record s { pending_pings = Map.remove timestamp s.pending_pings })

  -- Steps one after another, whichever task takes each of them.
  pub data Steps (s : SharedState) : SharedState → Type 0 where
    stop : Steps s s
    also : {t u : SharedState} → Steps s t → Step t u → Steps s u
