-- ===== src/State/Shared.antt =====
-- state/shared.rs: the state that the tasks of one connection share. A lock is held for one operation, so each
-- operation is one indivisible step.
pub mod Counters
pub mod Fresh
use raknet.Base.{
  ℕ, ◌+◌, ◌*◌, ◌%◌, ◌^◌, Bool, true, false, List, [], length, get_or, set, replicate, ltb, ◌==◌,
  if◌then◌else◌, Result, ok, panic, ◌>>=◌, ◌⊎◌, inl, inr,
}
use raknet.Base.Map.{Map}
use raknet.Protocol.Uint24.Atomic
use raknet.Protocol.Uint24.Atomic.{Cell}
use raknet.Reliability.Ack.{AckRangeList}
use raknet.Reliability.BitVec.{BitVec}
use raknet.Reliability.Fragment
use raknet.Reliability.Fragment.{FragmentQueue}
use raknet.Reliability.Ordered
use raknet.Reliability.Ordered.{OrderedChannel}
use raknet.Reliability.RecvWindow
use raknet.Reliability.RecvWindow.{RecvWindow, RecvWindowStats}
use raknet.Reliability.SendQueue
use raknet.Reliability.SendQueue.{SendQueue, SendQueueStats}
use raknet.State.Connection
use raknet.State.Connection.{
  ConnectionState, connecting, connected, disconnecting, disconnected, AtomicConnectionState, to_u8,
  load, store, transition,
}
use raknet.State.Metrics
use raknet.State.Metrics.{ConnectionMetrics, MetricsSnapshot}

pub record SharedState : Type 0 where
  pub state : AtomicConnectionState
  pub send_seq : Cell
  pub split_id : ℕ
  pub mtu : ℕ
  pub metrics : ConnectionMetrics
  pub send_queue : SendQueue (List ℕ)
  pub recv_window : RecvWindow
  pub fragment_queue : FragmentQueue
  pub ordered_channels : List (OrderedChannel (List ℕ))
  pub pending_acks : AckRangeList
  pub pending_nacks : AckRangeList
  -- The time at which the ping with a timestamp was sent.
  pub pending_pings : Map ℕ
  pub message_index : Cell
  pub order_indices : List Cell
  pub sequence_index : Cell

-- Times are in microseconds, also the 8 seconds of the fragment queue.
unfoldable pub new : BitVec → ℕ → ℕ → SharedState
new bits now mtu = record {
  state = Connection.new connecting;
  send_seq = Atomic.init 0;
  split_id = 0;
  mtu = mtu;
  metrics = Metrics.new now;
  send_queue = SendQueue.new;
  recv_window = RecvWindow.new bits;
  fragment_queue = Fragment.set_timeout Fragment.new (8 * 1_000_000);
  ordered_channels = replicate 16 Ordered.new;
  pending_acks = [];
  pending_nacks = [];
  pending_pings = [];
  message_index = Atomic.init 0;
  order_indices = replicate 16 (Atomic.init 0);
  sequence_index = Atomic.init 0;
}

unfoldable pub next_send_seq : SharedState → ℕ × SharedState
next_send_seq self =
    let (seq, cell) = Atomic.fetch_add self.send_seq 1 in (seq, record self { send_seq = cell })

unfoldable pub next_message_index : SharedState → ℕ × SharedState
next_message_index self =
    let (index, cell) = Atomic.fetch_add self.message_index 1 in
    (index, record self { message_index = cell })

-- A channel that the array does not have panics.
unfoldable pub next_order_index : SharedState → ℕ → Result ℕ × SharedState
next_order_index self channel =
    if ltb channel (length self.order_indices)
    then (let (index, cell) = Atomic.fetch_add (get_or self.order_indices channel 0) 1 in
        (ok index, record self { order_indices = set self.order_indices channel cell }))
    else (panic, self)

unfoldable pub next_sequence_index : SharedState → ℕ × SharedState
next_sequence_index self =
    let (index, cell) = Atomic.fetch_add self.sequence_index 1 in
    (index, record self { sequence_index = cell })

-- `fetch_add` of a `u16`.
unfoldable pub next_split_id : SharedState → ℕ × SharedState
next_split_id self = (self.split_id, record self { split_id = (self.split_id + 1) % 2 ^ 16 })

-- `SharedState::mtu` is the field. The snapshots of its parts:
pub send_queue_stats : SharedState → SendQueueStats
send_queue_stats self = SendQueue.stats self.send_queue

pub recv_window_stats : SharedState → RecvWindowStats
recv_window_stats self = RecvWindow.stats self.recv_window

pub metrics_snapshot : SharedState → MetricsSnapshot
metrics_snapshot self = Metrics.snapshot self.metrics

unfoldable pub set_mtu : SharedState → ℕ → SharedState
set_mtu self mtu = record self { mtu = mtu }

unfoldable pub connection_state : SharedState → Result ConnectionState
connection_state self = load self.state

unfoldable pub is_connected : SharedState → Result Bool
unfolding connection_state
is_connected self = do state ← connection_state self; ok (to_u8 state == to_u8 connected)

unfoldable pub is_closed : SharedState → Result Bool
unfolding connection_state
is_closed self = do state ← connection_state self; ok (Connection.is_closed state)

-- `Result::is_ok`
pub is_ok : Unit {0} ⊎ ConnectionState → Bool
is_ok (inl _) = true
is_ok (inr _) = false

unfoldable pub mark_connected : SharedState → Result Bool × SharedState
mark_connected self =
    let (changed, cell) = transition self.state connecting connected in
    ((changed >>= λ r. ok (is_ok r)), record self { state = cell })

unfoldable pub mark_disconnecting : SharedState → Result Bool × SharedState
mark_disconnecting self =
    let (changed, cell) = transition self.state connected disconnecting in
    ((changed >>= λ r. ok (is_ok r)), record self { state = cell })

unfoldable pub mark_disconnected : SharedState → SharedState
mark_disconnected self = record self { state = store self.state disconnected }

pub is_timed_out : SharedState → ℕ → Bool
is_timed_out self now = Metrics.is_timed_out self.metrics now
