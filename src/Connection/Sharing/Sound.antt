-- ===== src/Connection/Sharing/Sound.antt =====
-- connection.rs, state/shared.rs: a shared state whose parts are in order and within their limits.
use raknet.Base.{
  ℕ, ◌^◌, ◌<◌, ◌≡◌, List, [], length, get_or, set, All, All-get_or, All-set, length-set, ◌∙◌,
}
use raknet.Base.Map
use raknet.Reliability.Ack.Spaced.{IsCompressed}
use raknet.Reliability.Fragment.Limits as FragmentLimits
use raknet.Reliability.Ordered
use raknet.Reliability.Ordered.{OrderedChannel}
use raknet.Reliability.Ordered.Limits as OrderedLimits
use raknet.Reliability.Ack.{AckRangeList}
use raknet.Reliability.RecvWindow.{RecvWindow}
use raknet.Reliability.Fragment.{FragmentQueue}
use raknet.Reliability.SendQueue.{SendQueue}
use raknet.State.Metrics.{ConnectionMetrics}
use raknet.Base.Map.{Map}
use raknet.Reliability.RecvWindow.Marks.{IsWindow}
use raknet.Reliability.SendQueue.Orderly.{IsOrderly}
use raknet.State.Connection.{ConnectionState}
use raknet.State.Connection.Lifecycle.{HasReached}
use raknet.State.Shared.{SharedState}

-- The cell holds a state, at or after this one, and there are 16 order indices.
pub record HasCounters (from : ConnectionState) (cell id : ℕ) (indices : List ℕ) : Type 0 where
  pub state : HasReached from cell
  pub split_id : id < 2 ^ 16
  pub channels : length indices ≡ 16

-- There are 16 ordered channels, and each holds back at most 256 packets.
pub record AreChannels (channels : List (OrderedChannel (List ℕ))) : Type 0 where
  pub count : length channels ≡ 16
  pub each : All (OrderedLimits.IsLimited 256) channels

-- The parts of the shared state are in order and within their limits, and the connection has come to this state.
pub record Sound (from : ConnectionState) (s : SharedState) : Type 0 where
  pub counters : HasCounters from s.state s.split_id s.order_indices
  pub send_queue : IsOrderly 2048 s.send_queue
  pub recv_window : IsWindow s.recv_window
  pub fragment_queue : FragmentLimits.IsLimited 512 s.fragment_queue
  pub ordered_channels : AreChannels s.ordered_channels
  pub pending_acks : IsCompressed s.pending_acks
  pub pending_nacks : s.pending_nacks ≡ []
  pub pending_pings : Map.IsSorted 0 s.pending_pings

module _ (from : ConnectionState) (s : SharedState) (h : Sound from s) where
  pub counted :
      (state message_index split_id send_seq sequence_index mtu : ℕ) (metrics : ConnectionMetrics)
      (order_indices : List ℕ)
      → HasCounters from state split_id order_indices
      → Sound from (record s {
        state = state;
        message_index = message_index;
        split_id = split_id;
        send_seq = send_seq;
        sequence_index = sequence_index;
        mtu = mtu;
        metrics = metrics;
        order_indices = order_indices;
      })
  counted state message_index split_id send_seq sequence_index mtu metrics order_indices c =
      record {
        counters = c;
        send_queue = h.send_queue;
        recv_window = h.recv_window;
        fragment_queue = h.fragment_queue;
        ordered_channels = h.ordered_channels;
        pending_acks = h.pending_acks;
        pending_nacks = h.pending_nacks;
        pending_pings = h.pending_pings;
      }

  -- The connection has come further.
  pub later : (now : ConnectionState) → HasReached now s.state → Sound now s
  later now r = record {
    counters = record { state = r; split_id = h.counters.split_id; channels = h.counters.channels };
    send_queue = h.send_queue;
    recv_window = h.recv_window;
    fragment_queue = h.fragment_queue;
    ordered_channels = h.ordered_channels;
    pending_acks = h.pending_acks;
    pending_nacks = h.pending_nacks;
    pending_pings = h.pending_pings;
  }

  pub queued :
      (q : SendQueue (List ℕ)) → IsOrderly 2048 q → Sound from (record s { send_queue = q })
  queued q o = record {
    counters = h.counters;
    send_queue = o;
    recv_window = h.recv_window;
    fragment_queue = h.fragment_queue;
    ordered_channels = h.ordered_channels;
    pending_acks = h.pending_acks;
    pending_nacks = h.pending_nacks;
    pending_pings = h.pending_pings;
  }

  pub collected :
      (q : FragmentQueue)
      → FragmentLimits.IsLimited 512 q
      → Sound from (record s { fragment_queue = q })
  collected q o = record {
    counters = h.counters;
    send_queue = h.send_queue;
    recv_window = h.recv_window;
    fragment_queue = o;
    ordered_channels = h.ordered_channels;
    pending_acks = h.pending_acks;
    pending_nacks = h.pending_nacks;
    pending_pings = h.pending_pings;
  }

  pub channelled :
      (channel index : ℕ) (payload : List ℕ)
      → Sound from (record s {
        ordered_channels =
            set s.ordered_channels channel
              (Ordered.insert (get_or s.ordered_channels channel Ordered.new) index payload).1;
      })
  channelled channel index payload =
      let old = get_or s.ordered_channels channel Ordered.new in
      let kept = OrderedLimits.insert-IsLimited 256 old index payload (
        All-get_or (OrderedLimits.IsLimited 256) s.ordered_channels channel Ordered.new
          h.ordered_channels.each OrderedLimits.new-IsLimited) in
      record {
        counters = h.counters;
        send_queue = h.send_queue;
        recv_window = h.recv_window;
        fragment_queue = h.fragment_queue;
        ordered_channels = record {
          count =
              length-set s.ordered_channels channel (Ordered.insert old index payload).1
              ∙ h.ordered_channels.count;
          each =
              All-set (OrderedLimits.IsLimited 256) s.ordered_channels channel _
                h.ordered_channels.each kept;
        };
        pending_acks = h.pending_acks;
        pending_nacks = h.pending_nacks;
        pending_pings = h.pending_pings;
      }

  pub windowed : (w : RecvWindow) → IsWindow w → Sound from (record s { recv_window = w })
  windowed w o = record {
    counters = h.counters;
    send_queue = h.send_queue;
    recv_window = o;
    fragment_queue = h.fragment_queue;
    ordered_channels = h.ordered_channels;
    pending_acks = h.pending_acks;
    pending_nacks = h.pending_nacks;
    pending_pings = h.pending_pings;
  }

  pub noted :
      (acks nacks : AckRangeList) (pings : Map ℕ)
      → IsCompressed acks
      → nacks ≡ []
      → Map.IsSorted 0 pings
      → Sound from (record s { pending_acks = acks; pending_nacks = nacks; pending_pings = pings })
  noted acks nacks pings a n p = record {
    counters = h.counters;
    send_queue = h.send_queue;
    recv_window = h.recv_window;
    fragment_queue = h.fragment_queue;
    ordered_channels = h.ordered_channels;
    pending_acks = a;
    pending_nacks = n;
    pending_pings = p;
  }
