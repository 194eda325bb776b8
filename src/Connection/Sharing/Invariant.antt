-- ===== src/Connection/Sharing/Invariant.antt =====
-- connection.rs, state/shared.rs: what stays true of the shared state, however the tasks interleave.
use raknet.Base.{
  ℕ, ◌+◌, ◌*◌, ◌%◌, ◌^◌, ◌≤◌, ◌≡◌, List, [], length, Result, Option, Bool, All-replicate,
  length-set, length-replicate, ltb, Bool-cases, inl, inr, ok, arith, refl, sym, subst, ◌∙◌,
}
use raknet.Base.Map
use raknet.Protocol.Uint24
use raknet.Protocol.Uint24.Atomic
use raknet.Reliability.Ack.Insert.{insert-IsCompressed}
use raknet.Reliability.BitVec.{BitVec}
use raknet.Reliability.Fragment.Limits as FragmentLimits
use raknet.Reliability.Ordered
use raknet.Reliability.Ordered.{OrderedChannel}
use raknet.Reliability.Ordered.Limits as OrderedLimits
use raknet.Reliability.RecvWindow.{RecvWindow}
use raknet.State.Metrics.{ConnectionMetrics}
use raknet.Base.Map.{Map}
use raknet.Reliability.RecvWindow.Marks.{IsWindow, new-IsWindow}
use raknet.Reliability.RecvWindow.Verdict.{mark_received-IsWindow}
use raknet.Reliability.RecvWindow.{mark_received}
use raknet.Reliability.SendQueue.Orderly.{
  new-IsOrderly, insert-IsOrderly, acknowledge-IsOrderly, acknowledge_range-IsOrderly,
  get_expired-IsOrderly,
}
use raknet.State.Connection
use raknet.State.Connection.{
  ConnectionState, connecting, connected, disconnecting, disconnected, to_u8, transition, store,
}
use raknet.State.Connection.Lifecycle.{HasReached, transition-HasReached}
use raknet.State.Shared.{
  SharedState, new, next_order_index, next_split_id, next_send_seq, next_message_index,
  next_sequence_index, set_mtu, mark_connected, mark_disconnecting, mark_disconnected,
}
use raknet.Connection.Receive.{mark_in_window, keep_window}
use raknet.Connection.Sharing.{
  Step, takes_send_seq, takes_message_index, takes_order_index, takes_sequence_index,
  takes_split_id, sets_mtu, connects, closes, disconnects, measures, queues, acknowledges,
  acknowledges_range, expires, marks, notes_ack, takes_acks, takes_nacks, inserts_fragment,
  cleans_fragments, inserts_ordered, notes_ping, takes_ping, Steps, stop, also,
}
use raknet.Connection.Sharing.Sound.{Sound, counted, queued, collected, channelled, windowed, noted}

last_state : (s : ConnectionState) → to_u8 s ≤ to_u8 disconnected
unfolding to_u8
last_state connecting = omega arith
last_state connected = omega arith
last_state disconnecting = omega arith
last_state disconnected = omega arith

-- Every step keeps the state sound.
module _ (bits : BitVec) (from : ConnectionState) (s : SharedState) (h : Sound from s) where
  marked :
      (r : Result (Option Bool × RecvWindow))
      → (answer : Option Bool) × (w : RecvWindow) × (r ≡ ok (answer, w)) × IsWindow w
      → Sound from (keep_window s r).1
  unfolding keep_window
  marked r (answer, w, e, o) = rw e (windowed from s h w o)

  indexed : (channel : ℕ) → Sound from (next_order_index s channel).1
  unfolding next_order_index
  indexed channel = elim (Bool-cases (ltb channel (length s.order_indices))) [
    | inr off ↦ rw off h
    | inl on ↦ rw on (
        counted from s h s.state s.message_index s.split_id s.send_seq s.sequence_index s.mtu
          s.metrics _
          (record {
            state = h.counters.state;
            split_id = h.counters.split_id;
            channels = length-set s.order_indices channel _ ∙ h.counters.channels;
          }))
  ]

  moved : (state : ℕ) → HasReached from state → Sound from (record s { state = state })
  moved state r =
      counted from s h state s.message_index s.split_id s.send_seq s.sequence_index s.mtu s.metrics
        s.order_indices
        (record { state = r; split_id = h.counters.split_id; channels = h.counters.channels })

  tried :
      (expected next : ConnectionState)
      → Sound from (record s { state = (transition s.state expected next).1 })
  tried expected next =
      let (now, same, up) = h.counters.state in
      moved (transition s.state expected next).1 (
        subst (λ x. HasReached from (transition x expected next).1) (sym same)
          (transition-HasReached from now expected next up))

  -- The numbers that the state does not depend on.
  renumbered :
      (message_index send_seq sequence_index mtu : ℕ) (metrics : ConnectionMetrics)
      → Sound from (record s {
        message_index = message_index;
        send_seq = send_seq;
        sequence_index = sequence_index;
        mtu = mtu;
        metrics = metrics;
      })
  renumbered message_index send_seq sequence_index mtu metrics =
      counted from s h s.state message_index s.split_id send_seq sequence_index mtu metrics
        s.order_indices h.counters

  split : Sound from (next_split_id s).1
  unfolding next_split_id
  split =
      counted from s h s.state s.message_index ((s.split_id + 1) % 2 ^ 16) s.send_seq
        s.sequence_index s.mtu s.metrics s.order_indices
        (record {
          state = h.counters.state;
          split_id = omega arith;
          channels = h.counters.channels;
        })

  Step-Sound : (t : SharedState) → Step bits s t → Sound from t
  unfolding next_send_seq next_message_index next_sequence_index set_mtu mark_connected
      mark_disconnecting mark_disconnected store mark_in_window Connection.new to_u8
  Step-Sound _ takes_send_seq = renumbered s.message_index _ s.sequence_index s.mtu s.metrics
  Step-Sound _ takes_message_index = renumbered _ s.send_seq s.sequence_index s.mtu s.metrics
  Step-Sound _ (takes_order_index channel) = indexed channel
  Step-Sound _ takes_sequence_index = renumbered s.message_index s.send_seq _ s.mtu s.metrics
  Step-Sound _ takes_split_id = split
  Step-Sound _ (sets_mtu mtu) = renumbered s.message_index s.send_seq s.sequence_index mtu s.metrics
  Step-Sound _ connects = tried connecting connected
  Step-Sound _ closes = tried connected disconnecting
  Step-Sound _ disconnects = moved (to_u8 disconnected) (disconnected, refl, last_state from)
  Step-Sound _ (measures m) = renumbered s.message_index s.send_seq s.sequence_index s.mtu m
  Step-Sound _ (queues now seq datagram) =
      queued from s h _ (insert-IsOrderly 2048 s.send_queue now seq datagram h.send_queue)
  Step-Sound _ (acknowledges seq) =
      queued from s h _ (acknowledge-IsOrderly 2048 s.send_queue seq h.send_queue)
  Step-Sound _ (acknowledges_range start end) =
      queued from s h _ (acknowledge_range-IsOrderly 2048 s.send_queue start end h.send_queue)
  Step-Sound _ (expires now rtt times) =
      queued from s h _ (get_expired-IsOrderly 2048 s.send_queue now rtt times h.send_queue)
  Step-Sound _ (marks seq fits) =
      marked (mark_received bits s.recv_window seq)
        (mark_received-IsWindow bits s.recv_window seq h.recv_window fits)
  Step-Sound _ (notes_ack seq fits) =
      noted from s h _ s.pending_nacks s.pending_pings
        (insert-IsCompressed s.pending_acks seq h.pending_acks fits) h.pending_nacks h.pending_pings
  Step-Sound _ takes_acks =
      noted from s h [] s.pending_nacks s.pending_pings tt h.pending_nacks h.pending_pings
  Step-Sound _ takes_nacks =
      noted from s h s.pending_acks [] s.pending_pings h.pending_acks refl h.pending_pings
  Step-Sound _ (inserts_fragment now id index count bytes) = collected from s h _ (
      FragmentLimits.insert-IsLimited 512 s.fragment_queue now id index count bytes
        h.fragment_queue)
  Step-Sound _ (cleans_fragments now) =
      collected from s h _
        (FragmentLimits.cleanup_expired-IsLimited 512 s.fragment_queue now h.fragment_queue)
  Step-Sound _ (inserts_ordered channel index payload on) =
      channelled from s h channel index payload
  Step-Sound _ (notes_ping timestamp now) =
      noted from s h s.pending_acks s.pending_nacks _ h.pending_acks h.pending_nacks
        (Map.insert-IsSorted s.pending_pings 0 timestamp now h.pending_pings (omega arith))
  Step-Sound _ (takes_ping timestamp) =
      noted from s h s.pending_acks s.pending_nacks _ h.pending_acks h.pending_nacks
        (Map.remove-IsSorted s.pending_pings 0 timestamp h.pending_pings)

-- A new connection.
pub fresh-Sound : (bits : BitVec) (now mtu : ℕ) → Sound connecting (new bits now mtu)
unfolding new Atomic.init Uint24.new Connection.new to_u8
fresh-Sound bits now mtu = record {
  counters = record {
    state = (connecting, refl, omega arith);
    split_id = omega arith;
    channels = length-replicate {A = ℕ} 16 0;
  };
  send_queue = new-IsOrderly;
  recv_window = new-IsWindow bits;
  fragment_queue = FragmentLimits.new-IsLimited (8 * 1_000_000);
  ordered_channels = record {
    count = length-replicate 16 (Ordered.new {A = List ℕ});
    each =
        All-replicate (OrderedLimits.IsLimited 256) 16 (Ordered.new {A = List ℕ})
          OrderedLimits.new-IsLimited;
  };
  pending_acks = tt;
  pending_nacks = refl;
  pending_pings = tt;
}

pub Steps-Sound :
    (bits : BitVec) (from : ConnectionState) (s t : SharedState)
    → Sound from s
    → Steps bits s t
    → Sound from t
Steps-Sound bits from s _ h stop = h
Steps-Sound bits from s t h (also {t = u} first last) =
    Step-Sound bits from u (Steps-Sound bits from s u h first) t last
