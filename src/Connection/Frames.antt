-- ===== src/Connection/Frames.antt =====
-- connection.rs: what the connection does with a frame that it received.
pub mod Channels
use raknet.Base.{
  ℕ, zero, suc, ◌+◌, ◌-◌, ◌%◌, Bool, true, false, Option, none, some, List, [], ◌∷◌, length, get_or,
  set, ltb, ◌==◌, if◌then◌else◌, Result, ok, err, panic,
}
use raknet.Base.Map
use raknet.Protocol.Buffer.{Buffer}
use raknet.Protocol.Frame.{Frame, SplitInfo}
use raknet.Protocol.Login.{decode_connected_ping, encode_connected_pong, decode_connected_pong}
use raknet.Protocol.Packet.{
  id_connected_ping, id_connected_pong, id_disconnect_notification, id_connection_request,
  id_new_incoming_connection, id_connection_request_accepted,
}
use raknet.Reliability.Fragment
use raknet.Reliability.Levels.{
  Reliability, unreliable, reliable, unreliable_sequenced, reliable_ordered, reliable_sequenced,
  is_ordered,
}
use raknet.Reliability.Ordered
use raknet.Reliability.Ordered.{OrderedChannel}
use raknet.State.Metrics.{update_rtt}
use raknet.State.Shared.{SharedState, is_connected, mark_connected, mark_disconnected}
use raknet.Connection.Sending.{handle_connection_request}
use raknet.Connection.World.{
  Env, World, Action, ◌>>=◌, ◌>>◌, pure, lift, on_shared, try_shared, read_shared, change_shared,
  deliver, unix_millis, socket_send,
}

-- `state.ordered_channels[channel]`, which panics past the array.
unfoldable pub channel_at : SharedState → ℕ → Result (OrderedChannel (List ℕ))
channel_at self channel =
    if ltb channel (length self.ordered_channels)
    then ok (get_or self.ordered_channels channel Ordered.new)
    else panic

-- `ordered_chan.insert(order_index, payload)` on a channel of the array.
unfoldable pub insert_ordered : ℕ → ℕ → List ℕ → Action (List (List ℕ))
unfolding channel_at
insert_ordered channel order_index payload = do
  ordered_chan ← λ w. (channel_at w.shared channel, w)
  let (payloads, ordered_chan') = Ordered.insert ordered_chan order_index payload
  change_shared (λ s. record s { ordered_channels = set s.ordered_channels channel ordered_chan' })
  pure payloads

unfoldable pub deliver_each : List (List ℕ) → Action (Unit {0})
deliver_each [] = pure tt
deliver_each (payload ∷ payloads) = do deliver payload; deliver_each payloads

-- The ordered channel moves on past a login packet; the packets that the channel releases are dropped.
unfoldable pub advance_channel : Frame → Action (Unit {0})
unfolding channel_at insert_ordered
advance_channel frame =
    if is_ordered frame.reliability
    then elim frame.order_index [
      | none ↦ pure tt
      | some order_idx ↦ (do
        ordered_chan ← λ w. (channel_at w.shared frame.order_channel, w)
        if order_idx == ordered_chan.next_index
            then (do _ ← insert_ordered frame.order_channel order_idx frame.payload; pure tt)
            else pure tt)
    ]
    else pure tt

pub order_or_zero : Option ℕ → ℕ
order_or_zero none = 0
order_or_zero (some index) = index

-- `if let Some(reassembled)`
unfoldable pub deliver_reassembled : Option (List ℕ) → Action (Unit {0})
deliver_reassembled none = pure tt
deliver_reassembled (some reassembled) = deliver reassembled

module _ (env : Env) where
  unfoldable pub deliver_frame_payload : Frame → Action (Unit {0})
  unfolding deliver_reassembled
  deliver_frame_payload frame = elim frame.split [
    | none ↦ deliver frame.payload
    | some split_info ↦ (do
      reassembled ← on_shared (λ s.
          (let (result, queue) =
              Fragment.insert s.fragment_queue env.instant split_info.id split_info.index
                split_info.count frame.payload in
            (result, record s { fragment_queue = queue })))
      deliver_reassembled reassembled)
  ]

  -- The arm for a reliable frame.
  unfoldable pub deliver_reliable : Frame → Action (Unit {0})
  unfolding deliver_frame_payload insert_ordered deliver_each order_or_zero
  deliver_reliable frame =
      if is_ordered frame.reliability
      then elim frame.split [
        | some _ ↦ deliver_frame_payload frame
        | none ↦ (do
          payloads ←
              insert_ordered frame.order_channel (order_or_zero frame.order_index) frame.payload
          deliver_each payloads)
      ]
      else deliver_frame_payload frame

  -- The `match frame.reliability` behind the packets of the protocol.
  unfoldable pub deliver_by_level : Reliability → Frame → Action (Unit {0})
  unfolding deliver_frame_payload deliver_reliable
  deliver_by_level unreliable frame = deliver_frame_payload frame
  deliver_by_level unreliable_sequenced frame = deliver_frame_payload frame
  deliver_by_level reliable frame = deliver_reliable frame
  deliver_by_level reliable_ordered frame = deliver_reliable frame
  deliver_by_level reliable_sequenced frame = deliver_reliable frame

  -- `state.mark_connected()`, and the notifier is triggered once.
  unfoldable pub handle_new_incoming_connection : Frame → Action (Unit {0})
  unfolding advance_channel
  handle_new_incoming_connection frame = do
    advance_channel frame
    _ ← try_shared mark_connected
    λ w. (
      ok tt,
      if w.ready_notifier
          then record w { ready_notifier = false; notified = w.notified + 1 }
          else w,
    )

module _ (lib : Buffer) (env : Env) where
  unfoldable pub handle_connected_ping : List ℕ → Action (Unit {0})
  handle_connected_ping packet = do
    ping_timestamp ← lift (decode_connected_ping lib packet)
    socket_send env (encode_connected_pong lib ping_timestamp (unix_millis env))

  -- `if let Some(send_time) = state.pending_pings.lock().remove(&ping_timestamp)`
  unfoldable pub take_ping : ℕ → SharedState → Option ℕ × SharedState
  take_ping timestamp s = (
    Map.lookup timestamp s.pending_pings,
    record s { pending_pings = Map.remove timestamp s.pending_pings },
  )

  unfoldable pub handle_connected_pong : List ℕ → Action (Unit {0})
  unfolding take_ping
  handle_connected_pong packet = do
    (ping_timestamp, _) ← lift (decode_connected_pong lib packet)
    send_time ← on_shared (take_ping ping_timestamp)
    elim send_time [
      | none ↦ pure tt
      | some time ↦
          change_shared (λ s. record s { metrics = update_rtt s.metrics (env.instant - time) })
    ]

  -- The packets of the login sequence, and any other packet.
  unfoldable pub handle_login_frame : ℕ → Frame → Action (Unit {0})
  unfolding advance_channel handle_new_incoming_connection deliver_by_level
  handle_login_frame packet_id frame =
      if packet_id == id_connection_request
      then (do advance_channel frame; handle_connection_request lib env frame.payload)
      else if packet_id == id_new_incoming_connection
      then handle_new_incoming_connection env frame
      else if packet_id == id_connection_request_accepted
      then pure tt
      else deliver_by_level env frame.reliability frame

  unfoldable pub handle_payload : ℕ → Frame → Action (Unit {0})
  unfolding handle_connected_ping handle_connected_pong handle_login_frame deliver_by_level
  handle_payload packet_id frame =
      if packet_id == id_connected_ping
      then handle_connected_ping frame.payload
      else if packet_id == id_connected_pong
      then handle_connected_pong frame.payload
      else if packet_id == id_disconnect_notification
      then change_shared mark_disconnected
      else (do
        connected ← λ w. (is_connected w.shared, w)
        if connected
            then deliver_by_level env frame.reliability frame
            else handle_login_frame packet_id frame)

  unfoldable pub handle_frame : Frame → Action (Unit {0})
  unfolding handle_payload
  handle_frame frame = elim frame.payload [
    | [] ↦ pure tt
    | packet_id ∷ _ ↦ handle_payload packet_id frame
  ]
