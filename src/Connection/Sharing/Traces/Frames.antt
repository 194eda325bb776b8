-- ===== src/Connection/Sharing/Traces/Frames.antt =====
-- connection.rs: what a frame does to the shared state.
use raknet.Base.{
  ℕ, ◌-◌, Bool-cases, Option, Option-cases, inl, inr, none, some, List, [], ◌∷◌, length, ltb, ◌==◌,
  arith,
}
use raknet.Protocol.Buffer.{Buffer}
use raknet.Protocol.Frame.{Frame}
use raknet.Protocol.Login.{decode_connected_ping, encode_connected_pong, decode_connected_pong}
use raknet.Protocol.Packet.{
  id_connected_ping, id_connected_pong, id_disconnect_notification, id_connection_request,
  id_new_incoming_connection, id_connection_request_accepted,
}
use raknet.Reliability.BitVec.{BitVec}
use raknet.Reliability.Levels.{
  Reliability, unreliable, reliable, unreliable_sequenced, reliable_ordered, reliable_sequenced,
  is_ordered,
}
use raknet.State.Metrics.{update_rtt}
use raknet.State.Shared.{is_connected, mark_connected, mark_disconnected}
use raknet.Connection.World.{Env, pure, change_shared, deliver, unix_millis}
use raknet.Connection.Frames.{
  channel_at, insert_ordered, deliver_each, advance_channel, order_or_zero, deliver_reassembled,
  deliver_frame_payload, deliver_reliable, deliver_by_level, handle_new_incoming_connection,
  handle_connected_ping, take_ping, handle_connected_pong, handle_login_frame, handle_payload,
  handle_frame,
}
use raknet.Connection.Sharing.{
  inserts_ordered, inserts_fragment, connects, disconnects, takes_ping, measures, stop,
}
use raknet.Connection.Sharing.Traces.{
  Runs, one_step, Runs-pure, Runs-lift, Runs-read, Runs-on_shared, Runs-try_shared, Runs-if,
  Runs-bind, Runs-change,
}
use raknet.Connection.Sharing.Traces.Sends.{Runs-socket_send, Runs-handle_connection_request}

module _ (bits : BitVec) where
  Runs-insert_ordered :
      (channel index : ℕ) (payload : List ℕ) → Runs bits (insert_ordered channel index payload)
  unfolding insert_ordered channel_at
  Runs-insert_ordered channel index payload = record {
    at = λ w. elim (Bool-cases (ltb channel (length w.shared.ordered_channels))) [
      | inl on ↦ rw on (one_step bits (inserts_ordered channel index payload (ground arith)))
      | inr off ↦ rw off stop
    ];
  }

  Runs-deliver : (payload : List ℕ) → Runs bits (deliver payload)
  Runs-deliver payload = record { at = λ w. stop }

  Runs-deliver_each : (payloads : List (List ℕ)) → Runs bits (deliver_each payloads)
  unfolding deliver_each
  Runs-deliver_each [] = Runs-pure tt
  Runs-deliver_each (payload ∷ payloads) =
      Runs-bind _ _ (Runs-deliver payload) (λ u. Runs-deliver_each payloads)

  Runs-advance_channel : (frame : Frame) → Runs bits (advance_channel frame)
  unfolding advance_channel
  Runs-advance_channel frame =
      Runs-if (is_ordered frame.reliability) _ _
        (elim (Option-cases frame.order_index) [
          | inl absent ↦ rw absent (Runs-pure tt)
          | inr (index, present) ↦ rw present (
              Runs-bind _ _ (Runs-read (λ s. channel_at s frame.order_channel)) λ chan.
                Runs-if (index == chan.next_index) _ _
                  (Runs-bind _ _ (Runs-insert_ordered frame.order_channel index frame.payload)
                    (λ u. Runs-pure tt))
                  (Runs-pure tt))
        ])
        (Runs-pure tt)

module _ (bits : BitVec) (env : Env) where
  Runs-deliver_reassembled :
      (reassembled : Option (List ℕ)) → Runs bits (deliver_reassembled reassembled)
  unfolding deliver_reassembled
  Runs-deliver_reassembled none = Runs-pure tt
  Runs-deliver_reassembled (some payload) = Runs-deliver bits payload

  Runs-deliver_frame_payload : (frame : Frame) → Runs bits (deliver_frame_payload env frame)
  unfolding deliver_frame_payload
  Runs-deliver_frame_payload frame = elim (Option-cases frame.split) [
    | inl whole ↦ rw whole (Runs-deliver bits frame.payload)
    | inr (split, part) ↦ rw part (
        Runs-bind _ _
          (Runs-on_shared {A = Option (List ℕ)} _
            (λ s. inserts_fragment env.instant split.id split.index split.count frame.payload))
          Runs-deliver_reassembled)
  ]

  Runs-deliver_reliable : (frame : Frame) → Runs bits (deliver_reliable env frame)
  unfolding deliver_reliable
  Runs-deliver_reliable frame =
      Runs-if (is_ordered frame.reliability) _ _
        (elim (Option-cases frame.split) [
          | inr (split, part) ↦ rw part (Runs-deliver_frame_payload frame)
          | inl whole ↦ rw whole (
              Runs-bind _ _
                (Runs-insert_ordered bits frame.order_channel (order_or_zero frame.order_index)
                  frame.payload)
                (λ payloads. Runs-deliver_each bits payloads))
        ])
        (Runs-deliver_frame_payload frame)

  Runs-deliver_by_level :
      (level : Reliability) (frame : Frame) → Runs bits (deliver_by_level env level frame)
  unfolding deliver_by_level
  Runs-deliver_by_level unreliable frame = Runs-deliver_frame_payload frame
  Runs-deliver_by_level unreliable_sequenced frame = Runs-deliver_frame_payload frame
  Runs-deliver_by_level reliable frame = Runs-deliver_reliable frame
  Runs-deliver_by_level reliable_ordered frame = Runs-deliver_reliable frame
  Runs-deliver_by_level reliable_sequenced frame = Runs-deliver_reliable frame

  Runs-handle_new_incoming_connection :
      (frame : Frame) → Runs bits (handle_new_incoming_connection env frame)
  unfolding handle_new_incoming_connection
  Runs-handle_new_incoming_connection frame = Runs-bind _ _ (Runs-advance_channel bits frame) λ u.
      Runs-bind _ _ (Runs-try_shared mark_connected (λ s. connects)) λ changed. record {
        at = λ w. elim (Bool-cases w.ready_notifier) [
          | inl there ↦ rw there stop
          | inr gone ↦ rw gone stop
        ];
      }

module _ (bits : BitVec) (lib : Buffer) (env : Env) where
  pub Runs-handle_connected_ping :
      (packet : List ℕ) → Runs bits (handle_connected_ping lib env packet)
  unfolding handle_connected_ping
  Runs-handle_connected_ping packet =
      Runs-bind _ _ (Runs-lift (decode_connected_ping lib packet)) λ timestamp.
        Runs-socket_send bits env (encode_connected_pong lib timestamp (unix_millis env))

  Runs-measure :
      (send_time : Option ℕ)
      → Runs bits (elim send_time [
        | none ↦ pure tt
        | some time ↦
            change_shared (λ s. record s { metrics = update_rtt s.metrics (env.instant - time) })
      ])
  Runs-measure none = Runs-pure tt
  Runs-measure (some time) =
      Runs-change _ (λ s. measures (update_rtt s.metrics (env.instant - time)))

  pub Runs-handle_connected_pong :
      (packet : List ℕ) → Runs bits (handle_connected_pong lib env packet)
  unfolding handle_connected_pong take_ping
  Runs-handle_connected_pong packet =
      Runs-bind _ _ (Runs-lift (decode_connected_pong lib packet)) λ (timestamp, answer).
        Runs-bind _ _ (Runs-on_shared (take_ping lib env timestamp) (λ s. takes_ping timestamp))
          Runs-measure

  Runs-handle_login_frame :
      (packet_id : ℕ) (frame : Frame) → Runs bits (handle_login_frame lib env packet_id frame)
  unfolding handle_login_frame
  Runs-handle_login_frame packet_id frame =
      Runs-if (packet_id == id_connection_request) _ _
        (Runs-bind _ _ (Runs-advance_channel bits frame)
          (λ u. Runs-handle_connection_request bits lib env frame.payload))
        (Runs-if (packet_id == id_new_incoming_connection) _ _
          (Runs-handle_new_incoming_connection bits env frame)
          (Runs-if (packet_id == id_connection_request_accepted) _ _ (Runs-pure tt)
            (Runs-deliver_by_level bits env frame.reliability frame)))

  Runs-handle_payload :
      (packet_id : ℕ) (frame : Frame) → Runs bits (handle_payload lib env packet_id frame)
  unfolding handle_payload
  Runs-handle_payload packet_id frame =
      Runs-if (packet_id == id_connected_ping) _ _ (Runs-handle_connected_ping frame.payload) (
        Runs-if (packet_id == id_connected_pong) _ _ (Runs-handle_connected_pong frame.payload) (
          Runs-if (packet_id == id_disconnect_notification) _ _
            (Runs-change mark_disconnected (λ s. disconnects))
            (Runs-bind _ _ (Runs-read is_connected) λ connected.
              Runs-if connected _ _ (Runs-deliver_by_level bits env frame.reliability frame)
                (Runs-handle_login_frame packet_id frame))))

  pub Runs-handle_frame : (frame : Frame) → Runs bits (handle_frame lib env frame)
  unfolding handle_frame
  Runs-handle_frame frame = go frame.payload
    where
      go :
          (payload : List ℕ)
          → Runs bits (elim payload [
            | [] ↦ pure tt
            | packet_id ∷ _ ↦ handle_payload lib env packet_id frame
          ])
      go [] = Runs-pure tt
      go (packet_id ∷ bytes) = Runs-handle_payload packet_id frame
