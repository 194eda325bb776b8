-- ===== src/Connection/Sharing/Traces/Sends.antt =====
-- connection.rs: what the send task does to the shared state.
use raknet.Base.{
  ℕ, ◌+◌, ◌-◌, ◌/◌, ◌%◌, ◌^◌, Bool-cases, inl, inr, List, [], ◌∷◌, length, leb, ◌==◌, panic, ok,
}
use raknet.Protocol.Buffer.{Buffer}
use raknet.Protocol.Frame
use raknet.Protocol.Frame.{Frame, with_message_index, with_order, with_split}
use raknet.Protocol.Datagram.{encode_datagram}
use raknet.Protocol.Login.{decode_connection_request, encode_connection_request_accepted}
use raknet.Reliability.Levels.{reliable_ordered}
use raknet.Reliability.BitVec.{BitVec}
use raknet.State.Shared.{
  is_closed, next_send_seq, next_message_index, next_order_index, next_split_id,
}
use raknet.Connection.World.{Env, unix_millis, socket_send, send_recorded}
use raknet.Connection.Sending.{
  send_frame, send_reliable_frame, send_chunks, send_fragmented, send_single_frame, send_round,
  send_task, checked_sub, chunks, handle_connection_request,
}
use raknet.Connection.Sharing.{
  takes_send_seq, takes_message_index, takes_order_index, takes_split_id, measures, queues, stop,
}
use raknet.Connection.Sharing.Traces.{
  Runs, Runs-pure, Runs-lift, Runs-read, Runs-on_shared, Runs-try_shared, Runs-if, Runs-bind,
  Runs-change,
}

module _ (bits : BitVec) (env : Env) where
  pub Runs-socket_send : (packet : List ℕ) → Runs bits (socket_send env packet)
  Runs-socket_send packet = record {
    at = λ w. elim (Bool-cases (env.accepts w.sent packet)) [
      | inl taken ↦ rw taken stop
      | inr refused ↦ rw refused stop
    ];
  }

  pub Runs-send_recorded : (packet : List ℕ) → Runs bits (send_recorded env packet)
  unfolding send_recorded
  Runs-send_recorded packet =
      Runs-bind _ _ (Runs-socket_send packet) (λ u. Runs-change _ (λ s. measures _))

module _ (bits : BitVec) (lib : Buffer) (env : Env) where
  Runs-send_frame : (frame : Frame) → Runs bits (send_frame lib env frame)
  unfolding send_frame
  Runs-send_frame frame = Runs-bind _ _ (Runs-lift (Frame.encode lib frame [])) λ encoded.
      Runs-bind _ _ (Runs-on_shared next_send_seq (λ s. takes_send_seq)) λ seq.
        let datagram = encode_datagram lib seq (encoded ∷ []) in
        Runs-bind _ _ (Runs-send_recorded bits env datagram)
          λ u. Runs-change _ (λ s. queues env.instant seq datagram)

  pub Runs-send_reliable_frame :
      (payload : List ℕ) → Runs bits (send_reliable_frame lib env payload)
  unfolding send_reliable_frame
  Runs-send_reliable_frame payload =
      Runs-bind _ _ (Runs-on_shared next_message_index (λ s. takes_message_index)) λ message_index.
        Runs-bind _ _ (Runs-try_shared (λ s. next_order_index s 0) (λ s. takes_order_index 0))
          λ order_index. Runs-send_frame (
            with_order (with_message_index (Frame.new reliable_ordered payload) message_index)
              order_index 0)

  Runs-send_chunks :
      (split_id total_count index : ℕ) (chunks : List (List ℕ))
      → Runs bits (send_chunks lib env split_id total_count index chunks)
  unfolding send_chunks
  Runs-send_chunks split_id total_count index [] = Runs-pure tt
  Runs-send_chunks split_id total_count index (chunk ∷ rest) =
      Runs-bind _ _ (Runs-on_shared next_message_index (λ s. takes_message_index)) λ message_index.
        Runs-bind _ _ (Runs-try_shared (λ s. next_order_index s 0) (λ s. takes_order_index 0))
          λ order_index.
            Runs-bind _ _
              (Runs-send_frame (
                with_split
                  (with_order (with_message_index (Frame.new reliable_ordered chunk) message_index)
                    order_index 0)
                  (record { count = total_count; id = split_id; index = index % 2 ^ 32 })))
              (λ u. Runs-send_chunks split_id total_count (index + 1) rest)

  Runs-send_fragmented : (payload : List ℕ) → Runs bits (send_fragmented lib env payload)
  unfolding send_fragmented
  Runs-send_fragmented payload =
      Runs-bind _ _ (Runs-on_shared next_split_id (λ s. takes_split_id)) λ split_id.
        Runs-bind _ _ (Runs-read (λ s. ok s.mtu)) λ mtu.
          Runs-bind _ _ (Runs-lift (checked_sub mtu 80)) λ chunk_size.
            Runs-if (chunk_size == 0) _ _ (Runs-lift panic) (
              Runs-send_chunks split_id ((length payload + chunk_size - 1) / chunk_size % 2 ^ 32) 0
                (chunks (length payload) chunk_size payload))

  pub Runs-send_round : (payload : List ℕ) → Runs bits (send_round lib env payload)
  unfolding send_round send_single_frame
  Runs-send_round payload = Runs-bind _ _ (Runs-read (λ s. ok s.mtu)) λ mtu.
      Runs-bind _ _ (Runs-lift (checked_sub mtu 60)) λ max_single_frame_size.
        Runs-if (leb (length payload) max_single_frame_size) _ _ (Runs-send_reliable_frame payload)
          (Runs-send_fragmented payload)

  pub Runs-send_task : (payloads : List (List ℕ)) → Runs bits (send_task lib env payloads)
  unfolding send_task
  Runs-send_task [] = Runs-pure tt
  Runs-send_task (payload ∷ rest) = Runs-bind _ _ (Runs-read is_closed) λ closed.
      Runs-if closed _ _ (Runs-pure tt)
        (Runs-bind _ _ (Runs-send_round payload) λ u. Runs-send_task rest)

  pub Runs-handle_connection_request :
      (packet : List ℕ) → Runs bits (handle_connection_request lib env packet)
  unfolding handle_connection_request
  Runs-handle_connection_request packet =
      Runs-bind _ _ (Runs-lift (decode_connection_request lib packet)) λ (guid, timestamp).
        Runs-bind _ _ (Runs-lift env.peer_addr) λ remote_addr.
          Runs-send_reliable_frame
            (encode_connection_request_accepted lib remote_addr timestamp (unix_millis env))
