-- ===== src/Connection/Sending.antt =====
-- connection.rs: what the connection sends, from one frame to a fragmented payload.
pub mod Chunks
pub mod Sent
use raknet.Base.{
  ℕ, zero, suc, ◌+◌, ◌-◌, ◌*◌, ◌/◌, ◌%◌, ◌^◌, Bool, true, false, none, some, List, [], ◌∷◌, length,
  take, drop, ltb, leb, ◌==◌, if◌then◌else◌, Result, ok, err, panic,
}
use raknet.Protocol.Buffer.{Buffer}
use raknet.Protocol.Datagram.{encode_datagram}
use raknet.Protocol.Frame
use raknet.Protocol.Frame.{Frame, SplitInfo, with_message_index, with_order, with_split}
use raknet.Protocol.Login.{decode_connection_request, encode_connection_request_accepted}
use raknet.Reliability.Levels.{reliable_ordered}
use raknet.Reliability.SendQueue
use raknet.State.Shared.{
  SharedState, next_message_index, next_order_index, next_send_seq, next_split_id, is_closed,
}
use raknet.Connection.World.{
  Env, World, Action, ◌>>=◌, ◌>>◌, pure, lift, on_shared, try_shared, read_shared, change_shared,
  unix_millis, send_recorded,
}

-- `u16 as usize - constant`, which panics below it.
pub checked_sub : ℕ → ℕ → Result ℕ
checked_sub a b = if ltb a b then panic else ok (a - b)

-- `(0..len).step_by(chunk_size)` with the slices at its steps. Every step takes a byte, so the length is enough.
pub chunks : ℕ → ℕ → List ℕ → List (List ℕ)
chunks zero chunk_size payload = []
chunks (suc fuel) chunk_size [] = []
chunks (suc fuel) chunk_size (byte ∷ payload) =
    take chunk_size (byte ∷ payload) ∷ chunks fuel chunk_size (drop chunk_size (byte ∷ payload))

module _ (lib : Buffer) (env : Env) where
  -- What `send_reliable_frame` and `send_fragmented` do with a frame: encode it, wrap it in a datagram, send it,
  -- and keep the datagram. The answer of the queue, which may be full, is ignored.
  unfoldable pub send_frame : Frame → Action (Unit {0})
  unfolding send_recorded
  send_frame frame = do
    encoded_frame ← lift (Frame.encode lib frame [])
    seq ← on_shared next_send_seq
    let datagram = encode_datagram lib seq (encoded_frame ∷ [])
    send_recorded env datagram
    change_shared
        (λ s. record s { send_queue = (SendQueue.insert s.send_queue env.instant seq datagram).1 })

  unfoldable pub send_reliable_frame : List ℕ → Action (Unit {0})
  unfolding send_frame
  send_reliable_frame payload = do
    message_index ← on_shared next_message_index
    order_index ← try_shared (λ s. next_order_index s 0)
    send_frame (
        with_order (with_message_index (Frame.new reliable_ordered payload) message_index)
          order_index 0)

  unfoldable pub send_single_frame : List ℕ → Action (Unit {0})
  unfolding send_reliable_frame
  send_single_frame payload = send_reliable_frame payload

  -- The loop of `send_fragmented` over the chunks that are left.
  unfoldable pub send_chunks : ℕ → ℕ → ℕ → List (List ℕ) → Action (Unit {0})
  unfolding send_frame
  send_chunks split_id total_count index [] = pure tt
  send_chunks split_id total_count index (chunk ∷ rest) = do
    message_index ← on_shared next_message_index
    order_index ← try_shared (λ s. next_order_index s 0)
    send_frame (
        with_split
          (with_order (with_message_index (Frame.new reliable_ordered chunk) message_index)
            order_index 0)
          (record { count = total_count; id = split_id; index = index % 2 ^ 32 }))
    send_chunks split_id total_count (index + 1) rest

  -- A chunk size of 0 panics: at the division, or at `step_by`.
  unfoldable pub send_fragmented : List ℕ → Action (Unit {0})
  unfolding checked_sub chunks send_chunks
  send_fragmented payload = do
    split_id ← on_shared next_split_id
    mtu ← read_shared (λ s. s.mtu)
    chunk_size ← lift (checked_sub mtu 80)
    if chunk_size == 0
        then lift panic
        else send_chunks split_id ((length payload + chunk_size - 1) / chunk_size % 2 ^ 32) 0
            (chunks (length payload) chunk_size payload)

  -- One round of `send_task`.
  unfoldable pub send_round : List ℕ → Action (Unit {0})
  unfolding checked_sub send_single_frame send_fragmented
  send_round payload = do
    mtu ← read_shared (λ s. s.mtu)
    max_single_frame_size ← lift (checked_sub mtu 60)
    if leb (length payload) max_single_frame_size
        then send_single_frame payload
        else send_fragmented payload

  -- `send_task` over the payloads that the application hands over. An error ends it.
  unfoldable pub send_task : List (List ℕ) → Action (Unit {0})
  unfolding send_round
  send_task [] = pure tt
  send_task (payload ∷ rest) = do
    closed ← λ w. (is_closed w.shared, w)
    if closed then pure tt else (do send_round payload; send_task rest)

  unfoldable pub handle_connection_request : List ℕ → Action (Unit {0})
  unfolding send_reliable_frame
  handle_connection_request packet = do
    (client_guid, request_timestamp) ← lift (decode_connection_request lib packet)
    remote_addr ← lift env.peer_addr
    send_reliable_frame
        (encode_connection_request_accepted lib remote_addr request_timestamp (unix_millis env))
