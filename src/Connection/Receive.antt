-- ===== src/Connection/Receive.antt =====
-- connection.rs: the packets that the socket receives.
pub mod Acks
pub mod Arrival
pub mod Delivery
pub mod Fuel
use raknet.Base.{
  take, ℕ, zero, suc, ◌+◌, Bool, true, false, Option, none, some, List, [], ◌∷◌, length, ◌==◌,
  if◌then◌else◌, Result, ok, err, panic,
}
use raknet.Protocol.Buffer.{Buffer}
use raknet.Protocol.Datagram.{decode_datagram}
use raknet.Protocol.Frame
use raknet.Protocol.Login.{decode_disconnect_notification}
use raknet.Protocol.Packet.{
  id_connected_ping, id_connected_pong, id_disconnect_notification, is_datagram, is_ack, is_nack,
}
use raknet.Reliability.Ack
use raknet.Reliability.Ack.{AckRange, single, range, AckRangeList}
use raknet.Reliability.Ack.Codec.{decode_ack_nack}
use raknet.Reliability.BitVec.{BitVec}
use raknet.Reliability.RecvWindow.{RecvWindow, mark_received}
use raknet.Reliability.SendQueue
use raknet.Reliability.SendQueue.{SendQueue}
use raknet.State.Metrics.{record_recv}
use raknet.State.Shared.{SharedState, is_closed, mark_disconnected}
use raknet.Connection.Frames.{handle_frame, handle_connected_ping, handle_connected_pong}
use raknet.Connection.World.{
  Env, World, Action, ◌>>=◌, ◌>>◌, pure, lift, try_shared, change_shared, now_micros,
}

-- The loop of `handle_ack`, and what it does with a range.
unfoldable pub acknowledge_one : SendQueue (List ℕ) → AckRange → SendQueue (List ℕ)
acknowledge_one queue (single seq) = (SendQueue.acknowledge queue seq).1
acknowledge_one queue (range start end) = (SendQueue.acknowledge_range queue start end).1

unfoldable pub acknowledge_all : SendQueue (List ℕ) → AckRangeList → SendQueue (List ℕ)
unfolding acknowledge_one
acknowledge_all queue [] = queue
acknowledge_all queue (r ∷ ranges) = acknowledge_all (acknowledge_one queue r) ranges

unfoldable pub handle_ack : AckRangeList → Action (Unit {0})
unfolding acknowledge_all
handle_ack ranges =
    change_shared (λ s. record s { send_queue = acknowledge_all s.send_queue ranges })

unfoldable pub handle_nack : AckRangeList → Action (Unit {0})
handle_nack ranges = pure tt

-- `state.recv_window.lock().mark_received(seq)`
unfoldable pub keep_window :
    SharedState → Result (Option Bool × RecvWindow) → Result (Option Bool) × SharedState
keep_window s (ok (answer, window)) = (ok answer, record s { recv_window = window })
keep_window s (err e) = (err e, s)
keep_window s panic = (panic, s)

unfoldable pub mark_in_window : BitVec → ℕ → SharedState → Result (Option Bool) × SharedState
unfolding keep_window
mark_in_window bits seq s = keep_window s (mark_received bits s.recv_window seq)

module _ (lib : Buffer) (env : Env) where
  -- The loop over the frames. A frame has three bytes at least, so the length is enough fuel.
  unfoldable pub handle_frames : ℕ → List ℕ → Action (Unit {0})
  handle_frames fuel [] = pure tt
  handle_frames zero (byte ∷ buf) = lift panic
  handle_frames (suc fuel) (byte ∷ buf) = do
    (frame, rest) ← lift (Frame.decode lib (byte ∷ buf))
    handle_frame lib env frame
    handle_frames fuel rest

  -- What `handle_datagram` does with a number that is new.
  unfoldable pub accept_datagram : ℕ → List ℕ → Action (Unit {0})
  unfolding handle_frames
  accept_datagram seq frames_data = do
    change_shared (λ s. record s { pending_acks = Ack.insert s.pending_acks seq })
    handle_frames (length frames_data) frames_data

module _ (lib : Buffer) (bits : BitVec) (env : Env) where
  unfoldable pub handle_datagram : ℕ → List ℕ → Action (Unit {0})
  unfolding mark_in_window accept_datagram
  handle_datagram seq frames_data = do
    answer ← try_shared (mark_in_window bits seq)
    elim answer [
      | some true ↦ accept_datagram lib env seq frames_data
      | some false ↦ pure tt
      | none ↦ pure tt
    ]

  -- The arms of `handle_packet` behind those for single identifiers.
  unfoldable pub handle_class : ℕ → List ℕ → Action (Unit {0})
  unfolding handle_datagram handle_ack handle_nack
  handle_class packet_id packet =
      if is_datagram packet_id
      then (do (seq, frames_data) ← lift (decode_datagram packet); handle_datagram seq frames_data)
      else if is_ack packet_id
      then (do (_, ranges) ← lift (decode_ack_nack lib packet); handle_ack ranges)
      else if is_nack packet_id
      then (do (_, ranges) ← lift (decode_ack_nack lib packet); handle_nack ranges)
      else pure tt

  unfoldable pub handle_packet : List ℕ → Action (Unit {0})
  unfolding handle_class
  handle_packet [] = pure tt
  handle_packet (packet_id ∷ bytes) =
      if packet_id == id_connected_ping
      then handle_connected_ping lib env (packet_id ∷ bytes)
      else if packet_id == id_connected_pong
      then handle_connected_pong lib env (packet_id ∷ bytes)
      else if packet_id == id_disconnect_notification
      then (do
        lift (decode_disconnect_notification (packet_id ∷ bytes))
        change_shared mark_disconnected)
      else handle_class packet_id (packet_id ∷ bytes)

  -- An error of `handle_packet` is printed only; a panic ends the task.
  unfoldable pub ignore_error : Action (Unit {0}) → Action (Unit {0})
  ignore_error m w =
      let (r, w') = m w in elim r [ ok _ ↦ (ok tt, w') | err _ ↦ (ok tt, w') | panic ↦ (panic, w') ]

  -- `receive_task` over the packets that come, up to an error of the socket. A packet is cut to the size of the buffer.
  unfoldable pub receive_task : List (List ℕ) → Action (Unit {0})
  unfolding handle_packet ignore_error
  receive_task [] = change_shared mark_disconnected
  receive_task (packet ∷ packets) = do
    closed ← λ w. (is_closed w.shared, w)
    if closed then change_shared mark_disconnected else (do
      let packet = take 2048 packet
      ignore_error (handle_packet packet)
      change_shared
          (λ s. record s { metrics = record_recv s.metrics (now_micros env) (length packet) })
      receive_task packets)
