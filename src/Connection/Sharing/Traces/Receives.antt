-- ===== src/Connection/Sharing/Traces/Receives.antt =====
-- connection.rs: what the receive task does to the shared state.
use raknet.Base.{
  take, ℕ, zero, suc, Option, none, some, Bool, true, false, List, [], ◌∷◌, length, ◌==◌, Result,
  ok, err, panic,
}
use raknet.Protocol.Buffer.{Buffer}
use raknet.Protocol.Datagram.{decode_datagram}
use raknet.Protocol.Datagram.RoundTrip.{decode_datagram-IsU24}
use raknet.Protocol.Uint24.Laws.{IsU24}
use raknet.Protocol.Frame
use raknet.Protocol.Frame.{Frame}
use raknet.Protocol.Login.{decode_disconnect_notification}
use raknet.Protocol.Packet.{
  id_connected_ping, id_connected_pong, id_disconnect_notification, is_datagram, is_ack, is_nack,
}
use raknet.Reliability.Ack.{single, range, AckRangeList}
use raknet.Reliability.Ack.Codec.{decode_ack_nack}
use raknet.Reliability.BitVec.{BitVec}
use raknet.Reliability.SendQueue
use raknet.Reliability.SendQueue.{SendQueue}
use raknet.State.Metrics.{record_recv}
use raknet.State.Shared.{SharedState, is_closed, mark_disconnected}
use raknet.Connection.World.{Env, World, pure, now_micros}
use raknet.Connection.Receive.{
  acknowledge_one, acknowledge_all, handle_ack, handle_nack, mark_in_window, handle_frames,
  accept_datagram, handle_datagram, handle_class, handle_packet, ignore_error, receive_task,
}
use raknet.Connection.Sharing.{
  acknowledges, acknowledges_range, marks, notes_ack, disconnects, measures, Steps, stop,
}
use raknet.Connection.Sharing.Traces.{
  Runs, joined, one_step, Runs-pure, Runs-lift, Runs-read, Runs-try_shared, Runs-if, Runs-bind,
  Runs-bind_ok, Runs-change,
}
use raknet.Connection.Sharing.Traces.Frames.{
  Runs-handle_frame, Runs-handle_connected_ping, Runs-handle_connected_pong,
}

-- The lock of the send queue is taken for each range.
module _ (bits : BitVec) where
  acknowledge_all-Steps :
      (ranges : AckRangeList) (s : SharedState)
      → Steps bits s (record s { send_queue = acknowledge_all s.send_queue ranges })
  unfolding acknowledge_all acknowledge_one
  acknowledge_all-Steps [] s = stop
  acknowledge_all-Steps (single seq ∷ ranges) s = joined bits (one_step bits (acknowledges seq)) (
      acknowledge_all-Steps ranges
        (record s { send_queue = (SendQueue.acknowledge s.send_queue seq).1 }))
  acknowledge_all-Steps (range start end ∷ ranges) s =
      joined bits (one_step bits (acknowledges_range start end)) (
        acknowledge_all-Steps ranges
          (record s { send_queue = (SendQueue.acknowledge_range s.send_queue start end).1 }))

  Runs-handle_ack : (ranges : AckRangeList) → Runs bits (handle_ack ranges)
  unfolding handle_ack
  Runs-handle_ack ranges = record { at = λ w. acknowledge_all-Steps ranges w.shared }

module _ (bits : BitVec) (lib : Buffer) (env : Env) where
  Runs-handle_frames : (fuel : ℕ) (buf : List ℕ) → Runs bits (handle_frames lib env fuel buf)
  unfolding handle_frames
  Runs-handle_frames fuel [] = Runs-pure tt
  Runs-handle_frames zero (byte ∷ buf) = Runs-lift panic
  Runs-handle_frames (suc fuel) (byte ∷ buf) =
      Runs-bind _ _ (Runs-lift (Frame.decode lib (byte ∷ buf))) λ (frame, rest).
        Runs-bind _ _ (Runs-handle_frame bits lib env frame) λ u. Runs-handle_frames fuel rest

  Runs-accept_datagram :
      (seq : ℕ) (frames_data : List ℕ)
      → IsU24 seq
      → Runs bits (accept_datagram lib env seq frames_data)
  unfolding accept_datagram
  Runs-accept_datagram seq frames_data fits =
      Runs-bind _ _ (Runs-change _ (λ s. notes_ack seq fits))
        λ u. Runs-handle_frames (length frames_data) frames_data

  Runs-answered :
      (answer : Option Bool) (seq : ℕ) (frames_data : List ℕ)
      → IsU24 seq
      → Runs bits (elim answer [
        | some true ↦ accept_datagram lib env seq frames_data
        | some false ↦ pure tt
        | none ↦ pure tt
      ])
  Runs-answered none seq frames_data fits = Runs-pure tt
  Runs-answered (some true) seq frames_data fits = Runs-accept_datagram seq frames_data fits
  Runs-answered (some false) seq frames_data fits = Runs-pure tt

  Runs-handle_datagram :
      (seq : ℕ) (frames_data : List ℕ)
      → IsU24 seq
      → Runs bits (handle_datagram lib bits env seq frames_data)
  unfolding handle_datagram
  Runs-handle_datagram seq frames_data fits =
      Runs-bind _ _ (Runs-try_shared (mark_in_window bits seq) (λ s. marks seq fits))
        λ answer. Runs-answered answer seq frames_data fits

  Runs-handle_class :
      (packet_id : ℕ) (packet : List ℕ) → Runs bits (handle_class lib bits env packet_id packet)
  unfolding handle_class handle_nack
  Runs-handle_class packet_id packet =
      Runs-if (is_datagram packet_id) _ _
        (Runs-bind_ok _ _ (Runs-lift (decode_datagram packet)) λ w (seq, frames_data) e.
          Runs-handle_datagram seq frames_data (decode_datagram-IsU24 packet seq frames_data e))
        (Runs-if (is_ack packet_id) _ _
          (Runs-bind _ _ (Runs-lift (decode_ack_nack lib packet))
            λ (ack, ranges). Runs-handle_ack bits ranges)
          (Runs-if (is_nack packet_id) _ _
            (Runs-bind _ _ (Runs-lift (decode_ack_nack lib packet)) λ (ack, ranges). Runs-pure tt)
            (Runs-pure tt)))

  Runs-handle_packet : (packet : List ℕ) → Runs bits (handle_packet lib bits env packet)
  unfolding handle_packet
  Runs-handle_packet [] = Runs-pure tt
  Runs-handle_packet (packet_id ∷ bytes) =
      Runs-if (packet_id == id_connected_ping) _ _
        (Runs-handle_connected_ping bits lib env (packet_id ∷ bytes))
        (Runs-if (packet_id == id_connected_pong) _ _
          (Runs-handle_connected_pong bits lib env (packet_id ∷ bytes))
          (Runs-if (packet_id == id_disconnect_notification) _ _
            (Runs-bind _ _ (Runs-lift (decode_disconnect_notification (packet_id ∷ bytes)))
              λ u. Runs-change mark_disconnected (λ s. disconnects))
            (Runs-handle_class packet_id (packet_id ∷ bytes))))

  ignored :
      (s : SharedState) (r : Result (Unit {0}) × World)
      → Steps bits s r.1.shared
      → Steps bits s
          (elim r.0 as (λ x. Result (Unit {0}) × World) [
            | ok _ ↦ (ok tt, r.1)
            | err _ ↦ (ok tt, r.1)
            | panic ↦ (panic, r.1)
          ]).1.shared
  ignored s (ok u, w) h = h
  ignored s (err e, w) h = h
  ignored s (panic, w) h = h

  pub Runs-receive_task : (packets : List (List ℕ)) → Runs bits (receive_task lib bits env packets)
  unfolding receive_task ignore_error
  Runs-receive_task [] = Runs-change mark_disconnected (λ s. disconnects)
  Runs-receive_task (packet ∷ packets) = Runs-bind _ _ (Runs-read is_closed) λ closed.
      Runs-if closed _ _ (Runs-change mark_disconnected (λ s. disconnects)) (
        Runs-bind _ _
          (record {
            at = λ w.
                ignored w.shared (handle_packet lib bits env (take 2048 packet) w)
                  ((Runs-handle_packet (take 2048 packet)).at w);
          })
          λ u.
            Runs-bind _ _
              (Runs-change _ (λ s.
                measures (record_recv s.metrics (now_micros env) (length (take 2048 packet)))))
              λ v. Runs-receive_task packets)
