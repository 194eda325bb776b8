-- ===== src/Connection/Stream/Ended.antt =====
-- connection.rs: the tasks and the application after the end of a connection.
use raknet.Base.{
  ℕ, ◌≡◌, ◌>>=◌, true, false, Bool, List, [], ◌∷◌, ok, err, connection_closed, ◌==◌, refl, ap,
}
use raknet.Protocol.Buffer.{Buffer}
use raknet.Reliability.BitVec.{BitVec}
use raknet.State.Connection
use raknet.State.Connection.{ConnectionState, connected, disconnected, load, to_u8, from_u8}
use raknet.State.Shared.{SharedState, is_connected, is_closed, mark_disconnected}
use raknet.Connection.Receive.{receive_task}
use raknet.Connection.Sending.{send_task}
use raknet.Connection.Ticking.{tick}
use raknet.Connection.Sharing.{Steps}
use raknet.Connection.Sharing.Sound.{Sound}
use raknet.Connection.Sharing.Tasks.{is_closed-new, after_disconnect}
use raknet.Connection.Stream.{RakNetStream, stream_send, send}
use raknet.Connection.World.{Env, World}

not_connected :
    (s : SharedState) → s.state ≡ Connection.new disconnected → is_connected s ≡ ok false
unfolding is_connected load from_u8 to_u8 Connection.new
not_connected s ended =
    ap (λ c. Connection.load c >>= λ state. ok (to_u8 state == to_u8 connected)) ended

send_refused :
    (open_channel : Bool) (s : SharedState) (queued : List (List ℕ)) (payload : List ℕ)
    → is_connected s ≡ ok false
    → stream_send open_channel s queued payload ≡ err connection_closed
unfolding stream_send
send_refused open_channel s queued payload refuses = rw refuses refl

module _ (lib : Buffer) (bits : BitVec) (env : Env) (w : World)
    (closed : is_closed w.shared ≡ ok true) where
  send_task_ends : (payloads : List (List ℕ)) → send_task lib env payloads w ≡ (ok tt, w)
  unfolding send_task
  send_task_ends [] = refl
  send_task_ends (payload ∷ rest) = rw closed refl

  receive_task_ends :
      (packets : List (List ℕ))
      → receive_task lib bits env packets w
        ≡ (ok tt, record w { shared = mark_disconnected w.shared })
  unfolding receive_task
  receive_task_ends [] = refl
  receive_task_ends (packet ∷ packets) = rw closed refl

  tick_ends : (ping_counter : ℕ) → tick lib env ping_counter w ≡ (ok false, w)
  unfolding tick
  tick_ends ping_counter = rw closed refl

-- After the shared state of a sound connection was marked as disconnected, by whichever task or call, and after
-- whatever steps the tasks then take, however they interleave: a payload of the application is refused with
-- `ConnectionClosed`, and each of the three tasks ends at the start of its next round, in which it sends nothing and
-- hands over nothing.
pub tasks_end :
    (lib : Buffer) (bits : BitVec) (env : Env) (from : ConnectionState) (s : SharedState)
    (stream : RakNetStream) (payload : List ℕ) (payloads packets : List (List ℕ)) (ping_counter : ℕ)
    → Sound from s
    → Steps bits (mark_disconnected s) stream.connection.shared
    → (send stream payload ≡ err connection_closed)
      × (send_task lib env payloads stream.connection ≡ (ok tt, stream.connection))
      × (receive_task lib bits env packets stream.connection ≡ (
        ok tt,
        record stream.connection { shared = mark_disconnected stream.connection.shared },
      ))
      × (tick lib env ping_counter stream.connection ≡ (ok false, stream.connection))
unfolding send Connection.is_closed
tasks_end lib bits env from s stream payload payloads packets ping_counter h steps =
    let w = stream.connection in
    let ended = after_disconnect bits from s w.shared h steps in
    let closed = is_closed-new w.shared disconnected ended in
    (
      ap (λ r. r >>= λ queued. ok (record stream { queued = queued }))
          (send_refused stream.sends w.shared stream.queued payload (not_connected w.shared ended)),
      send_task_ends lib bits env w closed payloads,
      receive_task_ends lib bits env w closed packets,
      tick_ends lib bits env w closed ping_counter,
    )
