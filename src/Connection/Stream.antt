-- ===== src/Connection/Stream.antt =====
-- connection.rs: what the application does with a connection.
pub mod Ended
mod Examples
use raknet.Base.{
  ℕ, Bool, not, true, Option, none, some, List, [], ◌∷◌, ◌++◌, if◌then◌else◌, Result, ok, err,
  ◌>>=◌, ◌>>◌, reject_if, connection_closed,
}
use raknet.Protocol.Address.{SocketAddr}
use raknet.Protocol.Buffer.{Buffer}
use raknet.Reliability.BitVec.{BitVec}
use raknet.Reliability.RecvWindow.{RecvWindowStats}
use raknet.Reliability.SendQueue.{SendQueueStats}
use raknet.State.Metrics.{MetricsSnapshot}
use raknet.State.Shared
use raknet.State.Shared.{SharedState, is_connected, mark_disconnected}
use raknet.Connection.Ticking
use raknet.Connection.World.{Env, World}

-- The stream of the application: the connection, the payloads in the channel to the send task with whether that task
-- still takes them, and whether the receive task, which fills the other channel, still runs.
pub record RakNetStream : Type 0 where
  pub local_addr : Result SocketAddr
  pub remote_addr : SocketAddr
  pub connection : World
  pub queued : List (List ℕ)
  pub sends : Bool
  pub receives : Bool

-- `RakNetStream::new` at an instant: the tasks start, and the channels are empty.
pub new : BitVec → ℕ → Result SocketAddr → SocketAddr → ℕ → Bool → RakNetStream
new bits now local_addr remote_addr mtu ready_notifier = record {
  local_addr = local_addr;
  remote_addr = remote_addr;
  connection = record {
    shared = Shared.new bits now mtu;
    sent = [];
    delivered = [];
    ready_notifier = ready_notifier;
    notified = 0;
  };
  queued = [];
  sends = true;
  receives = true;
}

-- The payloads in the channel with the new one.
unfoldable pub stream_send : Bool → SharedState → List (List ℕ) → List ℕ → Result (List (List ℕ))
stream_send channel_open s queued payload = do
  connected ← is_connected s
  reject_if (not connected) connection_closed
  reject_if (not channel_open) connection_closed
  ok (queued ++ (payload ∷ []))

-- `RakNetStream::send`. The reliability that the caller asks for is not used.
pub send : RakNetStream → List ℕ → Result RakNetStream
unfolding stream_send
send self payload = do
  queued ← stream_send self.sends self.connection.shared self.queued payload
  ok (record self { queued = queued })

-- `recv`: a payload, the end of the channel, or nothing yet.
pub data Received : Type 0 where
  payload : List ℕ → Received
  ended waits : Received

pub receive_from : RakNetStream → List (List ℕ) → Received × RakNetStream
receive_from self [] = (if self.receives then waits else ended, self)
receive_from self (first ∷ rest) =
    (payload first, record self { connection = record self.connection { delivered = rest } })

pub recv : RakNetStream → Received × RakNetStream
unfolding receive_from
recv self = receive_from self self.connection.delivered

pub close : Buffer → Env → RakNetStream → Result (Unit {0}) × RakNetStream
close lib env self =
    let (r, w) = Ticking.close lib env self.connection in (r, record self { connection = w })

-- `Drop`: the shared state outlives the stream.
pub drop_stream : RakNetStream → World
drop_stream self = record self.connection { shared = mark_disconnected self.connection.shared }

-- The readers.
pub mtu : RakNetStream → ℕ
mtu self = self.connection.shared.mtu

pub stream_is_connected : RakNetStream → Result Bool
stream_is_connected self = is_connected self.connection.shared

pub metrics_snapshot : RakNetStream → MetricsSnapshot
metrics_snapshot self = Shared.metrics_snapshot self.connection.shared

pub send_queue_stats : RakNetStream → SendQueueStats
send_queue_stats self = Shared.send_queue_stats self.connection.shared

pub recv_window_stats : RakNetStream → RecvWindowStats
recv_window_stats self = Shared.recv_window_stats self.connection.shared
