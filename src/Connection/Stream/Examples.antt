-- ===== src/Connection/Stream/Examples.antt =====
-- The end of a connection at a concrete stream.
use raknet.Base.{◌≡◌, true, false, [], ◌∷◌, ok, err, connection_closed}
use raknet.Protocol.Address.{v4}
use raknet.Protocol.Buffer.{reference}
use raknet.Reliability.BitVec.{reference_bits}
use raknet.State.Connection.{connecting}
use raknet.State.Shared
use raknet.State.Shared.{SharedState, mark_disconnected}
use raknet.Connection.Receive.{receive_task}
use raknet.Connection.Sending.{send_task}
use raknet.Connection.Sharing.{stop, also, takes_acks}
use raknet.Connection.Sharing.Invariant.{fresh-Sound}
use raknet.Connection.Stream.{RakNetStream, send}
use raknet.Connection.Stream.Ended.{tasks_end}
use raknet.Connection.Ticking.{tick}
use raknet.Connection.World.{Env}

abbrev env : Env
env = record {
  instant = 7_000_000;
  system_time = 1_700_000_000_000_000;
  accepts = λ sent packet. true;
  peer_addr = ok (v4 127 0 0 1 19132);
}

abbrev state : SharedState
state = Shared.new reference_bits 0 1400

-- The receive task has found the socket closed, and the tick task has taken the numbers to acknowledge since.
abbrev stream : RakNetStream
stream = record {
  local_addr = ok (v4 127 0 0 1 40_000);
  remote_addr = v4 127 0 0 1 19132;
  connection = record {
    shared = record (mark_disconnected state) { pending_acks = [] };
    sent = [];
    delivered = (254 ∷ 9 ∷ []) ∷ [];
    ready_notifier = false;
    notified = 1;
  };
  queued = [];
  sends = true;
  receives = false;
}

tasks_end_example :
    (send stream (254 ∷ []) ≡ err connection_closed)
    × (send_task reference env ((254 ∷ []) ∷ []) stream.connection ≡ (ok tt, stream.connection))
    × (receive_task reference reference_bits env ((21 ∷ []) ∷ []) stream.connection
        ≡ (ok tt, record stream.connection { shared = mark_disconnected stream.connection.shared }))
    × (tick reference env 7 stream.connection ≡ (ok false, stream.connection))
tasks_end_example =
    tasks_end reference reference_bits env connecting state stream (254 ∷ []) ((254 ∷ []) ∷ [])
      ((21 ∷ []) ∷ []) 7 (fresh-Sound reference_bits 0 1400) (also stop takes_acks)
