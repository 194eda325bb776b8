-- ===== src/Listener/Overlap.antt =====
-- listener.rs: the handlers of second requests that overlap. The listener spawns a task for each packet, and such a
-- task lets others run between its look at the table and the new entry there.
pub mod Histories
pub mod Race
pub mod Settled
mod Examples
use raknet.Base.{
  ℕ, List, [], ◌∷◌, ◌++◌, get_elem?, remove_at, none, some, if◌then◌else◌, Result, ok, err, panic,
}
use raknet.Protocol.Address.{SocketAddr}
use raknet.Protocol.Buffer.{Buffer}
use raknet.Protocol.Opening.{decode_open_connection_request_2}
use raknet.Protocol.Packet.{id_already_connected}
use raknet.Listener.{Sockets, RakNetListener, contains_key, send_to, clamp_mtu, open_session}

-- The listener and the handlers that found their peer outside the table: the peer and the MTU of each.
pub record Busy : Type 0 where
  pub listener : RakNetListener
  pub pending : List (SocketAddr × ℕ)

module _ (lib : Buffer) (net : Sockets) where
  -- What the first half of the handler does with the decoded request.
  pub admit : Busy → SocketAddr → Result (SocketAddr × ℕ × ℕ) → Busy
  admit b addr (ok (_, mtu, _)) = record b { pending = b.pending ++ ((addr, clamp_mtu mtu) ∷ []) }
  admit b addr (err e) = b
  admit b addr panic = b

  -- The first half of `handle_open_connection_request_2`, up to the session socket.
  pub check_request_2 : Busy → List ℕ → SocketAddr → Busy
  unfolding admit
  check_request_2 b packet addr =
      if contains_key addr b.listener.connections
      then record b { listener = (send_to net b.listener addr (id_already_connected ∷ [])).1 }
      else admit b addr (decode_open_connection_request_2 lib packet)

  -- The second half of one of the handlers.
  pub finish_request_2 : Busy → ℕ → Busy
  finish_request_2 b i = elim (get_elem? b.pending i) [
    | none ↦ b
    | some (addr, mtu) ↦ record {
      listener = (open_session lib net b.listener addr mtu).1;
      pending = remove_at i b.pending;
    }
  ]
