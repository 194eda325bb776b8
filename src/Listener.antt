-- ===== src/Listener.antt =====
-- listener.rs: the handlers of the handshake. A handler runs in one piece here; Listener/Overlap takes the handler
-- of the second request in two.
pub mod Handshake
pub mod Keeps
pub mod Peers
pub mod Overlap
pub mod Table
mod Examples
use raknet.Base.{
  ℕ, ◌+◌, ◌%◌, ◌^◌, ◌>>=◌, invalid_address, min, max, Bool, true, false, not, ◌&&◌, ◌||◌, List, [],
  ◌∷◌, ◌++◌, get_elem?, remove_at, Option, none, some, ◌==◌, if◌then◌else◌, Result, ok, err, panic,
  Error, io,
}
use raknet.Base.Text.{ascii}
use raknet.Protocol.Address.{SocketAddr, v4, v6}
use raknet.Protocol.Buffer.{Buffer, be_bytes}
use raknet.Protocol.Codec.{decode_unconnected_ping, encode_unconnected_pong}
use raknet.Protocol.Magic.{magic, same_bytes}
use raknet.Protocol.Opening.{
  decode_open_connection_request_1, encode_open_connection_reply_1,
  decode_open_connection_request_2, encode_open_connection_reply_2,
}
use raknet.Protocol.Packet.{
  protocol_version, id_unconnected_ping, id_open_connection_request_1, id_open_connection_request_2,
  id_incompatible_protocol_version, id_already_connected,
}

-- The sockets: whether the listener's socket takes a packet for an address, whether a session socket for a peer is
-- made, and whether that socket takes a packet.
pub record Sockets : Type 0 where
  pub sends : SocketAddr → List ℕ → Bool
  pub opens : SocketAddr → Bool
  pub session_sends : SocketAddr → List ℕ → Bool

-- The listener, with the packets that its socket and the session sockets sent, the streams that wait for the end of
-- their login (a peer and an MTU each), and the streams in the accept channel.
pub record RakNetListener : Type 0 where
  pub local_addr : SocketAddr
  pub server_guid : ℕ
  pub pong_data : List ℕ
  pub connections : List SocketAddr
  pub sent : List (SocketAddr × List ℕ)
  pub streams : List (SocketAddr × ℕ)
  pub accepted : List (SocketAddr × ℕ)

-- `addrs.first().ok_or(Error::InvalidAddress)`
pub first_address : List SocketAddr → Result SocketAddr
first_address [] = err invalid_address
first_address (addr ∷ rest) = ok addr

-- The `format!` of the pong data, with the digits of a number as an argument.
pub default_pong_data : (ℕ → List ℕ) → ℕ → List ℕ
unfolding ascii
default_pong_data to_string server_guid =
    ascii "MCPE;Rust RakNet Server;"
    ++ (to_string protocol_version
        ++ (ascii ";1.20.0;0;10;" ++ (to_string server_guid ++ ascii ";RakNet;Survival")))

-- The listener on a socket, before any packet.
abbrev pub listening : (ℕ → List ℕ) → SocketAddr → ℕ → RakNetListener
listening to_string local_addr millis = record {
  local_addr = local_addr;
  server_guid = millis % 2 ^ 64;
  pong_data = default_pong_data to_string (millis % 2 ^ 64);
  connections = [];
  sent = [];
  streams = [];
  accepted = [];
}

-- `bind` with the addresses that the name lookup gives, the socket that is made for one of them, with its local address, the
-- clock in milliseconds, and the digits of a number.
pub bind :
    (ℕ → List ℕ)
    → Result (List SocketAddr)
    → (SocketAddr → Result SocketAddr)
    → ℕ
    → Result RakNetListener
unfolding first_address
bind to_string lookup_host create_tokio_listener millis = do
  addrs ← lookup_host
  addr ← first_address addrs
  local_addr ← create_tokio_listener addr
  ok (listening to_string local_addr millis)

-- `==` of addresses, and `contains_key`, `insert` and `remove` on the set of them.
unfoldable pub same_addr : SocketAddr → SocketAddr → Bool
same_addr (v4 a b c d port) (v4 a' b' c' d' port') =
    a == a' && b == b' && c == c' && d == d' && port == port'
same_addr (v4 a b c d port) (v6 ip' port' flow' scope') = false
same_addr (v6 ip port flow scope) (v4 a' b' c' d' port') = false
same_addr (v6 ip port flow scope) (v6 ip' port' flow' scope') =
    same_bytes ip ip' && port == port' && flow == flow' && scope == scope'

unfoldable pub contains_key : SocketAddr → List SocketAddr → Bool
contains_key addr [] = false
contains_key addr (known ∷ rest) = same_addr addr known || contains_key addr rest

unfoldable pub insert_key : SocketAddr → List SocketAddr → List SocketAddr
unfolding contains_key
insert_key addr known = if contains_key addr known then known else addr ∷ known

unfoldable pub remove : SocketAddr → List SocketAddr → List SocketAddr
remove addr [] = []
remove addr (known ∷ rest) = if same_addr addr known then rest else known ∷ remove addr rest

unfoldable pub set_pong_data : RakNetListener → List ℕ → RakNetListener
set_pong_data self bytes = record self { pong_data = bytes }

-- `self.socket.send_to(&packet, remote_addr).await?`
unfoldable pub send_to :
    Sockets → RakNetListener → SocketAddr → List ℕ → Result (Unit {0}) × RakNetListener
send_to net self addr packet =
    if net.sends addr packet
    then (ok tt, record self { sent = self.sent ++ ((addr, packet) ∷ []) })
    else (err io, self)

-- `mtu.clamp(576, 1500)`
abbrev pub clamp_mtu : ℕ → ℕ
clamp_mtu mtu = min (max mtu 576) 1500

-- The packet for a peer with another protocol version.
pub incompatible : ℕ → List ℕ
incompatible server_guid =
    id_incompatible_protocol_version ∷ (magic ++ (protocol_version ∷ be_bytes 8 server_guid))

module _ (lib : Buffer) (net : Sockets) where
  -- What `handle_unconnected_ping` does with the decoded ping.
  pub answer_ping :
      RakNetListener → SocketAddr → Result (ℕ × ℕ) → Result (Unit {0}) × RakNetListener
  unfolding send_to
  answer_ping self addr (ok (timestamp, _)) =
      send_to net self addr (encode_unconnected_pong lib timestamp self.server_guid self.pong_data)
  answer_ping self addr (err e) = (ok tt, self)
  answer_ping self addr panic = (panic, self)

  pub handle_unconnected_ping :
      RakNetListener → List ℕ → SocketAddr → Result (Unit {0}) × RakNetListener
  unfolding answer_ping
  handle_unconnected_ping self packet addr =
      answer_ping self addr (decode_unconnected_ping lib packet)

  -- What `handle_open_connection_request_1` does with the decoded request.
  pub answer_request_1 :
      RakNetListener → SocketAddr → Result (ℕ × ℕ) → Result (Unit {0}) × RakNetListener
  unfolding send_to incompatible
  answer_request_1 self addr (ok (version, mtu)) =
      if not (version == protocol_version)
      then send_to net self addr (incompatible self.server_guid)
      else send_to net self addr
          (encode_open_connection_reply_1 lib self.server_guid (clamp_mtu mtu))
  answer_request_1 self addr (err e) = (ok tt, self)
  answer_request_1 self addr panic = (panic, self)

  pub handle_open_connection_request_1 :
      RakNetListener → List ℕ → SocketAddr → Result (Unit {0}) × RakNetListener
  unfolding answer_request_1
  handle_open_connection_request_1 self packet addr =
      answer_request_1 self addr (decode_open_connection_request_1 lib packet)

  -- The second half of `handle_open_connection_request_2`: the session socket, the reply, the stream and the entry.
  unfoldable pub open_session : RakNetListener → SocketAddr → ℕ → Result (Unit {0}) × RakNetListener
  unfolding insert_key
  open_session self addr mtu =
      let reply = encode_open_connection_reply_2 lib self.server_guid addr mtu in
      if not (net.opens addr)
      then (ok tt, self)
      else if not (net.session_sends addr reply)
      then (err io, self)
      else (
        ok tt,
        record self {
          sent = self.sent ++ ((addr, reply) ∷ []);
          streams = self.streams ++ ((addr, mtu) ∷ []);
          connections = insert_key addr self.connections;
        },
      )

  -- The half that runs for a peer that is not yet connected.
  pub handle_new_peer :
      RakNetListener → SocketAddr → Result (SocketAddr × ℕ × ℕ) → Result (Unit {0}) × RakNetListener
  unfolding open_session
  handle_new_peer self addr (ok (_, mtu, _)) = open_session self addr (clamp_mtu mtu)
  handle_new_peer self addr (err e) = (ok tt, self)
  handle_new_peer self addr panic = (panic, self)

  pub handle_open_connection_request_2 :
      RakNetListener → List ℕ → SocketAddr → Result (Unit {0}) × RakNetListener
  unfolding handle_new_peer send_to contains_key
  handle_open_connection_request_2 self packet addr =
      if contains_key addr self.connections
      then send_to net self addr (id_already_connected ∷ [])
      else handle_new_peer self addr (decode_open_connection_request_2 lib packet)

  -- One packet of the loop of `run`. What the handler answers is ignored.
  pub dispatch : RakNetListener → List ℕ → SocketAddr → RakNetListener
  unfolding handle_unconnected_ping handle_open_connection_request_1
      handle_open_connection_request_2
  dispatch self [] addr = self
  dispatch self (packet_id ∷ bytes) addr =
      if packet_id == id_unconnected_ping
      then (handle_unconnected_ping self (packet_id ∷ bytes) addr).1
      else if packet_id == id_open_connection_request_1
      then (handle_open_connection_request_1 self (packet_id ∷ bytes) addr).1
      else if packet_id == id_open_connection_request_2
      then (handle_open_connection_request_2 self (packet_id ∷ bytes) addr).1
      else self

-- The task that waits for the login of one of the streams: the stream goes to the accept channel, or, when its
-- notifier was dropped before that, its address is forgotten.
unfoldable pub login_complete : RakNetListener → ℕ → RakNetListener
login_complete self i = elim (get_elem? self.streams i) [
  | none ↦ self
  | some stream ↦ record self {
    streams = remove_at i self.streams;
    accepted = self.accepted ++ (stream ∷ []);
  }
]

unfoldable pub login_dropped : RakNetListener → ℕ → RakNetListener
unfolding remove
login_dropped self i = elim (get_elem? self.streams i) [
  | none ↦ self
  | some (addr, mtu) ↦ record self {
    streams = remove_at i self.streams;
    connections = remove addr self.connections;
  }
]

-- What `recv` returns of the channel's streams; without one it waits.
unfoldable pub receive_stream :
    RakNetListener → List (SocketAddr × ℕ) → Option (SocketAddr × ℕ) × RakNetListener
receive_stream self [] = (none, self)
receive_stream self (stream ∷ rest) = (some stream, record self { accepted = rest })

-- `accept`. The listener holds a sender of the channel itself, so the channel is never closed.
unfoldable pub accept : RakNetListener → Option (SocketAddr × ℕ) × RakNetListener
unfolding receive_stream
accept self = receive_stream self self.accepted
