-- ===== src/Listener/Keeps.antt =====
-- listener.rs: what holds of the listener through every packet, when it holds through an answer and a new session.
use raknet.Base.{ℕ, ◌≡◌, false, List, [], ◌∷◌, ◌==◌, Result, ok, err, panic, inl, inr, Bool-cases}
use raknet.Protocol.Address.{SocketAddr}
use raknet.Protocol.Buffer.{Buffer}
use raknet.Protocol.Opening.{
  encode_open_connection_reply_1, decode_open_connection_request_1,
  decode_open_connection_request_2,
}
use raknet.Protocol.Codec.{decode_unconnected_ping}
use raknet.Protocol.Packet.{
  protocol_version, id_unconnected_ping, id_open_connection_request_1, id_open_connection_request_2,
  id_already_connected,
}
use raknet.Listener.{
  Sockets, RakNetListener, contains_key, send_to, clamp_mtu, incompatible, answer_ping,
  handle_unconnected_ping, answer_request_1, handle_open_connection_request_1, open_session,
  handle_new_peer, handle_open_connection_request_2, dispatch,
}

module _ (lib : Buffer) (net : Sockets) (P : RakNetListener → Type 0)
    (sends : (l : RakNetListener) (addr : SocketAddr) (packet : List ℕ)
      → P l
      → P (send_to net l addr packet).1)
    (opens : (l : RakNetListener) (addr : SocketAddr) (mtu : ℕ)
      → contains_key addr l.connections ≡ false
      → P l
      → P (open_session lib net l addr (clamp_mtu mtu)).1) where
  answer_ping-keeps :
      (l : RakNetListener) (addr : SocketAddr) (r : Result (ℕ × ℕ))
      → P l
      → P (answer_ping lib net l addr r).1
  unfolding answer_ping
  answer_ping-keeps l addr (ok (timestamp, guid)) t = sends l addr _ t
  answer_ping-keeps l addr (err e) t = t
  answer_ping-keeps l addr panic t = t

  answer_request_1-keeps :
      (l : RakNetListener) (addr : SocketAddr) (r : Result (ℕ × ℕ))
      → P l
      → P (answer_request_1 lib net l addr r).1
  unfolding answer_request_1
  answer_request_1-keeps l addr (ok (version, mtu)) t =
      elim (Bool-cases (version == protocol_version)) [
        | inl e ↦
            rw e (sends l addr (encode_open_connection_reply_1 lib l.server_guid (clamp_mtu mtu)) t)
        | inr e ↦ rw e (sends l addr (incompatible l.server_guid) t)
      ]
  answer_request_1-keeps l addr (err e) t = t
  answer_request_1-keeps l addr panic t = t

  handle_new_peer-keeps :
      (l : RakNetListener) (addr : SocketAddr) (r : Result (SocketAddr × ℕ × ℕ))
      → contains_key addr l.connections ≡ false
      → P l
      → P (handle_new_peer lib net l addr r).1
  unfolding handle_new_peer
  handle_new_peer-keeps l addr (ok (server_addr, mtu, guid)) new t = opens l addr mtu new t
  handle_new_peer-keeps l addr (err e) new t = t
  handle_new_peer-keeps l addr panic new t = t

  request_2-keeps :
      (l : RakNetListener) (packet : List ℕ) (addr : SocketAddr)
      → P l
      → P (handle_open_connection_request_2 lib net l packet addr).1
  unfolding handle_open_connection_request_2
  request_2-keeps l packet addr t = elim (Bool-cases (contains_key addr l.connections)) [
    | inl e ↦ rw e (sends l addr (id_already_connected ∷ []) t)
    | inr e ↦ rw e (handle_new_peer-keeps l addr (decode_open_connection_request_2 lib packet) e t)
  ]

  pub dispatch-keeps :
      (l : RakNetListener) (packet : List ℕ) (addr : SocketAddr)
      → P l
      → P (dispatch lib net l packet addr)
  unfolding dispatch handle_unconnected_ping handle_open_connection_request_1
  dispatch-keeps l [] addr t = t
  dispatch-keeps l (b ∷ bytes) addr t = elim (Bool-cases (b == id_unconnected_ping)) [
    | inl e ↦ rw e (answer_ping-keeps l addr (decode_unconnected_ping lib (b ∷ bytes)) t)
    | inr e ↦ elim (Bool-cases (b == id_open_connection_request_1)) [
      | inl f ↦
          rw (e, f)
            (answer_request_1-keeps l addr (decode_open_connection_request_1 lib (b ∷ bytes)) t)
      | inr f ↦ elim (Bool-cases (b == id_open_connection_request_2)) [
        | inl g ↦ rw (e, f, g) (request_2-keeps l (b ∷ bytes) addr t)
        | inr g ↦ rw (e, f, g) t
      ]
    ]
  ]
