-- ===== src/Listener/Handshake.antt =====
-- listener.rs: what a peer gets for the packets of its handshake.
use raknet.Base.{
  ℕ, ◌+◌, ◌%◌, ◌^◌, ◌<◌, ◌≡◌, ◌≢◌, max, true, false, List, [], ◌∷◌, ◌++◌, ok, arith, refl, ap, ◌∙◌,
  ne_test, Bool-cases, inl, inr, ==_iff,
}
use raknet.Protocol.Address.{SocketAddr, v4, v6}
use raknet.Protocol.Address.RoundTrip.{IsAddress}
use raknet.Protocol.Buffer.{Buffer}
use raknet.Protocol.Magic.{same_bytes}
use raknet.Protocol.Opening.{
  encode_open_connection_request_1, encode_open_connection_reply_1, decode_open_connection_reply_1,
  encode_open_connection_request_2, encode_open_connection_reply_2,
  decode_open_connection_request_2,
}
use raknet.Protocol.Opening.RoundTrip.{
  decode_open_connection_request_1-encode, decode_open_connection_reply_1-encode,
  decode_open_connection_request_2-encode,
}
use raknet.Protocol.Packet.{protocol_version, id_already_connected}
use raknet.Listener.{
  Sockets, RakNetListener, same_addr, contains_key, insert_key, send_to, clamp_mtu, incompatible,
  answer_request_1, handle_open_connection_request_1, open_session, handle_new_peer,
  handle_open_connection_request_2,
}

same_bytes_refl : (bytes : List ℕ) → same_bytes bytes bytes ≡ true
same_bytes_refl [] = refl
same_bytes_refl (b ∷ bytes) = rw ((==_iff b b).1 refl) (same_bytes_refl bytes)

pub same_addr_refl : (addr : SocketAddr) → same_addr addr addr ≡ true
unfolding same_addr
same_addr_refl (v4 a b c d port) = ground arith
same_addr_refl (v6 ip port flow scope) = ground (arith, same_bytes_refl ip)

pub contains_key-insert_key_self :
    (addr : SocketAddr) (known : List SocketAddr) → contains_key addr (insert_key addr known) ≡ true
unfolding contains_key insert_key
contains_key-insert_key_self addr known = elim (Bool-cases (contains_key addr known)) [
  | inl there ↦ rw (there, there) refl
  | inr new ↦ rw new (rw (same_addr_refl addr) refl)
]

-- The world after a packet was sent to an address.
abbrev pub sent_to : RakNetListener → SocketAddr → List ℕ → RakNetListener
sent_to l addr packet = record l { sent = l.sent ++ ((addr, packet) ∷ []) }

module _ (lib : Buffer) (net : Sockets) where
  -- The reply to a first request of the server's version.
  pub replied :
      (l : RakNetListener) (mtu : ℕ) (addr : SocketAddr)
      → ((packet : List ℕ) → net.sends addr packet ≡ true)
      → handle_open_connection_request_1 lib net l
          (encode_open_connection_request_1 lib protocol_version mtu)
          addr
        ≡ (
          ok tt,
          sent_to l addr (
              encode_open_connection_reply_1 lib l.server_guid
                (clamp_mtu ((max mtu 18 + 28) % 2 ^ 16))),
        )
  unfolding handle_open_connection_request_1 answer_request_1 send_to
  replied l mtu addr sends =
      ap (answer_request_1 lib net l addr)
        (decode_open_connection_request_1-encode lib protocol_version mtu (omega arith))
      ∙ (rw
          (sends (
            encode_open_connection_reply_1 lib l.server_guid
              (clamp_mtu ((max mtu 18 + 28) % 2 ^ 16))))
          refl)

  -- A client's first request of any version below 256, for an MTU `mtu`, on a socket that takes the answer. With the server's
  -- version the answer is a reply that the client decodes to the server's id and to an MTU between 576 and 1500:
  -- the size of the request, plus 28, brought into these bounds. With any other version the answer is the packet
  -- for incompatible versions. Nothing else of the listener changes.
  pub first_request :
      (l : RakNetListener) (version mtu : ℕ) (addr : SocketAddr)
      → version < 2 ^ 8
      → l.server_guid < 2 ^ 64
      → ((packet : List ℕ) → net.sends addr packet ≡ true)
      → (version ≡ protocol_version
          → (reply : List ℕ) × (handle_open_connection_request_1 lib net l
                (encode_open_connection_request_1 lib version mtu)
                addr
              ≡ (ok tt, sent_to l addr reply))
            × (decode_open_connection_reply_1 lib reply
                ≡ ok (l.server_guid, clamp_mtu ((max mtu 18 + 28) % 2 ^ 16))))
        × (version ≢ protocol_version
            → handle_open_connection_request_1 lib net l
                (encode_open_connection_request_1 lib version mtu)
                addr
              ≡ (ok tt, sent_to l addr (incompatible l.server_guid)))
  unfolding handle_open_connection_request_1 answer_request_1 send_to
  first_request l version mtu addr small guid sends =
      let decoded = decode_open_connection_request_1-encode lib version mtu small in
      let offered = (max mtu 18 + 28) % 2 ^ 16 in
      let reply = encode_open_connection_reply_1 lib l.server_guid (clamp_mtu offered) in
      (
        (λ same. (
          reply,
          ap (answer_request_1 lib net l addr) decoded
              ∙ (rw ((==_iff version protocol_version).1 same) (rw (sends reply) refl)),
          decode_open_connection_reply_1-encode lib l.server_guid (clamp_mtu offered) guid
              (omega arith),
        )),
        (λ other.
            ap (answer_request_1 lib net l addr) decoded
            ∙ (rw (ne_test version protocol_version other)
                (rw (sends (incompatible l.server_guid)) refl))),
      )

  -- The listener after a session was opened.
  abbrev pub opened : RakNetListener → SocketAddr → ℕ → RakNetListener
  opened l addr mtu = record l {
    sent = l.sent ++ ((addr, encode_open_connection_reply_2 lib l.server_guid addr mtu) ∷ []);
    streams = l.streams ++ ((addr, mtu) ∷ []);
    connections = insert_key addr l.connections;
  }

  pub admitted :
      (l : RakNetListener) (packet : List ℕ) (addr : SocketAddr)
      → contains_key addr l.connections ≡ false
      → handle_open_connection_request_2 lib net l packet addr
        ≡ handle_new_peer lib net l addr (decode_open_connection_request_2 lib packet)
  unfolding handle_open_connection_request_2
  admitted l packet addr new = rw new refl

  pub refused :
      (l : RakNetListener) (packet : List ℕ) (addr : SocketAddr)
      → contains_key addr l.connections ≡ true
      → handle_open_connection_request_2 lib net l packet addr
        ≡ send_to net l addr (id_already_connected ∷ [])
  unfolding handle_open_connection_request_2
  refused l packet addr known = rw known refl

  -- A client's second request, from a peer that is not in the table, with sockets that work: one stream is made,
  -- with the MTU of the request brought into the bounds, and the peer enters the table. Any packet that the same
  -- peer sends to this handler after that makes no second stream, and is answered with the packet for peers that
  -- are connected already.
  pub second_request :
      (l : RakNetListener) (server_addr addr : SocketAddr) (mtu client_guid : ℕ) (later : List ℕ)
      → IsAddress server_addr
      → mtu < 2 ^ 16
      → client_guid < 2 ^ 64
      → contains_key addr l.connections ≡ false
      → net.opens addr ≡ true
      → ((packet : List ℕ) → net.session_sends addr packet ≡ true)
      → ((packet : List ℕ) → net.sends addr packet ≡ true)
      → (handle_open_connection_request_2 lib net l
            (encode_open_connection_request_2 lib server_addr mtu client_guid)
            addr
          ≡ (ok tt, opened l addr (clamp_mtu mtu)))
        × (handle_open_connection_request_2 lib net (opened l addr (clamp_mtu mtu)) later addr
            ≡ (ok tt, sent_to (opened l addr (clamp_mtu mtu)) addr (id_already_connected ∷ [])))
  unfolding handle_new_peer open_session send_to
  second_request l server_addr addr mtu guid later ha hm hg new opens session sends = (
    (admitted l (encode_open_connection_request_2 lib server_addr mtu guid) addr new
        ∙ ap (handle_new_peer lib net l addr)
            (decode_open_connection_request_2-encode lib server_addr mtu guid ha hm hg)
        ∙ (rw
            (opens, session (encode_open_connection_reply_2 lib l.server_guid addr (clamp_mtu mtu)))
            refl)),
    refused (opened l addr (clamp_mtu mtu)) later addr
          (contains_key-insert_key_self addr l.connections)
        ∙ (rw (sends (id_already_connected ∷ [])) refl),
  )
