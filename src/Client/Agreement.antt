-- ===== src/Client/Agreement.antt =====
-- client.rs, listener.rs: a client and a listener that meet.
use raknet.Base.{
  ℕ, ◌+◌, ◌%◌, ◌^◌, ◌<◌, ◌≡◌, max, true, false, Option, none, some, List, [], ◌∷◌, ◌++◌, All,
  length, drop, drop-append, Result, ok, arith, sym, ap, ◌∙◌,
}
use raknet.Protocol.Address.{SocketAddr}
use raknet.Protocol.Address.RoundTrip.{IsAddress, carried_address}
use raknet.Protocol.Buffer.{Buffer}
use raknet.Protocol.Opening.{
  encode_open_connection_request_1, encode_open_connection_reply_1, decode_open_connection_reply_2,
  encode_open_connection_request_2, encode_open_connection_reply_2,
}
use raknet.Protocol.Opening.RoundTrip.{decode_open_connection_reply_2-encode, reply_2_starts}
use raknet.Protocol.Packet.{protocol_version}
use raknet.Listener.{
  Sockets, RakNetListener, contains_key, clamp_mtu, handle_open_connection_request_1,
  handle_open_connection_request_2,
}
use raknet.Listener.Handshake.{sent_to, opened, replied, second_request}
use raknet.Client.{Network, expect_id, in_time, discover_among, receive_open_connection_reply_2}
use raknet.Client.Discovery.{discover_among-reply}

pub first_packet : List (SocketAddr × List ℕ) → Option (Result (List ℕ))
first_packet [] = none
first_packet ((addr, packet) ∷ rest) = some (ok packet)

-- What a listener sent between two of its states, as it arrives: the first packet, or nothing.
abbrev pub answer : RakNetListener → RakNetListener → Option (Result (List ℕ))
answer l l' = first_packet (drop (length l.sent) l'.sent)

answer-sent :
    (l : RakNetListener) (addr : SocketAddr) (packet : List ℕ) (l' : RakNetListener)
    → l'.sent ≡ l.sent ++ ((addr, packet) ∷ [])
    → answer l l' ≡ some (ok packet)
unfolding first_packet
answer-sent l addr packet l' e =
    ap (λ sent. first_packet (drop (length l.sent) sent)) e
    ∙ ap first_packet (drop-append l.sent ((addr, packet) ∷ []))

module _ (lib : Buffer) (client : Network) (sockets : Sockets) where
  received_reply_2 :
      (server_guid mtu : ℕ) (client_addr : SocketAddr)
      → server_guid < 2 ^ 64
      → IsAddress client_addr
      → mtu < 2 ^ 16
      → receive_open_connection_reply_2 lib client
          (some (ok (encode_open_connection_reply_2 lib server_guid client_addr mtu)))
        ≡ ok (server_guid, carried_address client_addr, mtu)
  unfolding receive_open_connection_reply_2 expect_id in_time
  received_reply_2 g mtu addr hg ha hm =
      let (rest, starts) = reply_2_starts lib g addr mtu in
      rw starts (
        ap (decode_open_connection_reply_2 lib) (sym starts)
        ∙ decode_open_connection_reply_2-encode lib g addr mtu hg ha hm)

  -- The MTU that a listener offers for a request of a size.
  abbrev pub offer : ℕ → ℕ
  offer size = clamp_mtu ((max size 18 + 28) % 2 ^ 16)

  -- The listener after the first and after the second request of the client.
  abbrev pub asked : RakNetListener → SocketAddr → ℕ → RakNetListener
  asked l addr size =
      (handle_open_connection_request_1 lib sockets l
        (encode_open_connection_request_1 lib protocol_version size) addr).1

  abbrev pub joined : RakNetListener → SocketAddr → SocketAddr → ℕ → RakNetListener
  joined l addr server_addr size =
      (handle_open_connection_request_2 lib sockets (asked l addr size)
        (encode_open_connection_request_2 lib server_addr (offer size) client.client_guid) addr).1

  -- A client meets a listener: the requests of some sizes are lost, the one of the next size arrives, and what the listener
  -- sends on it and on the client's second request reaches the client. Then both ends agree: the discovery gives the MTU
  -- that the listener offers, the client's second request is answered with the listener's id, the client's address as the
  -- wire carries it and this MTU, and the listener has made one stream, for this client and this MTU. The conditions:
  -- the sockets of both sides work, the client is not in the listener's table, and the ids and the addresses hold values of
  -- their types.
  pub ends_agree :
      (silent later : List ℕ) (size : ℕ) (l : RakNetListener) (server_addr addr : SocketAddr)
      → ((packet : List ℕ) → client.sends packet ≡ true)
      → All
          (λ m. client.receives (encode_open_connection_request_1 lib protocol_version m) ≡ none)
          silent
      → client.receives (encode_open_connection_request_1 lib protocol_version size)
        ≡ answer l (asked l addr size)
      → client.receives
          (encode_open_connection_request_2 lib server_addr (offer size) client.client_guid)
        ≡ answer (asked l addr size) (joined l addr server_addr size)
      → ((packet : List ℕ) → sockets.sends addr packet ≡ true)
      → sockets.opens addr ≡ true
      → ((packet : List ℕ) → sockets.session_sends addr packet ≡ true)
      → contains_key addr l.connections ≡ false
      → l.server_guid < 2 ^ 64
      → client.client_guid < 2 ^ 64
      → IsAddress server_addr
      → IsAddress addr
      → (discover_among lib client (silent ++ (size ∷ later)) ≡ ok (offer size))
        × (receive_open_connection_reply_2 lib client (
              client.receives
                (encode_open_connection_request_2 lib server_addr (offer size) client.client_guid))
            ≡ ok (l.server_guid, carried_address addr, offer size))
        × ((joined l addr server_addr size).streams ≡ l.streams ++ ((addr, offer size) ∷ []))
  ends_agree silent later size l server_addr addr takes quiet first second sends opens session new
        hg hc hs ha =
      let reply = encode_open_connection_reply_1 lib l.server_guid (offer size) in
      let reply_2 = encode_open_connection_reply_2 lib l.server_guid addr (offer size) in
      let l1 = sent_to l addr reply in
      let one : asked l addr size ≡ l1 = ap (λ r. r.1) (replied lib sockets l size addr sends) in
      let two : joined l addr server_addr size ≡ opened lib sockets l1 addr (offer size) =
        ap
          (λ k.
            (handle_open_connection_request_2 lib sockets k
              (encode_open_connection_request_2 lib server_addr (offer size) client.client_guid)
              addr).1)
          one
        ∙ ap (λ r. r.1)
            ((second_request lib sockets l1 server_addr addr (offer size) client.client_guid [] hs
              (omega arith) hc new opens session sends).0)
        ∙ ap (opened lib sockets l1 addr) (clamped ((max size 18 + 28) % 2 ^ 16)) in
      (
        discover_among-reply lib client silent later size l.server_guid (offer size) takes quiet
            (first ∙ answer-sent l addr reply (asked l addr size) (ap (λ k. k.sent) one)) hg
            (omega arith),
        ap (receive_open_connection_reply_2 lib client) (
              second
              ∙ ap (λ k. answer k (joined l addr server_addr size)) one
              ∙ answer-sent l1 addr reply_2 (joined l addr server_addr size) (ap (λ k. k.sent) two))
            ∙ received_reply_2 l.server_guid (offer size) addr hg ha (omega arith),
        ap (λ k. k.streams) two,
      )
    where
      clamped : (mtu : ℕ) → clamp_mtu (clamp_mtu mtu) ≡ clamp_mtu mtu
      clamped mtu = omega arith
