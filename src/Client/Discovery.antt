-- ===== src/Client/Discovery.antt =====
-- client.rs: what the client makes of the answers of a server.
use raknet.Base.{
  ℕ, ◌<◌, ◌^◌, ◌≡◌, true, none, some, List, [], ◌∷◌, ◌++◌, All, Result, ok, err, panic, ap, ◌∙◌,
  sym,
}
use raknet.Protocol.Buffer.{Buffer}
use raknet.Protocol.Opening.{
  encode_open_connection_request_1, encode_open_connection_reply_1, decode_open_connection_reply_1,
}
use raknet.Protocol.Opening.RoundTrip.{decode_open_connection_reply_1-encode, reply_1_starts}
use raknet.Protocol.Packet.{protocol_version}
use raknet.Reliability.BitVec.{BitVec}
use raknet.State.Shared
use raknet.Client.{
  Network, expect_id, send_to, receive_open_connection_reply_1, reply_or, offered, discover_among,
}

-- The result is no value.
abbrev Fails : {A : Type 0} → Result A → Type 0
Fails (ok a) = ⊥
Fails (err e) = Unit {0}
Fails panic = Unit {0}

module _ (lib : Buffer) (net : Network) where
  received_reply :
      (server_guid mtu : ℕ)
      → server_guid < 2 ^ 64
      → mtu < 2 ^ 16
      → receive_open_connection_reply_1 lib net
          (ok (encode_open_connection_reply_1 lib server_guid mtu))
        ≡ ok (server_guid, mtu)
  unfolding receive_open_connection_reply_1 expect_id
  received_reply g mtu hg hm =
      let (rest, starts) = reply_1_starts lib g mtu in
      rw starts (
        ap (decode_open_connection_reply_1 lib) (sym starts)
        ∙ decode_open_connection_reply_1-encode lib g mtu hg hm)

  -- The sizes before the first answer are passed over: when the server is silent to the requests of some sizes and
  -- replies to the next one, the MTU of the discovery is the one of this reply, and the sizes after it are not
  -- tried. The conditions: the socket takes every packet, and the reply was encoded from numbers that fit.
  pub discover_among-reply :
      (silent later : List ℕ) (size server_guid mtu : ℕ)
      → ((packet : List ℕ) → net.sends packet ≡ true)
      → All
          (λ m. net.receives (encode_open_connection_request_1 lib protocol_version m) ≡ none)
          silent
      → net.receives (encode_open_connection_request_1 lib protocol_version size)
        ≡ some (ok (encode_open_connection_reply_1 lib server_guid mtu))
      → server_guid < 2 ^ 64
      → mtu < 2 ^ 16
      → discover_among lib net (silent ++ (size ∷ later)) ≡ ok mtu
  unfolding discover_among send_to reply_or offered
  discover_among-reply [] later size g mtu sends quiet answer hg hm =
      rw (sends (encode_open_connection_request_1 lib protocol_version size)) (
        rw answer
          (ap (offered lib net (discover_among lib net later)) (received_reply g mtu hg hm)))
  discover_among-reply (m ∷ silent) later size g mtu sends quiet answer hg hm =
      rw (sends (encode_open_connection_request_1 lib protocol_version m))
        (rw quiet.0 (discover_among-reply silent later size g mtu sends quiet.1 answer hg hm))
