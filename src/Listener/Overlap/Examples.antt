-- ===== src/Listener/Overlap/Examples.antt =====
-- Histories of a concrete listener.
use raknet.Base.{◌+◌, ◌%◌, ℕ, ◌≡◌, true, List, [], ◌∷◌, Result, ok, refl, arith}
use raknet.Protocol.Address.{SocketAddr, v4}
use raknet.Protocol.Buffer.{reference}
use raknet.Protocol.Opening.{encode_open_connection_request_2}
use raknet.Protocol.Packet.{id_already_connected}
use raknet.Listener.{
  Sockets, RakNetListener, listening, bind, contains_key, handle_open_connection_request_2,
  same_addr, first_address,
}
use raknet.Listener.Handshake.{opened, sent_to}
use raknet.Listener.Table.{Tidy}
use raknet.Listener.Overlap.{Busy, check_request_2}
use raknet.Listener.Overlap.Histories.{begin, after, checked, finished, Reachable-Tidy}
use raknet.Listener.Overlap.Race.{overlapping, two_streams}
use raknet.Listener.Overlap.Settled.{Settled, refused_for_ever}

abbrev net : Sockets
net = record {
  sends = λ addr packet. true;
  opens = λ addr. true;
  session_sends = λ addr packet. true;
}

abbrev host : SocketAddr
host = v4 0 0 0 0 19132

abbrev peer : SocketAddr
peer = v4 192 168 0 7 50_000

-- The last digit only.
abbrev to_string : ℕ → List ℕ
to_string n = (48 + n % 10) ∷ []

abbrev addrs : Result (List SocketAddr)
addrs = ok (host ∷ [])

abbrev bound : SocketAddr → Result SocketAddr
bound addr = ok addr

abbrev listener : RakNetListener
listener = listening to_string host 1_700_000_000_000

bound-listener : bind to_string addrs bound 1_700_000_000_000 ≡ ok listener
unfolding bind first_address
bound-listener = refl

abbrev idle : Busy
idle = record { listener = listener; pending = [] }

abbrev request : ℕ → List ℕ
request mtu = encode_open_connection_request_2 reference host mtu 5

-- Two requests whose handlers overlap.
abbrev both : Busy
both = overlapping reference net listener peer (request 1400) (request 1200)

Reachable-Tidy_example : Tidy both.listener
Reachable-Tidy_example =
    Reachable-Tidy reference net to_string addrs bound 1_700_000_000_000 listener both
      bound-listener
      (after
        (after (after (after begin (checked (request 1400) peer)) (checked (request 1200) peer))
          (finished 0))
        (finished 0))

two_streams_example :
    (both ≡ record {
      listener = opened reference net (opened reference net listener peer 1400) peer 1200;
      pending = [];
    })
    × ((opened reference net (opened reference net listener peer 1400) peer 1200).connections
        ≡ peer ∷ [])
unfolding contains_key
two_streams_example =
    two_streams reference net listener host peer 1400 1200 5
      (omega arith, omega arith, omega arith, omega arith, omega arith) (omega arith) (omega arith)
      (omega arith) refl refl (λ packet. refl)

-- The peer has logged in, and the application has its stream.
abbrev busy : Busy
busy = record {
  listener = record listener { connections = peer ∷ []; accepted = (peer, 1400) ∷ [] };
  pending = [];
}

busy-Settled : Settled peer busy
unfolding contains_key same_addr
busy-Settled = record { listener = record { known = refl; streams = tt }; pending = tt }

abbrev later : Busy
later = check_request_2 reference net busy (7 ∷ []) host

refused_for_ever_example :
    handle_open_connection_request_2 reference net later.listener (request 1400) peer
    ≡ (ok tt, sent_to later.listener peer (id_already_connected ∷ []))
refused_for_ever_example =
    refused_for_ever reference net peer busy later (request 1400) busy-Settled
      (after begin (checked (7 ∷ []) host)) refl
