-- ===== src/Listener/Overlap/Race.antt =====
-- listener.rs: two second requests of one peer at the same time.
use raknet.Base.{ℕ, ◌^◌, ◌<◌, ◌≡◌, true, false, List, [], ◌∷◌, ◌++◌, if◌then◌else◌, refl, ap, ◌∙◌}
use raknet.Protocol.Address.{SocketAddr}
use raknet.Protocol.Address.RoundTrip.{IsAddress}
use raknet.Protocol.Buffer.{Buffer}
use raknet.Protocol.Opening.{encode_open_connection_request_2, encode_open_connection_reply_2}
use raknet.Protocol.Opening.RoundTrip.{decode_open_connection_request_2-encode}
use raknet.Listener.{Sockets, RakNetListener, contains_key, insert_key, clamp_mtu, open_session}
use raknet.Listener.Handshake.{opened, contains_key-insert_key_self}
use raknet.Listener.Overlap.{Busy, admit, check_request_2, finish_request_2}

-- A second entry for an address changes nothing.
entered :
    (addr : SocketAddr) (known : List SocketAddr)
    → contains_key addr known ≡ false
    → insert_key addr (insert_key addr known) ≡ addr ∷ known
unfolding insert_key
entered addr known new =
    ap (λ b. if b then insert_key addr known else addr ∷ insert_key addr known)
      (contains_key-insert_key_self addr known)
    ∙ (rw new refl)

module _ (lib : Buffer) (net : Sockets) where
  -- A request of a peer outside the table leaves a handler waiting.
  check_new :
      (b : Busy) (server_addr addr : SocketAddr) (mtu client_guid : ℕ)
      → IsAddress server_addr
      → mtu < 2 ^ 16
      → client_guid < 2 ^ 64
      → contains_key addr b.listener.connections ≡ false
      → check_request_2 lib net b
          (encode_open_connection_request_2 lib server_addr mtu client_guid)
          addr
        ≡ record b { pending = b.pending ++ ((addr, clamp_mtu mtu) ∷ []) }
  unfolding check_request_2 admit
  check_new b server_addr addr mtu guid ha hm hg new = rw new (
      ap (admit lib net b addr)
        (decode_open_connection_request_2-encode lib server_addr mtu guid ha hm hg))

  -- On working sockets the second half opens the session.
  open_session-opened :
      (l : RakNetListener) (addr : SocketAddr) (mtu : ℕ)
      → net.opens addr ≡ true
      → ((packet : List ℕ) → net.session_sends addr packet ≡ true)
      → (open_session lib net l addr mtu).1 ≡ opened lib net l addr mtu
  unfolding open_session
  open_session-opened l addr mtu opens sends =
      rw (opens, sends (encode_open_connection_reply_2 lib l.server_guid addr mtu)) refl

  finish_first :
      (l : RakNetListener) (addr : SocketAddr) (mtu : ℕ) (rest : List (SocketAddr × ℕ))
      → net.opens addr ≡ true
      → ((packet : List ℕ) → net.session_sends addr packet ≡ true)
      → finish_request_2 lib net (record { listener = l; pending = (addr, mtu) ∷ rest }) 0
        ≡ record { listener = opened lib net l addr mtu; pending = rest }
  unfolding finish_request_2
  finish_first l addr mtu rest opens sends =
      ap (λ l'. record { listener = l'; pending = rest })
        (open_session-opened l addr mtu opens sends)

  -- Two packets of a peer, whose handlers both look at the table before either goes on.
  abbrev pub overlapping : RakNetListener → SocketAddr → List ℕ → List ℕ → Busy
  overlapping l addr packet packet' =
      let idle : Busy = record { listener = l; pending = [] } in
      let both = check_request_2 lib net (check_request_2 lib net idle packet addr) packet' addr in
      finish_request_2 lib net (finish_request_2 lib net both 0) 0

  -- Two second requests of a peer that is not in the table, with sockets that work, whose handlers both look at the
  -- table before either goes on: both make a session for the peer, with a reply and a stream each, while the table gets one
  -- entry.
  pub two_streams :
      (l : RakNetListener) (server_addr addr : SocketAddr) (mtu mtu' client_guid : ℕ)
      → IsAddress server_addr
      → mtu < 2 ^ 16
      → mtu' < 2 ^ 16
      → client_guid < 2 ^ 64
      → contains_key addr l.connections ≡ false
      → net.opens addr ≡ true
      → ((packet : List ℕ) → net.session_sends addr packet ≡ true)
      → (overlapping l addr
            (encode_open_connection_request_2 lib server_addr mtu client_guid)
            (encode_open_connection_request_2 lib server_addr mtu' client_guid)
          ≡ record {
            listener = opened lib net (opened lib net l addr (clamp_mtu mtu)) addr (clamp_mtu mtu');
            pending = [];
          })
        × ((opened lib net
              (opened lib net l addr (clamp_mtu mtu))
              addr
              (clamp_mtu mtu')).connections
            ≡ addr ∷ l.connections)
  two_streams l server_addr addr mtu mtu' guid ha hm hm' hg new opens sends =
      let packet = encode_open_connection_request_2 lib server_addr mtu guid in
      let packet' = encode_open_connection_request_2 lib server_addr mtu' guid in
      let idle : Busy = record { listener = l; pending = [] } in
      let one : Busy = record { listener = l; pending = (addr, clamp_mtu mtu) ∷ [] } in
      (
        ap
              (λ b.
                finish_request_2 lib net
                  (finish_request_2 lib net (check_request_2 lib net b packet' addr) 0) 0)
              (check_new idle server_addr addr mtu guid ha hm hg new)
            ∙ ap (λ b. finish_request_2 lib net (finish_request_2 lib net b 0) 0)
                (check_new one server_addr addr mtu' guid ha hm' hg new)
            ∙ ap (λ b. finish_request_2 lib net b 0)
                (finish_first l addr (clamp_mtu mtu) ((addr, clamp_mtu mtu') ∷ []) opens sends)
            ∙ finish_first (opened lib net l addr (clamp_mtu mtu)) addr (clamp_mtu mtu') [] opens
                sends,
        entered addr l.connections new,
      )
