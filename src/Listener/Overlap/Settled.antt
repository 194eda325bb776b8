-- ===== src/Listener/Overlap/Settled.antt =====
-- listener.rs: a peer that has been let in, over all histories.
use raknet.Base.{
  ℕ, ◌≡◌, true, false, List, [], ◌∷◌, get_elem?, All, All-snoc, All-remove_at, All-get_elem?,
  Option-cases, Bool-cases, inl, inr, Result, ok, err, panic, refl, ◌∙◌,
}
use raknet.Protocol.Address.{SocketAddr}
use raknet.Protocol.Buffer.{Buffer}
use raknet.Protocol.Opening.{encode_open_connection_reply_2, decode_open_connection_request_2}
use raknet.Protocol.Packet.{id_already_connected}
use raknet.Listener.Keeps.{dispatch-keeps}
use raknet.Listener.{
  Sockets, RakNetListener, same_addr, contains_key, send_to, clamp_mtu, open_session,
  handle_open_connection_request_2, dispatch, login_complete, login_dropped, set_pong_data,
  receive_stream, accept,
}
use raknet.Listener.Handshake.{sent_to, refused}
use raknet.Listener.Overlap.{Busy, admit, check_request_2, finish_request_2}
use raknet.Listener.Overlap.Histories.{
  Step, arrival, checked, finished, completed, dropped, sets_pong_data, accepts, Reachable, begin,
  after,
}
use raknet.Listener.Peers.{contains_key-remove_other, contains_key-insert_key, other_peer}

abbrev pub IsOther : SocketAddr → SocketAddr × ℕ → Type 0
IsOther addr stream = same_addr addr stream.0 ≡ false

-- The peer is in the table, and no stream for it waits for the end of its login.
pub record Entered (addr : SocketAddr) (l : RakNetListener) : Type 0 where
  pub known : contains_key addr l.connections ≡ true
  pub streams : All (IsOther addr) l.streams

-- Nor does a handler for it wait.
pub record Settled (addr : SocketAddr) (b : Busy) : Type 0 where
  pub listener : Entered addr b.listener
  pub pending : All (IsOther addr) b.pending

module _ (lib : Buffer) (net : Sockets) (addr : SocketAddr) where
  send_to-Entered :
      (l : RakNetListener) (to : SocketAddr) (packet : List ℕ)
      → Entered addr l
      → Entered addr (send_to net l to packet).1
  unfolding send_to
  send_to-Entered l to packet t = elim (Bool-cases (net.sends to packet)) [
    | inl e ↦ rw e (record { known = t.known; streams = t.streams })
    | inr e ↦ rw e t
  ]

  open_session-Entered :
      (l : RakNetListener) (to : SocketAddr) (mtu : ℕ)
      → same_addr addr to ≡ false
      → Entered addr l
      → Entered addr (open_session lib net l to mtu).1
  unfolding open_session
  open_session-Entered l to mtu far t = elim (Bool-cases (net.opens to)) [
    | inr e ↦ rw e t
    | inl e ↦
        elim (Bool-cases
          (net.session_sends to (encode_open_connection_reply_2 lib l.server_guid to mtu))) [
            | inr f ↦ rw (e, f) t
            | inl f ↦
                rw (e, f)
                  (record {
                    known = contains_key-insert_key addr to l.connections t.known;
                    streams = All-snoc (IsOther addr) l.streams (to, mtu) t.streams far;
                  })
          ]
  ]

  dispatch-Entered :
      (l : RakNetListener) (packet : List ℕ) (from : SocketAddr)
      → Entered addr l
      → Entered addr (dispatch lib net l packet from)
  dispatch-Entered = dispatch-keeps lib net (Entered addr) send_to-Entered (λ l to mtu new t.
      open_session-Entered l to (clamp_mtu mtu) (other_peer addr to l.connections t.known new) t)

  complete-Entered :
      (l : RakNetListener) (i : ℕ) → Entered addr l → Entered addr (login_complete l i)
  unfolding login_complete
  complete-Entered l i t = elim (Option-cases (get_elem? l.streams i)) [
    | inl gone ↦ rw (gone, login_complete) t
    | inr (stream, there) ↦
        rw (there, login_complete)
          (record { known = t.known; streams = All-remove_at (IsOther addr) l.streams i t.streams })
  ]

  dropped-Entered : (l : RakNetListener) (i : ℕ) → Entered addr l → Entered addr (login_dropped l i)
  unfolding login_dropped
  dropped-Entered l i t = elim (Option-cases (get_elem? l.streams i)) [
    | inl gone ↦ rw (gone, login_dropped) t
    | inr ((to, mtu), there) ↦
        let far = All-get_elem? (IsOther addr) l.streams i (to, mtu) t.streams there in
        rw (there, login_dropped)
          (record {
            known = contains_key-remove_other addr to l.connections far t.known;
            streams = All-remove_at (IsOther addr) l.streams i t.streams;
          })
  ]

  received-Entered :
      (l : RakNetListener) (streams : List (SocketAddr × ℕ))
      → Entered addr l
      → Entered addr (receive_stream l streams).1
  unfolding receive_stream
  received-Entered l [] t = t
  received-Entered l (stream ∷ rest) t = record { known = t.known; streams = t.streams }

  admit-Settled :
      (b : Busy) (from : SocketAddr) (r : Result (SocketAddr × ℕ × ℕ))
      → same_addr addr from ≡ false
      → Settled addr b
      → Settled addr (admit lib net b from r)
  unfolding admit
  admit-Settled b from (ok (server_addr, mtu, guid)) far t = record {
    listener = t.listener;
    pending = All-snoc (IsOther addr) b.pending (from, clamp_mtu mtu) t.pending far;
  }
  admit-Settled b from (err e) far t = t
  admit-Settled b from panic far t = t

  check-Settled :
      (b : Busy) (packet : List ℕ) (from : SocketAddr)
      → Settled addr b
      → Settled addr (check_request_2 lib net b packet from)
  unfolding check_request_2
  check-Settled b packet from t = elim (Bool-cases (contains_key from b.listener.connections)) [
    | inl known ↦ rw known (record {
      listener = send_to-Entered b.listener from (id_already_connected ∷ []) t.listener;
      pending = t.pending;
    })
    | inr new ↦ rw new (
        admit-Settled b from (decode_open_connection_request_2 lib packet)
          (other_peer addr from b.listener.connections t.listener.known new) t)
  ]

  finish-Settled : (b : Busy) (i : ℕ) → Settled addr b → Settled addr (finish_request_2 lib net b i)
  unfolding finish_request_2
  finish-Settled b i t = elim (Option-cases (get_elem? b.pending i)) [
    | inl gone ↦ rw (gone, finish_request_2) t
    | inr ((to, mtu), there) ↦
        let far = All-get_elem? (IsOther addr) b.pending i (to, mtu) t.pending there in
        rw (there, finish_request_2)
          (record {
            listener = open_session-Entered b.listener to mtu far t.listener;
            pending = All-remove_at (IsOther addr) b.pending i t.pending;
          })
  ]

  Step-Settled : (b b' : Busy) → Step lib net b b' → Settled addr b → Settled addr b'
  unfolding set_pong_data accept
  Step-Settled b _ (arrival packet from) t = record {
    listener = dispatch-Entered b.listener packet from t.listener;
    pending = t.pending;
  }
  Step-Settled b _ (checked packet from) t = check-Settled b packet from t
  Step-Settled b _ (finished i) t = finish-Settled b i t
  Step-Settled b _ (completed i) t = record {
    listener = complete-Entered b.listener i t.listener;
    pending = t.pending;
  }
  Step-Settled b _ (dropped i) t = record {
    listener = dropped-Entered b.listener i t.listener;
    pending = t.pending;
  }
  Step-Settled b _ (sets_pong_data pong) t = record {
    listener = record { known = t.listener.known; streams = t.listener.streams };
    pending = t.pending;
  }
  Step-Settled b _ accepts t = record {
    listener = received-Entered b.listener b.listener.accepted t.listener;
    pending = t.pending;
  }

  -- Once the login of a peer is over, with no other stream or handler of that peer waiting, the peer is
  -- refused for ever: whatever the listener goes through, its second request is only answered with the packet for
  -- peers that are connected already, whether or not its stream still exists.
  pub refused_for_ever :
      (b b' : Busy) (packet : List ℕ)
      → Settled addr b
      → Reachable lib net b b'
      → net.sends addr (id_already_connected ∷ []) ≡ true
      → handle_open_connection_request_2 lib net b'.listener packet addr
        ≡ (ok tt, sent_to b'.listener addr (id_already_connected ∷ []))
  unfolding send_to
  refused_for_ever b b' packet t h sends =
      refused lib net b'.listener packet addr (go b' h).listener.known ∙ (rw sends refl)
    where
      go : (b' : Busy) → Reachable lib net b b' → Settled addr b'
      go _ begin = t
      go c' (after {b = c} h s) = Step-Settled c c' s (go c h)
