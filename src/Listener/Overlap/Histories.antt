-- ===== src/Listener/Overlap/Histories.antt =====
-- listener.rs: the table of connections over all histories, with handlers that overlap.
use raknet.Base.{
  ℕ, ◌≡◌, List, [], ◌∷◌, get_elem?, All, All-snoc, All-remove_at, All-get_elem?, Option-cases,
  Bool-cases, inl, inr, Result, ok, err, panic, arith,
}
use raknet.Protocol.Address.{SocketAddr}
use raknet.Protocol.Buffer.{Buffer}
use raknet.Protocol.Opening.{decode_open_connection_request_2}
use raknet.Protocol.Packet.{id_already_connected}
use raknet.Listener.{
  Sockets, RakNetListener, bind, contains_key, clamp_mtu, dispatch, login_complete, login_dropped,
  set_pong_data, receive_stream, accept,
}
use raknet.Listener.Table.{
  InBounds, Tidy, remove-Distinct, send_to-Tidy, open_session-Tidy, dispatch-Tidy, bind-Tidy,
}
use raknet.Listener.Overlap.{Busy, admit, check_request_2, finish_request_2}

module _ (lib : Buffer) (net : Sockets) where
  -- What happens at a listener: a packet is handled in one piece, one half of the handler of a second request runs,
  -- a login ends, a stream is dropped before that, or the application calls.
  pub data Step (b : Busy) : Busy → Type 0 where
    arrival :
        (packet : List ℕ) (addr : SocketAddr)
        → Step b (record b { listener = dispatch lib net b.listener packet addr })
    checked : (packet : List ℕ) (addr : SocketAddr) → Step b (check_request_2 lib net b packet addr)
    finished : (i : ℕ) → Step b (finish_request_2 lib net b i)
    completed : (i : ℕ) → Step b (record b { listener = login_complete b.listener i })
    dropped : (i : ℕ) → Step b (record b { listener = login_dropped b.listener i })
    sets_pong_data :
        (pong : List ℕ) → Step b (record b { listener = set_pong_data b.listener pong })
    accepts : Step b (record b { listener = (accept b.listener).1 })

  pub data Reachable (start : Busy) : Busy → Type 0 where
    begin : Reachable start start
    after : {b b' : Busy} → Reachable start b → Step b b' → Reachable start b'

  -- The listener is tidy, and so are the streams that the pending handlers will make.
  pub record BusyTidy (b : Busy) : Type 0 where
    pub listener : Tidy b.listener
    pub pending : All InBounds b.pending

  admit-BusyTidy :
      (b : Busy) (addr : SocketAddr) (r : Result (SocketAddr × ℕ × ℕ))
      → BusyTidy b
      → BusyTidy (admit lib net b addr r)
  unfolding admit
  admit-BusyTidy b addr (ok (server_addr, mtu, guid)) t = record {
    listener = t.listener;
    pending =
        All-snoc InBounds b.pending (addr, clamp_mtu mtu) t.pending (omega arith, omega arith);
  }
  admit-BusyTidy b addr (err e) t = t
  admit-BusyTidy b addr panic t = t

  check-BusyTidy :
      (b : Busy) (packet : List ℕ) (addr : SocketAddr)
      → BusyTidy b
      → BusyTidy (check_request_2 lib net b packet addr)
  unfolding check_request_2
  check-BusyTidy b packet addr t = elim (Bool-cases (contains_key addr b.listener.connections)) [
    | inl known ↦ rw known (record {
      listener = send_to-Tidy lib net b.listener addr (id_already_connected ∷ []) t.listener;
      pending = t.pending;
    })
    | inr new ↦ rw new (admit-BusyTidy b addr (decode_open_connection_request_2 lib packet) t)
  ]

  finish-BusyTidy : (b : Busy) (i : ℕ) → BusyTidy b → BusyTidy (finish_request_2 lib net b i)
  unfolding finish_request_2
  finish-BusyTidy b i t = elim (Option-cases (get_elem? b.pending i)) [
    | inl gone ↦ rw (gone, finish_request_2) t
    | inr ((addr, mtu), there) ↦
        let bounds = All-get_elem? InBounds b.pending i (addr, mtu) t.pending there in
        rw (there, finish_request_2)
          (record {
            listener = open_session-Tidy lib net b.listener addr mtu bounds t.listener;
            pending = All-remove_at InBounds b.pending i t.pending;
          })
  ]

  complete-Tidy : (l : RakNetListener) (i : ℕ) → Tidy l → Tidy (login_complete l i)
  unfolding login_complete
  complete-Tidy l i t = elim (Option-cases (get_elem? l.streams i)) [
    | inl gone ↦ rw (gone, login_complete) t
    | inr (stream, there) ↦
        rw (there, login_complete)
          (record { distinct = t.distinct; bounded = All-remove_at InBounds l.streams i t.bounded })
  ]

  dropped-Tidy : (l : RakNetListener) (i : ℕ) → Tidy l → Tidy (login_dropped l i)
  unfolding login_dropped
  dropped-Tidy l i t = elim (Option-cases (get_elem? l.streams i)) [
    | inl gone ↦ rw (gone, login_dropped) t
    | inr ((addr, mtu), there) ↦
        rw (there, login_dropped)
          (record {
            distinct = remove-Distinct addr l.connections t.distinct;
            bounded = All-remove_at InBounds l.streams i t.bounded;
          })
  ]

  received-Tidy :
      (l : RakNetListener) (streams : List (SocketAddr × ℕ))
      → Tidy l
      → Tidy (receive_stream l streams).1
  unfolding receive_stream
  received-Tidy l [] t = t
  received-Tidy l (stream ∷ rest) t = record { distinct = t.distinct; bounded = t.bounded }

  accept-Tidy : (l : RakNetListener) → Tidy l → Tidy (accept l).1
  unfolding accept
  accept-Tidy l t = received-Tidy l l.accepted t

  Step-BusyTidy : (b b' : Busy) → Step b b' → BusyTidy b → BusyTidy b'
  unfolding set_pong_data
  Step-BusyTidy b _ (arrival packet addr) t = record {
    listener = dispatch-Tidy lib net b.listener packet addr t.listener;
    pending = t.pending;
  }
  Step-BusyTidy b _ (checked packet addr) t = check-BusyTidy b packet addr t
  Step-BusyTidy b _ (finished i) t = finish-BusyTidy b i t
  Step-BusyTidy b _ (completed i) t = record {
    listener = complete-Tidy b.listener i t.listener;
    pending = t.pending;
  }
  Step-BusyTidy b _ (dropped i) t = record {
    listener = dropped-Tidy b.listener i t.listener;
    pending = t.pending;
  }
  Step-BusyTidy b _ (sets_pong_data pong) t = record {
    listener = record { distinct = t.listener.distinct; bounded = t.listener.bounded };
    pending = t.pending;
  }
  Step-BusyTidy b _ accepts t = record {
    listener = accept-Tidy b.listener t.listener;
    pending = t.pending;
  }

  -- Whatever a listener goes through after `bind`, with handlers that overlap: no address stands in the table
  -- twice, and every stream that waits for its login has an MTU between 576 and 1500.
  pub Reachable-Tidy :
      (to_string : ℕ → List ℕ) (addrs : Result (List SocketAddr))
      (create : SocketAddr → Result SocketAddr) (millis : ℕ) (l : RakNetListener) (b : Busy)
      → bind to_string addrs create millis ≡ ok l
      → Reachable (record { listener = l; pending = [] }) b
      → Tidy b.listener
  Reachable-Tidy to_string addrs create millis l b made h = (go b h).listener
    where
      start : BusyTidy (record { listener = l; pending = [] })
      start = record { listener = bind-Tidy to_string addrs create millis l made; pending = tt }

      go : (b : Busy) → Reachable (record { listener = l; pending = [] }) b → BusyTidy b
      go _ begin = start
      go b' (after {b} h s) = Step-BusyTidy b b' s (go b h)
