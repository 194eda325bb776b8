-- ===== src/Connection/Sending/Sent.antt =====
-- connection.rs: the datagram that `send_reliable_frame` sends.
use raknet.Base.{
  ℕ, ◌%◌, ◌<◌, ◌≡◌, true, none, some, List, [], ◌∷◌, ◌++◌, length, get_or, set, ok, refl, ap,
}
use raknet.Protocol.Buffer.{Buffer}
use raknet.Protocol.Datagram.{encode_datagram}
use raknet.Protocol.Frame
use raknet.Protocol.Frame.{Frame, with_message_index, with_order}
use raknet.Protocol.Frame.Encode.{wire, encode-wire}
use raknet.Protocol.Uint24.{wrapping_add32}
use raknet.Protocol.Uint24.Laws.{u24_mod}
use raknet.Reliability.Levels.{reliable_ordered}
use raknet.State.Shared.{SharedState, next_send_seq}
use raknet.State.Shared.Counters.{next_send_seq_lem, next_message_index_lem, next_order_index_lem}
use raknet.Connection.Sending.{send_frame, send_reliable_frame}
use raknet.Connection.World.{Env, World, send_recorded}

-- The frame for a payload, with the numbers of the counters of a state.
abbrev pub next_frame : SharedState → List ℕ → Frame
next_frame s payload = record {
  reliability = reliable_ordered;
  message_index = some (s.message_index % u24_mod);
  sequence_index = none;
  order_index = some (get_or s.order_indices 0 0 % u24_mod);
  order_channel = 0;
  split = none;
  payload = payload;
}

module _ (lib : Buffer) (env : Env) where
  send_frame-sent :
      (f : Frame) (w : World) (seq : ℕ)
      → (next_send_seq w.shared).0 ≡ seq
      → env.accepts w.sent (encode_datagram lib seq (wire f ∷ [])) ≡ true
      → ((send_frame lib env f w).0 ≡ ok tt)
        × ((send_frame lib env f w).1.sent ≡ w.sent ++ (encode_datagram lib seq (wire f ∷ []) ∷ []))
  unfolding send_frame send_recorded
  send_frame-sent f w seq number accepted =
      rw (encode-wire lib f []) (rw number (rw accepted (refl, refl)))

  -- The world once the two counters of a frame went on.
  abbrev counted : World → World
  counted w = record w {
    shared = record w.shared {
      message_index = wrapping_add32 w.shared.message_index 1;
      order_indices =
          set w.shared.order_indices 0 (wrapping_add32 (get_or w.shared.order_indices 0 0) 1);
    };
  }

  send_reliable_frame-send_frame :
      (payload : List ℕ) (w : World)
      → 0 < length w.shared.order_indices
      → send_reliable_frame lib env payload w
        ≡ send_frame lib env (next_frame w.shared payload) (counted w)
  unfolding send_reliable_frame with_message_index with_order Frame.new
  send_reliable_frame-send_frame payload w h = rw (next_message_index_lem w.shared) (
      rw
        (next_order_index_lem
          (record w.shared { message_index = wrapping_add32 w.shared.message_index 1 }) 0 h)
        refl)

  pub send_reliable_frame-sent :
      (payload : List ℕ) (w : World)
      → 0 < length w.shared.order_indices
      → env.accepts w.sent (
          encode_datagram lib
            (w.shared.send_seq % u24_mod)
            (wire (next_frame w.shared payload) ∷ []))
        ≡ true
      → ((send_reliable_frame lib env payload w).0 ≡ ok tt)
        × ((send_reliable_frame lib env payload w).1.sent
            ≡ w.sent
              ++ (encode_datagram lib
                    (w.shared.send_seq % u24_mod)
                    (wire (next_frame w.shared payload) ∷ [])
                  ∷ []))
  send_reliable_frame-sent payload w h accepted =
      let number : (next_send_seq (counted w).shared).0 ≡ w.shared.send_seq % u24_mod =
        ap (λ r. r.0) (next_send_seq_lem (counted w).shared) in
      rw (send_reliable_frame-send_frame payload w h) (
        send_frame-sent (next_frame w.shared payload) (counted w) (w.shared.send_seq % u24_mod)
          number accepted)
