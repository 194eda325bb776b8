-- ===== src/Connection/Receive/Arrival.antt =====
-- connection.rs: what becomes of a datagram that arrives.
use raknet.Base.{
  ℕ, suc, ◌+◌, ◌/◌, ◌%◌, ◌^◌, ◌<◌, ◌≤◌, ◌≡◌, true, false, some, List, [], ◌∷◌, ◌++◌, length, ok,
  err, panic, Error, invalid_packet, arith, refl, ap, ◌∙◌, sym,
}
use raknet.Protocol.Buffer.{Buffer}
use raknet.Protocol.Datagram.{encode_datagram, decode_datagram}
use raknet.Protocol.Datagram.RoundTrip.{
  concat, datagram_id, datagram_id-is_datagram, encode_datagram-wire, decode_datagram-encode,
}
use raknet.Protocol.Frame
use raknet.Protocol.Frame.Leading.{decode_invalid_level, decode_empty}
use raknet.Protocol.Uint24.Bytes.{le_bytes}
use raknet.Protocol.Uint24.Laws.{IsU24}
use raknet.Reliability.Ack
use raknet.Reliability.BitVec.{BitVec}
use raknet.Reliability.RecvWindow.{RecvWindow, mark_received, has_received}
use raknet.Reliability.RecvWindow.Marks.{IsWindow}
use raknet.Reliability.RecvWindow.Verdict.{accepted-has_received, has_received-duplicate}
use raknet.Reliability.Levels.{unreliable}
use raknet.Connection.Frames.{handle_frame}
use raknet.Connection.Receive.{
  keep_window, mark_in_window, handle_frames, accept_datagram, handle_datagram, handle_class,
  handle_packet,
}
use raknet.Connection.World.{Env, World, ◌>>◌}

-- The world with another receive window.
abbrev pub with_window : World → RecvWindow → World
with_window w window = record w { shared = record w.shared { recv_window = window } }

-- The world once a number was noted for the next ACK.
abbrev pub noted : World → RecvWindow → ℕ → World
noted w window seq = record w {
  shared = record w.shared {
    recv_window = window;
    pending_acks = Ack.insert w.shared.pending_acks seq;
  };
}

module _ (lib : Buffer) (env : Env) where
  pub frames_fail :
      (fuel byte : ℕ) (buf : List ℕ) (e : Error) (w : World)
      → Frame.decode lib (byte ∷ buf) ≡ err e
      → handle_frames lib env (suc fuel) (byte ∷ buf) w ≡ (err e, w)
  unfolding handle_frames
  frames_fail fuel byte buf e w failed = rw failed refl

  pub frames_panic :
      (fuel byte : ℕ) (buf : List ℕ) (w : World)
      → Frame.decode lib (byte ∷ buf) ≡ panic
      → handle_frames lib env (suc fuel) (byte ∷ buf) w ≡ (panic, w)
  unfolding handle_frames
  frames_panic fuel byte buf w failed = rw failed refl

  pub frames_go_on :
      (fuel byte : ℕ) (buf rest : List ℕ) (frame : Frame.Frame) (w : World)
      → Frame.decode lib (byte ∷ buf) ≡ ok (frame, rest)
      → handle_frames lib env (suc fuel) (byte ∷ buf) w
        ≡ (handle_frame lib env frame >> handle_frames lib env fuel rest) w
  unfolding handle_frames
  frames_go_on fuel byte buf rest frame w decoded = rw decoded refl

  -- The three bytes of a number that is 160 or more modulo 256 are no frame.
  handle_high :
      (seq : ℕ) (rest : List ℕ) (w : World)
      → 160 ≤ seq % 256
      → handle_frames lib env (length (le_bytes seq ++ rest)) (le_bytes seq ++ rest) w
        ≡ (err (invalid_packet "Invalid reliability: {}" (seq % 256 / 32 ∷ [])), w)
  handle_high seq rest w high =
      frames_fail (suc (suc (length rest))) (seq % 256)
        (seq / 2 ^ 8 % 256 ∷ seq / 2 ^ 16 % 256 ∷ rest)
        (invalid_packet "Invalid reliability: {}" (seq % 256 / 32 ∷ [])) w
        (decode_invalid_level lib (seq % 256) (seq / 2 ^ 8 % 256) (seq / 2 ^ 16 % 256) rest
          (omega arith) high)

  handle_empty : (w : World) → handle_frame lib env (Frame.new unreliable []) w ≡ (ok tt, w)
  unfolding handle_frame Frame.new
  handle_empty w = refl

  pub handle_low :
      (seq : ℕ) (rest : List ℕ) (w : World)
      → seq < 16
      → handle_frames lib env (length (le_bytes seq ++ rest)) (le_bytes seq ++ rest) w
        ≡ handle_frames lib env (suc (suc (length rest))) rest w
  handle_low seq rest w low =
      let middle : seq / 2 ^ 8 % 256 ≡ 0 = omega arith in
      let high : seq / 2 ^ 16 % 256 ≡ 0 = omega arith in
      let empty : Frame.decode lib (le_bytes seq ++ rest) ≡ ok (Frame.new unreliable [], rest) =
        rw (middle, high) (decode_empty lib (seq % 256) rest (omega arith)) in
      frames_go_on (suc (suc (length rest))) (seq % 256)
        (seq / 2 ^ 8 % 256 ∷ seq / 2 ^ 16 % 256 ∷ rest) rest (Frame.new unreliable []) w empty
      ∙ rw (handle_empty w) refl

module _ (lib : Buffer) (bits : BitVec) (env : Env) where
  -- A datagram made by `encode_datagram` goes to `handle_datagram`, with its number's bytes before its frames.
  pub handle_encoded :
      (seq : ℕ) (frames : List (List ℕ)) (w : World)
      → IsU24 seq
      → handle_packet lib bits env (encode_datagram lib seq frames) w
        ≡ handle_datagram lib bits env seq (le_bytes seq ++ concat frames) w
  unfolding handle_packet handle_class
  handle_encoded seq frames w h =
      let decoded : decode_datagram (datagram_id ∷ (le_bytes seq ++ concat frames))
          ≡ ok (seq, le_bytes seq ++ concat frames) =
        ap decode_datagram (sym (encode_datagram-wire lib seq frames))
        ∙ decode_datagram-encode lib seq frames h in
      rw (encode_datagram-wire lib seq frames) (rw (datagram_id-is_datagram, decoded) refl)

  handle_known :
      (seq : ℕ) (buf : List ℕ) (w : World) (window : RecvWindow)
      → mark_received bits w.shared.recv_window seq ≡ ok (some false, window)
      → handle_datagram lib bits env seq buf w ≡ (ok tt, with_window w window)
  unfolding handle_datagram
  handle_known seq buf w window known =
      let marked : mark_in_window bits seq w.shared
          ≡ (ok (some false), (with_window w window).shared) =
        ap (keep_window w.shared) known in
      rw marked refl

  pub handle_new :
      (seq : ℕ) (buf : List ℕ) (w : World) (window : RecvWindow)
      → mark_received bits w.shared.recv_window seq ≡ ok (some true, window)
      → handle_datagram lib bits env seq buf w
        ≡ handle_frames lib env (length buf) buf (noted w window seq)
  unfolding handle_datagram accept_datagram
  handle_new seq buf w window new =
      let marked : mark_in_window bits seq w.shared
          ≡ (ok (some true), (with_window w window).shared) =
        ap (keep_window w.shared) new in
      rw marked refl

  -- A 24-bit number that a well-formed window accepts as new is one that the window has after that, as `has_received`
  -- says. In any state whose window has a 24-bit number, a datagram with that number is a duplicate: it changes the count
  -- of duplicates only, is not noted for an ACK, and nothing is delivered or sent.
  pub handle_packet_again :
      (seq : ℕ) (frames : List (List ℕ)) (w : World) (before after : RecvWindow)
      → IsU24 seq
      → IsWindow before
      → mark_received bits before seq ≡ ok (some true, after)
      → has_received bits w.shared.recv_window seq ≡ ok true
      → (has_received bits after seq ≡ ok true)
        × (handle_packet lib bits env (encode_datagram lib seq frames) w ≡ (
          ok tt,
          with_window w (record w.shared.recv_window {
            total_duplicates = w.shared.recv_window.total_duplicates + 1;
          }),
        ))
  handle_packet_again seq frames w before after h window accepted has = (
    accepted-has_received bits before after seq window h accepted,
    handle_encoded seq frames w h
        ∙ handle_known seq (le_bytes seq ++ concat frames) w
            (record w.shared.recv_window {
              total_duplicates = w.shared.recv_window.total_duplicates + 1;
            })
            (has_received-duplicate bits w.shared.recv_window seq has),
  )

  -- A datagram that `encode_datagram` made, with a 24-bit number that is new to the window and is
  -- 160 or more modulo 256, fails with an invalid level, whatever its frames are: its number is
  -- noted for the next ACK, the window has it as received, and nothing else changes.
  pub handle_packet_loses :
      (seq : ℕ) (frames : List (List ℕ)) (w : World) (window : RecvWindow)
      → IsU24 seq
      → 160 ≤ seq % 256
      → mark_received bits w.shared.recv_window seq ≡ ok (some true, window)
      → handle_packet lib bits env (encode_datagram lib seq frames) w
        ≡ (err (invalid_packet "Invalid reliability: {}" (seq % 256 / 32 ∷ [])), noted w window seq)
  handle_packet_loses seq frames w window h high new =
      handle_encoded seq frames w h
      ∙ handle_new seq (le_bytes seq ++ concat frames) w window new
      ∙ handle_high lib env seq (concat frames) (noted w window seq) high
