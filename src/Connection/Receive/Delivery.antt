-- ===== src/Connection/Receive/Delivery.antt =====
-- connection.rs: the way of one frame from its encoding to the application.
use raknet.Base.{
  ℕ, zero, suc, ◌<◌, ◌≡◌, true, some, List, [], ◌∷◌, ◌++◌, length, Result, ok, err, panic, ◌>>=◌,
  arith, refl, ap, ◌∙◌, sym,
}
use raknet.Protocol.Buffer.{Buffer}
use raknet.Protocol.Datagram.{encode_datagram}
use raknet.Protocol.Frame
use raknet.Protocol.Frame.{Frame}
use raknet.Protocol.Frame.Decode.{Fits, carried_frame, decode-encode}
use raknet.Protocol.Frame.Encode.{wire, encode-wire}
use raknet.Protocol.Uint24.Bytes.{le_bytes}
use raknet.Reliability.BitVec.{BitVec}
use raknet.Reliability.RecvWindow.{RecvWindow, mark_received}
use raknet.Connection.Frames.{handle_frame}
use raknet.Connection.Receive.{handle_frames, handle_packet}
use raknet.Connection.Receive.Arrival.{noted, handle_encoded, handle_new, handle_low, frames_go_on}
use raknet.Connection.World.{Env, World, continue}

module _ (lib : Buffer) (env : Env) where
  pub frames_done : (fuel : ℕ) (w : World) → handle_frames lib env fuel [] w ≡ (ok tt, w)
  unfolding handle_frames
  frames_done zero w = refl
  frames_done (suc fuel) w = refl

  continue-frames_done :
      (fuel : ℕ) (r : Result (Unit {0}) × World)
      → continue r (λ _. handle_frames lib env fuel []) ≡ r
  continue-frames_done fuel (ok u, w) = frames_done fuel w
  continue-frames_done fuel (err e, w) = refl
  continue-frames_done fuel (panic, w) = refl

  one_frame :
      (fuel : ℕ) (f : Frame) (bytes : List ℕ) (w : World)
      → Fits f
      → Frame.encode lib f [] ≡ ok bytes
      → handle_frames lib env (suc fuel) (bytes ++ []) w ≡ handle_frame lib env (carried_frame f) w
  one_frame fuel f bytes w fits encoded =
      let wired : Frame.encode lib f [] ≡ ok (wire f) = encode-wire lib f [] in
      let same : bytes ≡ wire f = cc in
      let decoded : Frame.decode lib (wire f ++ []) ≡ ok (carried_frame f, []) =
        ap (λ r. r >>= λ bytes. Frame.decode lib (bytes ++ [])) (sym wired)
        ∙ decode-encode lib f [] fits in
      ap (λ b. handle_frames lib env (suc fuel) (b ++ []) w) same
      ∙ frames_go_on lib env fuel _ _ [] (carried_frame f) w decoded
      ∙ continue-frames_done fuel (handle_frame lib env (carried_frame f) w)

module _ (lib : Buffer) (bits : BitVec) (env : Env) where
  -- A new datagram of one frame, with a number below 16, is noted for the next ACK, and its frame is handled as
  -- the level of the frame carries it. The condition on the frame is that its fields hold values of their types,
  -- and its payload is below 8192 bytes.
  pub handle_packet-encode :
      (seq : ℕ) (f : Frame) (bytes : List ℕ) (w : World) (window : RecvWindow)
      → seq < 16
      → Fits f
      → Frame.encode lib f [] ≡ ok bytes
      → mark_received bits w.shared.recv_window seq ≡ ok (some true, window)
      → handle_packet lib bits env (encode_datagram lib seq (bytes ∷ [])) w
        ≡ handle_frame lib env (carried_frame f) (noted w window seq)
  handle_packet-encode seq f bytes w window low fits encoded new =
      handle_encoded lib bits env seq (bytes ∷ []) w (omega arith)
      ∙ handle_new lib bits env seq (le_bytes seq ++ (bytes ++ [])) w window new
      ∙ handle_low lib env seq (bytes ++ []) (noted w window seq) low
      ∙ one_frame lib env (suc (length (bytes ++ []))) f bytes (noted w window seq) fits encoded
