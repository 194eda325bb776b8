-- ===== src/Connection/Receive/Fuel.antt =====
-- connection.rs: the loop over the frames of a datagram ends.
use raknet.Base.{
  ℕ, zero, suc, ◌≤◌, ◌≡◌, List, [], ◌∷◌, length, Result, ok, err, panic, Error, arith, refl, sym,
  subst,
}
use raknet.Protocol.Buffer.{Buffer}
use raknet.Protocol.Frame
use raknet.Protocol.Frame.{Frame}
use raknet.Protocol.Frame.Progress.{decode_shorter}
use raknet.Connection.Receive.{handle_frames}
use raknet.Connection.Receive.Arrival.{frames_fail, frames_panic, frames_go_on}
use raknet.Connection.Receive.Delivery.{frames_done}
use raknet.Connection.Frames.{handle_frame}
use raknet.Connection.World.{Env, World, continue}

module _ (lib : Buffer) (env : Env) where
  -- The runs of the loop `while !buf.is_empty()`, without fuel: it ends at the end of the buffer, or with the first frame
  -- that cannot be decoded or handled. A run has finitely many rounds.
  pub data Loops : List ℕ → World → Result (Unit {0}) × World → Type 0 where
    ends : (w : World) → Loops [] w (ok tt, w)
    decode_fails :
        (byte : ℕ) (buf : List ℕ) (w : World) (e : Error)
        → Frame.decode lib (byte ∷ buf) ≡ err e
        → Loops (byte ∷ buf) w (err e, w)
    decode_panics :
        (byte : ℕ) (buf : List ℕ) (w : World)
        → Frame.decode lib (byte ∷ buf) ≡ panic
        → Loops (byte ∷ buf) w (panic, w)
    handle_fails :
        (byte : ℕ) (buf rest : List ℕ) (w w' : World) (frame : Frame) (e : Error)
        → Frame.decode lib (byte ∷ buf) ≡ ok (frame, rest)
        → handle_frame lib env frame w ≡ (err e, w')
        → Loops (byte ∷ buf) w (err e, w')
    handle_panics :
        (byte : ℕ) (buf rest : List ℕ) (w w' : World) (frame : Frame)
        → Frame.decode lib (byte ∷ buf) ≡ ok (frame, rest)
        → handle_frame lib env frame w ≡ (panic, w')
        → Loops (byte ∷ buf) w (panic, w')
    goes_on :
        (byte : ℕ) (buf rest : List ℕ) (w w' : World) (frame : Frame)
        (r : Result (Unit {0}) × World)
        → Frame.decode lib (byte ∷ buf) ≡ ok (frame, rest)
        → handle_frame lib env frame w ≡ (ok tt, w')
        → Loops rest w' r
        → Loops (byte ∷ buf) w r

  after_frame :
      (byte : ℕ) (buf rest : List ℕ) (w : World) (frame : Frame)
      (f : Unit {0} → World → Result (Unit {0}) × World)
      → Frame.decode lib (byte ∷ buf) ≡ ok (frame, rest)
      → ((w' : World) → Loops rest w' (f tt w'))
      → (r : Result (Unit {0}) × World) → handle_frame lib env frame w ≡ r
      → Loops (byte ∷ buf) w (continue r f)
  after_frame byte buf rest w frame f decoded later (ok u, w') h =
      goes_on byte buf rest w w' frame (f tt w') decoded h (later w')
  after_frame byte buf rest w frame f decoded later (err e, w') h =
      handle_fails byte buf rest w w' frame e decoded h
  after_frame byte buf rest w frame f decoded later (panic, w') h =
      handle_panics byte buf rest w w' frame decoded h

  one_round :
      (fuel byte : ℕ) (buf : List ℕ) (w : World)
      → length buf ≤ fuel
      → ((rest : List ℕ) (w' : World)
          → length rest ≤ fuel
          → Loops rest w' (handle_frames lib env fuel rest w'))
      → (r : Result (Frame × List ℕ)) → Frame.decode lib (byte ∷ buf) ≡ r
      → Loops (byte ∷ buf) w (handle_frames lib env (suc fuel) (byte ∷ buf) w)
  one_round fuel byte buf w enough ih (err e) h =
      subst (Loops (byte ∷ buf) w) (sym (frames_fail lib env fuel byte buf e w h))
        (decode_fails byte buf w e h)
  one_round fuel byte buf w enough ih panic h =
      subst (Loops (byte ∷ buf) w) (sym (frames_panic lib env fuel byte buf w h))
        (decode_panics byte buf w h)
  one_round fuel byte buf w enough ih (ok (frame, rest)) h =
      let shorter = decode_shorter lib byte buf rest frame h in
      subst (Loops (byte ∷ buf) w) (sym (frames_go_on lib env fuel byte buf rest frame w h)) (
        after_frame byte buf rest w frame (λ u. handle_frames lib env fuel rest) h
          (λ w'. ih rest w' (omega (arith, shorter, enough))) (handle_frame lib env frame w) refl)

  -- The loop over the frames of a datagram ends, on any bytes: there is a run of the loop from them, with finitely many
  -- rounds, and with as much fuel as there are bytes, or any more, the model's outcome is that of this run.
  pub handle_frames-Loops :
      (fuel : ℕ) (buf : List ℕ) (w : World)
      → length buf ≤ fuel
      → Loops buf w (handle_frames lib env fuel buf w)
  handle_frames-Loops fuel [] w h = subst (Loops [] w) (sym (frames_done lib env fuel w)) (ends w)
  handle_frames-Loops zero (byte ∷ buf) w h = absurd (omega (arith, h))
  handle_frames-Loops (suc fuel) (byte ∷ buf) w h =
      one_round fuel byte buf w (omega (arith, h)) (handle_frames-Loops fuel)
        (Frame.decode lib (byte ∷ buf)) refl
