-- ===== src/Connection/Sharing/Traces.antt =====
-- connection.rs: an action changes the shared state by steps only, one rule for each way to build an action.
pub mod Sends
pub mod Frames
pub mod Receives
pub mod Ticks
use raknet.Base.{
  Bool, true, false, Option, none, some, Result, ok, err, panic, ◌≡◌, refl, if◌then◌else◌, ◌⊎◌,
}
use raknet.Reliability.BitVec.{BitVec}
use raknet.State.Shared.{SharedState}
use raknet.Connection.World.{
  World, Action, continue, ◌>>=◌, pure, lift, on_shared, try_shared, read_shared, change_shared,
}
use raknet.Connection.Sharing.{Step, Steps, stop, also}

-- Whatever it returns, the action took the shared state from the one to the other by steps.
pub record Runs {A : Type 0} (bits : BitVec) (m : Action A) : Type 0 where
  pub at : (w : World) → Steps bits w.shared (m w).1.shared

module _ (bits : BitVec) where
  pub joined : {s t u : SharedState} → Steps bits s t → Steps bits t u → Steps bits s u
  joined first stop = first
  joined first (also rest last) = also (joined first rest) last

  pub one_step : {s t : SharedState} → Step bits s t → Steps bits s t
  one_step step = also stop step

module _ {A : Type 0} {bits : BitVec} where
  pub Runs-pure : (a : A) → Runs bits (pure a)
  Runs-pure a = record { at = λ w. stop }

  pub Runs-lift : (r : Result A) → Runs bits (lift r)
  Runs-lift r = record { at = λ w. stop }

  pub Runs-read : (f : SharedState → Result A) → Runs bits (λ w. (f w.shared, w))
  Runs-read f = record { at = λ w. stop }

  pub Runs-on_shared :
      (f : SharedState → A × SharedState)
      → ((s : SharedState) → Step bits s (f s).1)
      → Runs bits (on_shared f)
  Runs-on_shared f step = record { at = λ w. one_step bits (step w.shared) }

  pub Runs-try_shared :
      (f : SharedState → Result A × SharedState)
      → ((s : SharedState) → Step bits s (f s).1)
      → Runs bits (try_shared f)
  Runs-try_shared f step = record { at = λ w. one_step bits (step w.shared) }

  pub Runs-if :
      (b : Bool) (m n : Action A) → Runs bits m → Runs bits n → Runs bits (if b then m else n)
  Runs-if true m n km kn = km
  Runs-if false m n km kn = kn

pub Runs-change :
    {bits : BitVec} (f : SharedState → SharedState)
    → ((s : SharedState) → Step bits s (f s))
    → Runs bits (change_shared f)
Runs-change {bits} f step = record { at = λ w. one_step bits (step w.shared) }

module _ {A B : Type 0} {bits : BitVec} where
  continue-Steps :
      (s : SharedState) (r : Result A × World) (f : A → Action B)
      → ((a : A) → r.0 ≡ ok a → Runs bits (f a))
      → Steps bits s r.1.shared
      → Steps bits s (continue r f).1.shared
  continue-Steps s (ok a, w) f kf h = joined bits h ((kf a refl).at w)
  continue-Steps s (err e, w) f kf h = h
  continue-Steps s (panic, w) f kf h = h

  -- The rest of the block may use what the first action returned.
  pub Runs-bind_ok :
      (m : Action A) (f : A → Action B)
      → Runs bits m
      → ((w : World) (a : A) → (m w).0 ≡ ok a → Runs bits (f a))
      → Runs bits (m >>= f)
  Runs-bind_ok m f km kf = record { at = λ w. continue-Steps w.shared (m w) f (kf w) (km.at w) }

  pub Runs-bind :
      (m : Action A) (f : A → Action B)
      → Runs bits m
      → ((a : A) → Runs bits (f a))
      → Runs bits (m >>= f)
  Runs-bind m f km kf = Runs-bind_ok m f km (λ w a e. kf a)

pub ruleset runs_rules = (Runs-pure, Runs-lift, Runs-read, Runs-if, Runs-bind)
