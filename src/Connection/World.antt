-- ===== src/Connection/World.antt =====
-- connection.rs: what its functions read and change. A function is an action on the shared state and on the
-- channels that its task holds. It reads each clock once, and an error or a panic keeps the changes made before it.
use raknet.Base.{
  ℕ, ◌/◌, ◌%◌, ◌^◌, Bool, List, [], ◌∷◌, ◌++◌, length, if◌then◌else◌, Result, ok, err, panic, io,
}
use raknet.Protocol.Address.{SocketAddr}
use raknet.State.Metrics
use raknet.State.Shared.{SharedState}

-- The system around a connection: its clocks, in microseconds (`Instant::now()` and the time since the epoch),
-- whether the socket takes a packet behind those that it took, and the address of the peer.
pub record Env : Type 0 where
  pub instant : ℕ
  pub system_time : ℕ
  pub accepts : List (List ℕ) → List ℕ → Bool
  pub peer_addr : Result SocketAddr

-- The shared state, the packets that the socket took, the payloads that the application's channel holds, and
-- `ready_notifier`: whether it is still there, and how often it was triggered.
pub record World : Type 0 where
  pub shared : SharedState
  pub sent : List (List ℕ)
  pub delivered : List (List ℕ)
  pub ready_notifier : Bool
  pub notified : ℕ

abbrev pub Action : Type 0 → Type 0
Action A = World → Result A × World

abbrev pub continue : {A B : Type 0} → Result A × World → (A → Action B) → Result B × World
continue (ok a, w) f = f a w
continue (err e, w) f = (err e, w)
continue (panic, w) f = (panic, w)

infixl 5 ◌>>=◌ ◌>>◌
abbrev pub ◌>>=◌ : {A B : Type 0} → Action A → (A → Action B) → Action B
(m >>= f) w = continue (m w) f

abbrev pub ◌>>◌ : {B : Type 0} → Action (Unit {0}) → Action B → Action B
m >> k = m >>= λ _. k

abbrev pub pure : {A : Type 0} → A → Action A
pure a w = (ok a, w)

-- A result of code that changes nothing.
abbrev pub lift : {A : Type 0} → Result A → Action A
lift r w = (r, w)

-- An operation on the shared state.
abbrev pub on_shared : {A : Type 0} → (SharedState → A × SharedState) → Action A
on_shared f w = (ok (f w.shared).0, record w { shared = (f w.shared).1 })

abbrev pub try_shared : {A : Type 0} → (SharedState → Result A × SharedState) → Action A
try_shared f w = ((f w.shared).0, record w { shared = (f w.shared).1 })

abbrev pub read_shared : {A : Type 0} → (SharedState → A) → Action A
read_shared f w = (ok (f w.shared), w)

abbrev pub change_shared : (SharedState → SharedState) → Action (Unit {0})
change_shared f w = (ok tt, record w { shared = f w.shared })

-- `app_data_tx.send(payload)`
abbrev pub deliver : List ℕ → Action (Unit {0})
deliver payload w = (ok tt, record w { delivered = w.delivered ++ (payload ∷ []) })

-- `now_micros()`, and the milliseconds as an `i64`, which is its low 64 bits.
abbrev pub now_micros : Env → ℕ
now_micros env = env.system_time % 2 ^ 64

abbrev pub unix_millis : Env → ℕ
unix_millis env = env.system_time / 1000 % 2 ^ 64

-- `socket.send(&packet).await?`
abbrev pub socket_send : Env → List ℕ → Action (Unit {0})
socket_send env packet w =
    if env.accepts w.sent packet
    then (ok tt, record w { sent = w.sent ++ (packet ∷ []) })
    else (err io, w)

-- `socket.send(&packet).await?; state.metrics.record_send(packet.len());`
unfoldable pub send_recorded : Env → List ℕ → Action (Unit {0})
send_recorded env packet = do
  socket_send env packet
  change_shared
      (λ s. record s { metrics = Metrics.record_send s.metrics (now_micros env) (length packet) })
