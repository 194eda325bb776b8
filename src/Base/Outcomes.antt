-- ===== src/Base/Outcomes.antt =====
-- Results of fallible code (`crate::error`), with the panics that Rust code may raise.
use Prim.Native.Nat.{ℕ}
use Prim.Native.String.{String}
use mathlib.Core.Bool.{Bool, true, false}
use mathlib.Core.List.{List}

-- `enum Error`. A message built by `format!` is its template with the numbers that are put in, and the
-- errors of the system have no content.
pub data Error : Type 0 where
  invalid_packet : String → List ℕ → Error
  incompatible_protocol : ℕ → ℕ → Error
  connection_refused socket_error other_error : String → Error
  invalid_mtu : ℕ → Error
  io invalid_address connection_closed timeout server_full banned already_connected invalid_magic :
      Error
  listener_closed send_queue_full recv_window_full too_many_connections fragment_queue_full : Error
  channel_send channel_recv task_join : Error

-- `panic` is an index out of bounds, a read past the end of a buffer, or a checked arithmetic
-- operation that overflows.
pub data Result {ℓ} (A : Type ℓ) : Type ℓ where
  ok : A → Result A
  err : Error → Result A
  panic : Result A

infixl 5 ◌>>=◌ ◌>>◌
abbrev pub ◌>>=◌ {ℓ κ} : {A : Type ℓ} {B : Type κ} → Result A → (A → Result B) → Result B
ok a >>= f = f a
err e >>= f = err e
panic >>= f = panic

abbrev pub ◌>>◌ {ℓ} : {B : Type ℓ} → Result (Unit {0}) → Result B → Result B
m >> k = m >>= λ _. k

-- `if failed { return Err(e) }`
abbrev pub reject_if : Bool → Error → Result (Unit {0})
reject_if true e = err e
reject_if false e = ok tt
