-- ===== src/State/Connection.antt =====
-- state/connection.rs: the states of a connection and the atomic cell that holds one. Each operation
-- of the standard atomics is one indivisible step; memory orders are not modelled.
pub mod Lifecycle
mod Examples
use raknet.Base.{
  ℕ, ◌+◌, ◌<◌, ◌⊎◌, inl, inr, Bool, true, false, Option, none, some, ◌==◌, if◌then◌else◌, Result,
  ok, panic, ◌>>=◌,
}

pub data ConnectionState : Type 0 where
  connecting connected disconnecting disconnected : ConnectionState

unfoldable pub to_u8 : ConnectionState → ℕ
to_u8 connecting = 0
to_u8 connected = 1
to_u8 disconnecting = 2
to_u8 disconnected = 3

unfoldable pub from_u8 : ℕ → Option ConnectionState
from_u8 val =
    if val == 0
    then some connecting
    else if val == 1
    then some connected
    else if val == 2
    then some disconnecting
    else if val == 3
    then some disconnected
    else none

unfoldable pub can_send : ConnectionState → Bool
can_send connected = true
can_send connecting = false
can_send disconnecting = false
can_send disconnected = false

unfoldable pub can_receive : ConnectionState → Bool
can_receive connecting = true
can_receive connected = true
can_receive disconnecting = false
can_receive disconnected = false

unfoldable pub is_closed : ConnectionState → Bool
is_closed disconnected = true
is_closed connecting = false
is_closed connected = false
is_closed disconnecting = false

unfoldable pub is_active : ConnectionState → Bool
is_active connected = true
is_active connecting = false
is_active disconnecting = false
is_active disconnected = false

-- The arms behind the first one, which lets a state stay.
pub valid_change : ConnectionState → ConnectionState → Bool
valid_change connecting connected = true
valid_change connecting disconnected = true
valid_change connected disconnecting = true
valid_change connected disconnected = true
valid_change disconnecting disconnected = true
valid_change self next = false

pub can_transition_to : ConnectionState → ConnectionState → Bool
unfolding valid_change
can_transition_to self next = if to_u8 self == to_u8 next then true else valid_change self next

-- `AtomicConnectionState` holds the `u8`.
abbrev pub AtomicConnectionState : Type 0
AtomicConnectionState = ℕ

-- `AtomicConnectionState::new`
unfoldable pub new : ConnectionState → AtomicConnectionState
new state = to_u8 state

-- `from_u8(v).expect(..)` and `.unwrap()`
pub expect_state : Option ConnectionState → Result ConnectionState
expect_state none = panic
expect_state (some s) = ok s

unfoldable pub load : AtomicConnectionState → Result ConnectionState
unfolding expect_state
load cell = expect_state (from_u8 cell)

unfoldable pub store : AtomicConnectionState → ConnectionState → AtomicConnectionState
store cell state = to_u8 state

pub swap : AtomicConnectionState → ConnectionState → Result ConnectionState × AtomicConnectionState
unfolding expect_state
swap cell state = (expect_state (from_u8 cell), to_u8 state)

-- `Ok` is `inl`.
pub compare_exchange :
    AtomicConnectionState
    → ConnectionState
    → ConnectionState
    → Result (ConnectionState ⊎ ConnectionState) × AtomicConnectionState
unfolding expect_state
compare_exchange cell current new =
    if cell == to_u8 current
    then ((expect_state (from_u8 cell) >>= λ s. ok (inl s)), to_u8 new)
    else ((expect_state (from_u8 cell) >>= λ s. ok (inr s)), cell)

-- The weak version may fail as well where the values agree.
pub compare_exchange_weak :
    Bool
    → AtomicConnectionState
    → ConnectionState
    → ConnectionState
    → Result (ConnectionState ⊎ ConnectionState) × AtomicConnectionState
unfolding expect_state compare_exchange
compare_exchange_weak spurious cell current next =
    if spurious
    then ((expect_state (from_u8 cell) >>= λ s. ok (inr s)), cell)
    else compare_exchange cell current next

-- What the closure of `map` leaves of a success.
pub forget : ConnectionState ⊎ ConnectionState → Unit {0} ⊎ ConnectionState
forget (inl s) = inl tt
forget (inr s) = inr s

pub transition :
    AtomicConnectionState
    → ConnectionState
    → ConnectionState
    → Result (Unit {0} ⊎ ConnectionState) × AtomicConnectionState
unfolding load can_transition_to compare_exchange forget
transition cell expected new =
    if can_transition_to expected new
    then (let (r, cell') = compare_exchange cell expected new in
        ((r >>= λ s. ok (forget s)), cell'))
    else ((load cell >>= λ s. ok (inr s)), cell)
