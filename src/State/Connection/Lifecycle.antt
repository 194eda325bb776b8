-- ===== src/State/Connection/Lifecycle.antt =====
-- state/connection.rs: the course of a connection under the validated transitions.
use raknet.Base.{
  ◌≤◌, ◌≡◌, ◌&&◌, inl, inr, true, ◌==◌, if◌then◌else◌, Bool-cases, subst, sym, ok, refl, arith,
}
use raknet.State.Connection.{
  ConnectionState, connecting, connected, disconnecting, disconnected, to_u8, from_u8,
  can_transition_to, valid_change, AtomicConnectionState, new, load, expect_state, compare_exchange,
  forget, transition,
}

pub from_u8-to_u8_state : (s : ConnectionState) → expect_state (from_u8 (to_u8 s)) ≡ ok s
unfolding expect_state from_u8 to_u8
from_u8-to_u8_state connecting = refl
from_u8-to_u8_state connected = refl
from_u8-to_u8_state disconnecting = refl
from_u8-to_u8_state disconnected = refl

-- `transition` never panics on a cell that holds a state. It moves the cell to the new state
-- exactly if the cell held the expected one and the change is allowed; otherwise it reports the
-- state that it found and leaves it.
pub transition-new :
    (s expected next : ConnectionState)
    → transition (new s) expected next ≡ (
        if can_transition_to expected next && to_u8 s == to_u8 expected
        then (ok (inl tt), new next)
        else (ok (inr s), new s))
unfolding transition load compare_exchange forget new
transition-new s expected next = elim (Bool-cases (can_transition_to expected next)) [
  | inr never ↦ rw (never, from_u8-to_u8_state s) refl
  | inl allowed ↦ elim (Bool-cases (to_u8 s == to_u8 expected)) [
    | inl held ↦ rw (allowed, held, from_u8-to_u8_state s) refl
    | inr other ↦ rw (allowed, other, from_u8-to_u8_state s) refl
  ]
]

-- One call of `transition` on the cell, whoever makes it.
pub data Step : AtomicConnectionState → AtomicConnectionState → Type 0 where
  transitions :
      {c : AtomicConnectionState} (expected next : ConnectionState)
      → Step c (transition c expected next).1

-- A sequence of steps.
pub data Steps : AtomicConnectionState → AtomicConnectionState → Type 0 where
  stop : {c : AtomicConnectionState} → Steps c c
  also : {b c d : AtomicConnectionState} → Steps b c → Step c d → Steps b d

allowed-up : (a b : ConnectionState) → can_transition_to a b ≡ true → to_u8 a ≤ to_u8 b
unfolding can_transition_to valid_change to_u8
allowed-up connecting b h = omega arith
allowed-up connected connecting h = cc
allowed-up connected b h = omega arith
allowed-up disconnecting disconnecting h = omega arith
allowed-up disconnecting disconnected h = omega arith
allowed-up disconnecting b h = cc
allowed-up disconnected disconnected h = omega arith
allowed-up disconnected b h = cc

-- The cell holds a state, at or after this one.
abbrev pub HasReached : ConnectionState → AtomicConnectionState → Type 0
HasReached s c = (t : ConnectionState) × (c ≡ new t) × (to_u8 s ≤ to_u8 t)

pub transition-HasReached :
    (s t expected next : ConnectionState)
    → to_u8 s ≤ to_u8 t
    → HasReached s (transition (new t) expected next).1
transition-HasReached s t expected next h =
    elim (Bool-cases (can_transition_to expected next && to_u8 t == to_u8 expected)) [
      | inr kept ↦ rw (transition-new t expected next) (rw kept (t, refl, h))
      | inl moved ↦
          rw (transition-new t expected next)
            (rw moved (next, refl, ground (arith, moved, allowed-up expected next)))
    ]

Steps-HasReached :
    (s : ConnectionState) {b c : AtomicConnectionState}
    → HasReached s b
    → Steps b c
    → HasReached s c
Steps-HasReached s r stop = r
Steps-HasReached s r (also {c} first (transitions expected next)) =
    let (t, same, up) = Steps-HasReached s r first in
    subst (λ x. HasReached s (transition x expected next).1) (sym same)
      (transition-HasReached s t expected next up)

-- Whatever validated transitions are tried on a cell, by whomever and in whatever order, it always
-- holds a state, and the state only goes forward from connecting over connected and disconnecting
-- to disconnected.
pub only_forward :
    (s : ConnectionState) (c : AtomicConnectionState) → Steps (new s) c → HasReached s c
only_forward s c h = Steps-HasReached s (s, refl, omega arith) h
