-- ===== src/Connection/Sharing/Tasks.antt =====
-- connection.rs: the tasks of a connection, round by round, and what their sharing of the state comes to.
use raknet.Base.{ℕ, ◌≡◌, ◌≤◌, true, ◌>>=◌, List, ok, arith, refl, ap, ◌∙◌}
use raknet.Protocol.Buffer.{Buffer}
use raknet.Reliability.BitVec.{BitVec}
use raknet.State.Connection
use raknet.State.Connection.Lifecycle.{HasReached, from_u8-to_u8_state}
use raknet.State.Connection.{
  ConnectionState, connecting, connected, disconnecting, disconnected, to_u8, from_u8, expect_state,
  load, store,
}
use raknet.State.Shared.{SharedState, new, is_closed, mark_disconnected}
use raknet.Connection.World.{Env, World}
use raknet.Connection.Receive.{receive_task}
use raknet.Connection.Sending.{send_task}
use raknet.Connection.Ticking.{flush_nacks, is_empty, tick_task, close}
use raknet.Connection.Sharing.{disconnects, Steps}
use raknet.Connection.Sharing.Invariant.{fresh-Sound, Steps-Sound}
use raknet.Connection.Sharing.Sound.{Sound, later}
use raknet.Connection.Sharing.Traces.{one_step}
use raknet.Connection.Sharing.Traces.Receives.{Runs-receive_task}
use raknet.Connection.Sharing.Traces.Sends.{Runs-send_task}
use raknet.Connection.Sharing.Traces.Ticks.{Runs-tick_task, Runs-close}

-- On a cell that holds a state, `is_closed` answers for that state.
pub is_closed-new :
    (s : SharedState) (now : ConnectionState)
    → s.state ≡ Connection.new now
    → is_closed s ≡ ok (Connection.is_closed now)
unfolding is_closed load Connection.new
is_closed-new s now same =
    ap (λ c. load c >>= λ state. ok (Connection.is_closed state)) same
    ∙ ap (λ r. r >>= λ state. ok (Connection.is_closed state)) (from_u8-to_u8_state now)

closed_state : (now : ConnectionState) → Connection.is_closed now ≡ true → now ≡ disconnected
unfolding Connection.is_closed
closed_state connecting h = absurd cc
closed_state connected h = absurd cc
closed_state disconnecting h = absurd cc
closed_state disconnected h = refl

-- Nothing comes after the last state.
last_state-only : (now : ConnectionState) → to_u8 disconnected ≤ to_u8 now → now ≡ disconnected
unfolding to_u8
last_state-only connecting h = absurd (omega arith)
last_state-only connected h = absurd (omega arith)
last_state-only disconnecting h = absurd (omega arith)
last_state-only disconnected h = refl

stays_disconnected :
    (bits : BitVec) (from : ConnectionState) (s t : SharedState)
    → Sound from s
    → s.state ≡ Connection.new disconnected
    → Steps bits s t
    → t.state ≡ Connection.new disconnected
stays_disconnected bits from s t h ended steps =
    let here : HasReached disconnected s.state = (disconnected, ended, omega arith) in
    let (now, same, up) =
      (Steps-Sound bits disconnected s t (later from s h disconnected here) steps).counters.state in
    same ∙ ap Connection.new (last_state-only now up)

pub after_disconnect :
    (bits : BitVec) (from : ConnectionState) (s t : SharedState)
    → Sound from s
    → Steps bits (mark_disconnected s) t
    → t.state ≡ Connection.new disconnected
unfolding mark_disconnected store Connection.new
after_disconnect bits from s t h steps =
    stays_disconnected bits from (mark_disconnected s) t
      (Steps-Sound bits from s (mark_disconnected s) h (one_step bits disconnects)) refl steps

module _ (bits : BitVec) (lib : Buffer) where
  -- A run of one of the tasks, or a call of the application, with the clocks and the socket that it meets.
  pub data Run (w : World) : World → Type 0 where
    receives : (env : Env) (packets : List (List ℕ)) → Run w (receive_task lib bits env packets w).1
    sends : (env : Env) (payloads : List (List ℕ)) → Run w (send_task lib env payloads w).1
    ticks : (ping_counter : ℕ) (envs : List Env) → Run w (tick_task lib ping_counter envs w).1
    closes_stream : (env : Env) → Run w (close lib env w).1

  -- Whatever a task is given, and wherever it stops, it changes the shared state by the steps only.
  pub Run-Steps : (w w' : World) → Run w w' → Steps bits w.shared w'.shared
  Run-Steps w _ (receives env packets) = (Runs-receive_task bits lib env packets).at w
  Run-Steps w _ (sends env payloads) = (Runs-send_task bits lib env payloads).at w
  Run-Steps w _ (ticks counter envs) = (Runs-tick_task bits lib counter envs).at w
  Run-Steps w _ (closes_stream env) = (Runs-close bits lib env).at w

  -- Whatever steps the tasks of a new connection take, and however they interleave: the state cell holds a state; there are 16
  -- ordered channels, which hold back at most 256 packets each, in the order of their indices, and 16 order indices; the
  -- send queue holds at most 2048 packets and the fragment queue at most 512 splits, each in the order of its keys; the
  -- receive window has one bit for each of its numbers; the numbers to acknowledge are compressed; and there are never
  -- numbers to report as missing.
  pub Steps-fresh-Sound :
      (now mtu : ℕ) (s : SharedState) → Steps bits (new bits now mtu) s → Sound connecting s
  Steps-fresh-Sound now mtu s h =
      Steps-Sound bits connecting (new bits now mtu) s (fresh-Sound bits now mtu) h

  -- A connection that is closed stays closed, whatever the tasks do and however they interleave.
  pub closed_stays :
      (from : ConnectionState) (s t : SharedState)
      → Sound from s
      → is_closed s ≡ ok true
      → Steps bits s t
      → is_closed t ≡ ok true
  unfolding Connection.is_closed
  closed_stays from s t h c steps =
      let (now, same, up) = h.counters.state in
      let last = closed_state now (cc (is_closed-new s now same)) in
      is_closed-new t disconnected
        (stays_disconnected bits from s t h (same ∙ ap Connection.new last) steps)

  -- After whatever steps of the tasks of a new connection, however they interleave, `flush_nacks` sends nothing and changes
  -- nothing: no number was ever noted as missing.
  pub no_nacks :
      (env : Env) (now mtu : ℕ) (w : World)
      → Steps bits (new bits now mtu) w.shared
      → flush_nacks lib env w ≡ (ok tt, w)
  unfolding flush_nacks is_empty
  no_nacks env now mtu w h =
      let none_left = (Steps-fresh-Sound now mtu w.shared h).pending_nacks in rw none_left refl
