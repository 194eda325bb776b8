-- ===== src/Connection/Ticking.antt =====
-- connection.rs: the periodic maintenance of a connection.
pub mod Flush
pub mod Resend
mod Examples
use raknet.Base.{
  leb, Result, ℕ, ◌+◌, ◌*◌, ◌%◌, ◌^◌, Bool, true, false, List, [], ◌∷◌, map, ◌==◌, if◌then◌else◌,
  ok, err, panic,
}
use raknet.Base.Map
use raknet.Protocol.Buffer.{Buffer}
use raknet.Protocol.Login.{encode_connected_ping, encode_disconnect_notification}
use raknet.Reliability.Ack.{AckRangeList}
use raknet.Reliability.Ack.Codec.{encode_ack, encode_nack}
use raknet.Reliability.Fragment
use raknet.Reliability.SendQueue
use raknet.State.Shared.{
  is_closed, is_connected, is_timed_out, mark_disconnecting, mark_disconnected,
}
use raknet.Connection.World.{
  Env, Action, ◌>>=◌, ◌>>◌, pure, lift, on_shared, try_shared, read_shared, change_shared,
  now_micros, unix_millis, socket_send, send_recorded,
}

-- `ranges().is_empty()`
unfoldable pub is_empty : AckRangeList → Bool
is_empty [] = true
is_empty (r ∷ ranges) = false

-- `for packet in packets_to_retransmit`
unfoldable pub send_each : Env → List (List ℕ) → Action (Unit {0})
send_each env [] = pure tt
send_each env (packet ∷ packets) = do send_recorded env packet; send_each env packets

-- An error is printed only; a panic ends the task.
unfoldable pub print_error : Action (Unit {0}) → Action (Unit {0})
print_error m w =
    let (r, w') = m w in elim r [ ok _ ↦ (ok tt, w') | err _ ↦ (ok tt, w') | panic ↦ (panic, w') ]

-- `ping_counter += 1` on a `u32`.
unfoldable pub next_counter : ℕ → Result ℕ
next_counter ping_counter = if leb (2 ^ 32) (ping_counter + 1) then panic else ok (ping_counter + 1)

module _ (lib : Buffer) (env : Env) where
  -- The list is replaced by an empty one before it is sent.
  unfoldable pub flush_acks : Action (Unit {0})
  unfolding is_empty
  flush_acks = do
    acks ← read_shared (λ s. s.pending_acks)
    if is_empty acks then pure tt else (do
      change_shared (λ s. record s { pending_acks = [] })
      ack_packet ← lift (encode_ack lib acks)
      send_recorded env ack_packet)

  unfoldable pub flush_nacks : Action (Unit {0})
  unfolding is_empty
  flush_nacks = do
    nacks ← read_shared (λ s. s.pending_nacks)
    if is_empty nacks then pure tt else (do
      change_shared (λ s. record s { pending_nacks = [] })
      nack_packet ← lift (encode_nack lib nacks)
      send_recorded env nack_packet)

  -- `get_expired(timeout, 3)`, where `timeout` is three round-trip times already.
  unfoldable pub check_retransmissions : Action (Unit {0})
  unfolding send_each
  check_retransmissions = do
    rtt ← read_shared (λ s. s.metrics.rtt)
    packets ← on_shared (λ s.
        (let (expired, queue) = SendQueue.get_expired s.send_queue env.instant (rtt * 3) 3 in
          (map (λ e. e.1) expired, record s { send_queue = queue })))
    send_each env packets

  unfoldable pub send_keepalive_ping : Action (Unit {0})
  send_keepalive_ping = do
    change_shared
        (λ s. record s { pending_pings = Map.insert (unix_millis env) env.instant s.pending_pings })
    send_recorded env (encode_connected_ping lib (unix_millis env))

  unfoldable pub cleanup_fragments : Action (Unit {0})
  cleanup_fragments =
      change_shared (λ s. record s {
        fragment_queue = (Fragment.cleanup_expired s.fragment_queue env.instant).1;
      })

  -- The work of a tick behind the tests that end the task.
  unfoldable pub maintain : ℕ → Action (Unit {0})
  unfolding flush_acks flush_nacks check_retransmissions send_keepalive_ping cleanup_fragments
      print_error
  maintain ping_counter = do
    print_error flush_acks
    print_error flush_nacks
    if ping_counter % 3 == 0 then print_error check_retransmissions else pure tt
    if ping_counter % 20 == 0 then cleanup_fragments else pure tt
    if ping_counter % 50 == 0
        then (do
          connected ← λ w. (is_connected w.shared, w)
          if connected then print_error send_keepalive_ping else pure tt)
        else pure tt

  -- One round of `tick_task` with the counter before it; the answer says whether the task goes on.
  unfoldable pub tick : ℕ → Action Bool
  unfolding maintain next_counter
  tick ping_counter = do
    closed ← λ w. (is_closed w.shared, w)
    if closed then pure false else (do
      ping_counter ← lift (next_counter ping_counter)
      timed_out ← read_shared (λ s. is_timed_out s (now_micros env))
      if timed_out
          then (do change_shared mark_disconnected; pure false)
          else (do maintain ping_counter; pure true))

  -- `RakNetStream::close`
  unfoldable pub close : Action (Unit {0})
  close = do
    closing ← try_shared mark_disconnecting
    if closing then socket_send env encode_disconnect_notification else pure tt
    change_shared mark_disconnected

-- `tick_task`, with the clocks of every round; the counter starts at 0.
unfoldable pub tick_task : Buffer → ℕ → List Env → Action (Unit {0})
unfolding tick
tick_task lib ping_counter [] = pure tt
tick_task lib ping_counter (env ∷ envs) = do
  goes_on ← tick lib env ping_counter
  if goes_on then tick_task lib (ping_counter + 1) envs else pure tt
